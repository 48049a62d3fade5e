-- ===== src/Base/Words.antt =====
-- Rust's checked arithmetic on u64 and u128. The operators panic where the true result does not
-- fit; `checked_add` and its like return `None`, which the code turns into an error of its own.
use Prim.Native.Nat.{ℕ, ◌+◌, ◌-◌, ◌*◌, ◌^◌, min}
use mathlib.Core.List.{List, [], ◌∷◌}
use godl_program.Base.Tests.{ltb, leb, if◌then◌else◌}
use godl_program.Base.Outcome.{Error, Result, ok, err, panic, ◌>>=◌}

abbrev pub u64_mod : ℕ
u64_mod = 2 ^ 64

abbrev pub u64_max : ℕ
u64_max = 2 ^ 64 - 1

abbrev pub u128_mod : ℕ
u128_mod = 2 ^ 128

-- a value of a machine type whose range ends below `bound`, or the error
abbrev pub fit : ℕ → Error → ℕ → Result ℕ
fit bound e n = if ltb n bound then ok n else err e

abbrev pub checked_add : ℕ → ℕ → Error → Result ℕ
checked_add a b e = fit u64_mod e (a + b)

abbrev pub checked_sub : ℕ → ℕ → Error → Result ℕ
checked_sub a b e = if leb b a then ok (a - b) else err e

abbrev pub checked_mul : ℕ → ℕ → Error → Result ℕ
checked_mul a b e = fit u64_mod e (a * b)

abbrev pub saturating_add : ℕ → ℕ → ℕ
saturating_add a b = min (a + b) u64_max

-- `a + b`, `a - b`, `a * b` at u64
abbrev pub add_u64 : ℕ → ℕ → Result ℕ
add_u64 a b = checked_add a b panic

abbrev pub sub_u64 : ℕ → ℕ → Result ℕ
sub_u64 a b = checked_sub a b panic

abbrev pub mul_u64 : ℕ → ℕ → Result ℕ
mul_u64 a b = checked_mul a b panic

-- `a * b` and `a + b` at u128
abbrev pub mul_u128 : ℕ → ℕ → Result ℕ
mul_u128 a b = fit u128_mod panic (a * b)

-- `iter().sum::<u64>()`
abbrev pub sum_u64 : List ℕ → Result ℕ
sum_u64 [] = ok 0
sum_u64 (x ∷ xs) = sum_u64 xs >>= add_u64 x
