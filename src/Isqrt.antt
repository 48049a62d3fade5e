-- ===== src/Isqrt.antt =====
-- `isqrt_u128` of api/src/state/stake_v2.rs: Newton's iteration from above. The loop recurs on the
-- fact that its variable falls, which is the negation of the test that leaves it.
pub mod Floor
use mathlib.Core.WellFounded.{Acc}
use godl_program.Base.{ℕ, zero, suc, ◌+◌, ◌/◌, ◌^◌, ◌<◌, ◌==◌, if◌then◌else◌, dite, dec_lt}
use godl_program.Base.Order.{lt_wf}

-- The bits of `n` that a word of `width` bits needs: `width - n.leading_zeros()`.
unfoldable pub bit_length : ℕ → ℕ → ℕ
bit_length zero n = 0
bit_length (suc width) n = if n == 0 then 0 else bit_length width (n / 2) + 1

-- `x.div_ceil(2)`
abbrev pub div_ceil_two : ℕ → ℕ
div_ceil_two x = (x + 1) / 2

pub newton : (n x : ℕ) → Acc ◌<◌ x → ℕ
newton n x (Acc.intro _ smaller) =
    let y = (x + n / x) / 2 in dite (dec_lt y x) (λ h. newton n y (smaller y h)) (λ _. x)

-- the loop from a first guess
unfoldable pub newton_from : ℕ → ℕ → ℕ
unfolding newton lt_wf dec_lt
newton_from n x = newton n x (lt_wf.apply x)

unfoldable pub isqrt_u128 : ℕ → ℕ
isqrt_u128 n = if n == 0 then 0 else newton_from n (2 ^ div_ceil_two (bit_length 128 n))
