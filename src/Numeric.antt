-- ===== src/Numeric.antt =====
-- `steel::Numeric`, the library's fixed-point number: what the code calls of it, as an interface,
-- and its documented behaviour on values that are not negative, as laws. A value counts units of
-- 2^-48 (an I80F48), `*` and `from_fraction` round down, `to_u64` drops the fraction, and a result
-- that does not fit panics. Only sums of fractions are ever stored, so no negative value arises.
pub mod Fixed
pub mod Laws
use godl_program.Base.{ℕ, ◌+◌, ◌*◌, ◌/◌, ◌^◌, ◌≤◌, ◌<◌, ◌≡◌, Bool, Result, ok, ltb}

-- one, in units of the last place
abbrev pub one : ℕ
one = 2 ^ 48

-- where the type ends, in the same units
abbrev pub raw_mod : ℕ
raw_mod = 2 ^ 127

pub record Numeric (N : Type 0) : Type 0 where
  pub nought : N
  pub lt : N → N → Bool
  pub plus : N → N → Result N
  pub minus : N → N → Result N
  pub times : N → N → Result N
  pub from_u64 : ℕ → N
  pub from_fraction : ℕ → ℕ → Result N
  pub to_u64 : N → Result ℕ

pub record IsFixedPoint (N : Type 0) (num : Numeric N) : Type 0 where
  pub raw : N → ℕ
  pub raw-nought : raw num.nought ≡ 0
  pub lt-raw : (a b : N) → num.lt a b ≡ ltb (raw a) (raw b)
  pub raw-from_u64 : (n : ℕ) → raw (num.from_u64 n) ≡ n * one
  pub raw-plus : (a b c : N) → num.plus a b ≡ ok c → raw c ≡ raw a + raw b
  pub raw-minus : (a b c : N) → raw b ≤ raw a → num.minus a b ≡ ok c → raw c + raw b ≡ raw a
  pub raw-times : (a b c : N) → num.times a b ≡ ok c → raw c ≡ raw a * raw b / one
  pub raw-from_fraction :
      (n d : ℕ) (c : N) → 0 < d → num.from_fraction n d ≡ ok c → raw c ≡ n * one / d
  pub to_u64-raw : (a : N) (n : ℕ) → num.to_u64 a ≡ ok n → n ≡ raw a / one
  -- when the operations return
  pub minus_ok : (a b : N) → raw b ≤ raw a → (c : N) × (num.minus a b ≡ ok c)
  pub times_ok : (a b : N) → raw a * raw b / one < raw_mod → (c : N) × (num.times a b ≡ ok c)
  pub to_u64_ok : (a : N) → raw a / one < 2 ^ 64 → (n : ℕ) × (num.to_u64 a ≡ ok n)
