-- ===== src/Numeric/Laws.antt =====
-- The chain of operations by which every accrual turns a factor's growth into an amount.
use native.Mathlib.Nat.{mul-le-mul, le_refl}
use godl_program.Base.{ℕ, ◌-◌, ◌*◌, ◌/◌, ◌≤◌, ◌<◌, ◌≡◌, ok, arith, ◌^◌, false}
use godl_program.Numeric.{Numeric, IsFixedPoint, one, raw_mod}

module _ {N : Type 0} ⦃num : Numeric N⦄ (laws : IsFixedPoint N num) where
  open laws use {
    raw, raw-minus, raw-times, raw-from_u64, to_u64-raw, lt-raw, raw-nought, minus_ok, times_ok,
    to_u64_ok,
  }

  -- what `units` earn while the factor grows from `last` to `now`
  abbrev pub grown : N → N → ℕ → ℕ
  grown now last units = (raw now - raw last) * units / one

  pub earned_exact :
      (now last accumulated personal : N) (units earned : ℕ)
      → raw last ≤ raw now
      → num.minus now last ≡ ok accumulated
      → num.times accumulated (num.from_u64 units) ≡ ok personal
      → num.to_u64 personal ≡ ok earned
      → earned ≡ grown now last units
  earned_exact now last a p u e up h₁ h₂ h₃ =
      let d : raw a ≡ raw now - raw last = omega (arith, raw-minus now last a up h₁) in
      rw (to_u64-raw p e h₃, raw-times a (num.from_u64 u) p h₂, raw-from_u64, d) (omega arith)

  -- The chain returns where the amount fits.
  pub earned_total :
      (now last : N) (units : ℕ)
      → raw last ≤ raw now
      → (raw now - raw last) * units < raw_mod
      → grown now last units < 2 ^ 64
      → (accumulated personal : N) × (num.minus now last ≡ ok accumulated)
        × (num.times accumulated (num.from_u64 units) ≡ ok personal)
        × (num.to_u64 personal ≡ ok (grown now last units))
  earned_total now last u h fits small =
      let (a, h₁) = minus_ok now last h in
      let d : raw a ≡ raw now - raw last = omega (arith, raw-minus now last a h h₁) in
      let v : raw a * raw (num.from_u64 u) / one ≡ (raw now - raw last) * u =
        rw (raw-from_u64, d) (omega arith) in
      let (p, h₂) = times_ok a (num.from_u64 u) (rw v fits) in
      let r : raw p / one ≡ grown now last u = rw (raw-times a (num.from_u64 u) p h₂, v) in
      let (n, h₃) = to_u64_ok p (rw r small) in (a, p, h₁, h₂, rw (h₃, to_u64-raw p n h₃, r))

  -- The panic on a negative difference is never reached.
  pub minus-not-negative : (a : N) → num.lt a num.nought ≡ false
  minus-not-negative a = rw (lt-raw, raw-nought) (ground arith)

  pub grown_zero : (now last : N) (units : ℕ) → raw now ≤ raw last → grown now last units ≡ 0
  grown_zero now last u h = let d : raw now - raw last ≡ 0 = omega arith in rw d (omega arith)

  -- Rounding down, and a start no earlier than `floor`, keep the amount below the growth's share.
  pub grown-le :
      (now last : N) (units floor : ℕ)
      → floor ≤ raw last
      → grown now last units * one ≤ (raw now - floor) * units
  grown-le now last u floor h =
      let shorter : raw now - raw last ≤ raw now - floor = omega arith in
      omega (arith, mul-le-mul shorter (le_refl u))
