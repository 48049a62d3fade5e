-- ===== src/StakeV2/Weight.antt =====
-- The two weight curves: `effective_multiplier` and `weighted_units`.
use native.Mathlib.Nat.{mul-le-mul, le_refl}
use godl_program.Base.{
  ℕ, ◌+◌, ◌-◌, ◌*◌, ◌/◌, ◌^◌, ◌≤◌, ◌<◌, ◌≡◌, ok, arith, ◌==◌, u64_mod, if◌then◌else◌,
}
use godl_program.Consts.{stake_multiplier_scale}
use godl_program.Isqrt.{isqrt_u128}
use godl_program.Isqrt.Floor.{isqrt_u128_floor, isqrt_u128_mono, floor_mono}
use godl_program.StakeV2.{
  StakeV2, effective_multiplier, applied_multiplier, apply_multiplier, boosted, weighted_units,
}

root-lt-u64 : (r n : ℕ) → r * r ≤ n → n < 2 ^ 128 → r < u64_mod
root-lt-u64 r n h b = omega (arith, floor_mono n n r (2 ^ 64 - 1) (omega arith) h b)

-- On every u64 multiplier the final cast loses nothing.
effective_multiplier-eq-isqrt :
    (m : ℕ) → m < u64_mod → effective_multiplier m ≡ isqrt_u128 (m * stake_multiplier_scale)
unfolding effective_multiplier
effective_multiplier-eq-isqrt m h =
    let n = m * stake_multiplier_scale in
    omega (arith, root-lt-u64 (isqrt_u128 n) n (isqrt_u128_floor n (omega arith)).0 (omega arith))

-- On every u64 multiplier `m` the square-root curve is exact: the result fits a u64, and it is the
-- floor of the square root of `m * 10^9`.
pub effective_multiplier_floor :
    (m : ℕ)
    → m < u64_mod
    → let e = effective_multiplier m in
      let n = m * stake_multiplier_scale in (e < u64_mod) × (e * e ≤ n) × (n < (e + 1) * (e + 1))
effective_multiplier_floor m h =
    let n = m * stake_multiplier_scale in
    let (lo, hi) = isqrt_u128_floor n (omega arith) in
    rw (effective_multiplier-eq-isqrt m h) (root-lt-u64 (isqrt_u128 n) n lo (omega arith), lo, hi)

-- A larger u64 multiplier never gets a smaller effective one.
pub effective_multiplier_mono :
    (m n : ℕ) → m ≤ n → n < u64_mod → effective_multiplier m ≤ effective_multiplier n
effective_multiplier_mono m n h b =
    rw (effective_multiplier-eq-isqrt m (omega arith), effective_multiplier-eq-isqrt n b)
      (isqrt_u128_mono (m * stake_multiplier_scale) (n * stake_multiplier_scale) (omega arith)
        (omega arith))

-- From 1x upwards the effective u64 multiplier lies between 1x and the multiplier.
pub effective_multiplier_down :
    (m : ℕ)
    → m < u64_mod
    → stake_multiplier_scale ≤ m
    → (stake_multiplier_scale ≤ effective_multiplier m) × (effective_multiplier m ≤ m)
effective_multiplier_down m h up =
    let e = effective_multiplier m in
    let n = m * stake_multiplier_scale in
    let (fits, lo, hi) = effective_multiplier_floor m h in
    (
      floor_mono n n stake_multiplier_scale e (omega arith) (omega arith) hi,
      floor_mono n (m * m) e m (omega (arith, mul-le-mul (le_refl m) up)) lo (omega arith),
    )

-- Up to 1x the effective multiplier lies between the multiplier and 1x.
pub effective_multiplier_up :
    (m : ℕ)
    → m ≤ stake_multiplier_scale
    → (m ≤ effective_multiplier m) × (effective_multiplier m ≤ stake_multiplier_scale)
effective_multiplier_up m down =
    let e = effective_multiplier m in
    let n = m * stake_multiplier_scale in
    let (fits, lo, hi) = effective_multiplier_floor m (omega arith) in
    (
      floor_mono (m * m) n m e (omega (arith, mul-le-mul (le_refl m) down)) (omega arith) hi,
      floor_mono n (stake_multiplier_scale * stake_multiplier_scale) e stake_multiplier_scale
          (omega arith) lo (omega arith),
    )

module _ {N : Type 0} where
  -- The weight is determined by four fields.
  abbrev pub SameWeight : StakeV2 N → StakeV2 N → Type 0
  SameWeight s s' =
      (s.balance ≡ s'.balance)
      × (s.multiplier ≡ s'.multiplier)
      × (s.weight_version ≡ s'.weight_version)
      × (s.is_nft_staked ≡ s'.is_nft_staked)

  pub weighted_units_congr :
      (s s' : StakeV2 N) → SameWeight s s' → weighted_units s ≡ weighted_units s'
  unfolding weighted_units apply_multiplier applied_multiplier
  weighted_units_congr s s' (b, m, v, n) = rw (b, m, v, n)

  -- the weight as one formula, on numbers without an end
  abbrev pub exact_units : StakeV2 N → ℕ
  exact_units s =
      let base = s.balance * applied_multiplier s / stake_multiplier_scale in
      if s.is_nft_staked == 0 then base else base * 11 / 10

  -- If a weight is computed it is the exact one, and fits a u64.
  pub weighted_units_exact :
      (s : StakeV2 N) (u : ℕ) → weighted_units s ≡ ok u → (u ≡ exact_units s) × (u < u64_mod)
  unfolding weighted_units apply_multiplier boosted
  weighted_units_exact s u h = ground arith

  -- The weight is computed whenever the exact one fits, for a u64 balance.
  pub weighted_units_total :
      (s : StakeV2 N)
      → s.balance < u64_mod
      → applied_multiplier s < u64_mod
      → exact_units s < u64_mod
      → weighted_units s ≡ ok (exact_units s)
  unfolding weighted_units apply_multiplier boosted
  weighted_units_total s hb hm h =
      let fits : s.balance * applied_multiplier s ≤ (2 ^ 64 - 1) * (2 ^ 64 - 1) =
        mul-le-mul {n₂ = 2 ^ 64 - 1} {m₂ = 2 ^ 64 - 1} (omega arith) (omega arith) in
      ground arith
