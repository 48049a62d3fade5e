-- ===== src/Gold/Shares.antt =====
-- The books of `distribute` (api/src/state/gold_vault.rs), and the miners' shares in it.
use native.Mathlib.Nat.{mul-le-mul, le_refl, div-mul-le_self}
use godl_program.Base.{
  ℕ, ◌+◌, ◌-◌, ◌*◌, ◌/◌, ◌≤◌, ◌<◌, ◌≡◌, List, [], ◌∷◌, ok, arith, Bool-cases, inl, inr, >>=-eq-ok,
  ok-injective_pair, ◌==◌, some, u64_mod, checked_mul, checked_add, arithmetic_overflow, reject,
  panic, sum, false, sum,
}
use godl_program.Consts.{gold_factor_scale}
use godl_program.Numeric.{Numeric, IsFixedPoint, one}
use godl_program.Gold.{
  GoldVault, MinerExtended, split_payout, credit, distribute, accrue, update_rewards,
}

-- A payout out of the motherlode, if a thousand times its amount fits a u64, is split without loss,
-- the smaller part being a tenth rounded down.
pub split_payout_conserves :
    (amount : ℕ)
    → amount * 1000 < u64_mod
    → (rush gold : ℕ) × (split_payout amount ≡ some (rush, gold))
      × (rush + gold ≡ amount)
      × (rush ≡ amount / 10)
unfolding split_payout
split_payout_conserves amount h =
    (amount / 10, amount - amount / 10, ground arith, omega arith, omega arith)

module _ {N : Type 0} ⦃num : Numeric N⦄ where
  credit-eq-ok :
      (v v' : GoldVault N) (amount total n : ℕ)
      → credit v amount total ≡ ok (n, v')
      → (n ≡ amount)
        × (v'.pending_xaut ≡ 0)
        × (v'.total_xaut_distributed ≡ v.total_xaut_distributed + amount)
        × (v'.total_xaut_claimed ≡ v.total_xaut_claimed)
  unfolding credit
  credit-eq-ok v v' amount total n h = ground arith

  -- What is pending and what has been distributed grow together by just the XAUt0 that came in, and
  -- the amount returned is what has been distributed more.
  pub distribute_conserves :
      (v v' : GoldVault N) (xaut total_unclaimed n : ℕ)
      → distribute v xaut total_unclaimed ≡ ok (n, v')
      → (v'.pending_xaut + v'.total_xaut_distributed
          ≡ v.pending_xaut + v.total_xaut_distributed + xaut)
        × (v'.total_xaut_distributed ≡ v.total_xaut_distributed + n)
  unfolding distribute
  distribute_conserves v v' xaut u n h =
      ground (arith, credit-eq-ok v v' (v.pending_xaut + xaut) u n)

module _ {N : Type 0} ⦃num : Numeric N⦄ (laws : IsFixedPoint N num) where
  open laws use {raw, raw-plus, raw-minus, raw-times, raw-from_fraction, to_u64-raw, lt-raw}

  -- what `grams` of unclaimed GODL earn while the vault's factor grows by `d` units
  abbrev pub gold_share : ℕ → ℕ → ℕ
  gold_share d grams = d * (grams * one / gold_factor_scale) / one / one

  accrue_exact :
      (m m' : MinerExtended N) (v : GoldVault N) (grams : ℕ)
      → raw m.xaut_rewards_factor ≤ raw v.xaut_rewards_factor
      → accrue m v grams ≡ ok m'
      → let share = gold_share (raw v.xaut_rewards_factor - raw m.xaut_rewards_factor) grams in
        (m'.xaut_rewards ≡ m.xaut_rewards + share) × (m'.lifetime_xaut ≡ m.lifetime_xaut + share)
  unfolding accrue
  accrue_exact m m' v g up h =
      let now = v.xaut_rewards_factor in
      let last = m.xaut_rewards_factor in
      let (a, e₁, h₁) = >>=-eq-ok (num.minus now last) _ h in
      let (_, e₂, h₂) = >>=-eq-ok (reject (num.lt a num.nought) panic) _ h₁ in
      let (q, e₃, h₃) = >>=-eq-ok (num.from_fraction g gold_factor_scale) _ h₂ in
      let (p, e₄, h₄) = >>=-eq-ok (num.times a q) _ h₃ in
      let (n, e₅, h₅) = >>=-eq-ok (num.to_u64 p) _ h₄ in
      let d : raw a ≡ raw now - raw last = omega (arith, raw-minus now last a up e₁) in
      let exact : n ≡ gold_share (raw now - raw last) g = rw (
        to_u64-raw p n e₅,
        raw-times a q p e₄,
        raw-from_fraction g gold_factor_scale q (omega arith) e₃,
        d,
      ) in
      rw (← exact) (ground arith)

  -- A settlement adds exactly the share of the miner's unclaimed GODL in the growth of the vault's
  -- factor, and moves the miner's factor to the vault's.
  pub update_rewards_exact :
      (m m' : MinerExtended N) (v : GoldVault N) (grams : ℕ)
      → update_rewards m v grams ≡ ok m'
      → let share = gold_share (raw v.xaut_rewards_factor - raw m.xaut_rewards_factor) grams in
        (m'.xaut_rewards ≡ m.xaut_rewards + share)
        × (m'.lifetime_xaut ≡ m.lifetime_xaut + share)
        × (m'.xaut_rewards_factor ≡ v.xaut_rewards_factor)
  unfolding update_rewards
  update_rewards_exact m m' v g h =
      elim (Bool-cases (num.lt m.xaut_rewards_factor v.xaut_rewards_factor)) [
        | inl e ↦
            let (m₁, e₁, h₁) = >>=-eq-ok (accrue m v g) _ (rw e at h) in
            let up : raw m.xaut_rewards_factor ≤ raw v.xaut_rewards_factor =
              ground (arith, lt-raw m.xaut_rewards_factor v.xaut_rewards_factor) in
            ground (arith, accrue_exact m m₁ v g up e₁)
        | inr e ↦
            let now = raw v.xaut_rewards_factor in
            let last = raw m.xaut_rewards_factor in
            let same : now ≤ last =
              ground (arith, lt-raw m.xaut_rewards_factor v.xaut_rewards_factor) in
            let level : now - last ≡ 0 = omega arith in
            let nothing : gold_share (now - last) g ≡ 0 = rw level (omega arith) in
            rw nothing (ground arith)
      ]

  gold_share-le : (d g : ℕ) → gold_share d g * (one * gold_factor_scale) ≤ d * g
  gold_share-le d g =
      let w = g * one / gold_factor_scale in
      omega (arith, mul-le-mul (le_refl d) (div-mul-le_self (g * one) gold_factor_scale))

  abbrev pub sum_shares : ℕ → List ℕ → ℕ
  sum_shares d [] = 0
  sum_shares d (g ∷ gs) = gold_share d g + sum_shares d gs

  sum_shares-le : (d : ℕ) (gs : List ℕ) → sum_shares d gs * (one * gold_factor_scale) ≤ d * sum gs
  sum_shares-le d [] = omega arith
  sum_shares-le d (g ∷ gs) = omega (arith, gold_share-le d g, sum_shares-le d gs)

  credit-factor :
      (v v' : GoldVault N) (amount total n : ℕ)
      → 0 < total
      → credit v amount total ≡ ok (n, v')
      → (raw v'.xaut_rewards_factor - raw v.xaut_rewards_factor) * total
        ≤ n * (one * gold_factor_scale)
  unfolding credit
  credit-factor v v' amount total n pos h =
      let (scaled, e₁, h₁) =
        >>=-eq-ok (checked_mul amount gold_factor_scale arithmetic_overflow) _ h in
      let (q, e₂, h₂) = >>=-eq-ok (num.from_fraction scaled total) _ h₁ in
      let (f, e₃, h₃) = >>=-eq-ok (num.plus v.xaut_rewards_factor q) _ h₂ in
      let is_scaled : scaled ≡ amount * gold_factor_scale = ground arith in
      let same : (n ≡ amount) × (v'.xaut_rewards_factor ≡ f) = ground arith in
      let growth : raw f - raw v.xaut_rewards_factor ≡ scaled * one / total =
        omega
          (arith, raw-plus v.xaut_rewards_factor q f e₃, raw-from_fraction scaled total q pos e₂) in
      rw (same.1, growth, same.0) (omega (arith, div-mul-le_self (scaled * one) total, is_scaled))

  distribute-factor :
      (v v' : GoldVault N) (xaut total n : ℕ)
      → 0 < total
      → distribute v xaut total ≡ ok (n, v')
      → (raw v'.xaut_rewards_factor - raw v.xaut_rewards_factor) * total
        ≤ n * (one * gold_factor_scale)
  unfolding distribute
  distribute-factor v v' xaut total n pos h =
      let (amount, e₁, h₁) = >>=-eq-ok (checked_add v.pending_xaut xaut arithmetic_overflow) _ h in
      elim (Bool-cases (amount == 0)) [
        | inl e ↦
            let (_, same) = ok-injective_pair 0 n v v' (rw e at h₁) in
            let level : raw v'.xaut_rewards_factor - raw v.xaut_rewards_factor ≡ 0 =
              rw (← same) (omega arith) in
            rw level (omega arith)
        | inr e ↦
            let h₂ = rw e at h₁ in
            let some_total : (total == 0) ≡ false = ground arith in
            credit-factor v v' amount total n pos (rw some_total at h₂)
      ]

  -- While some GODL is unclaimed, the shares in one distribution, of miners whose unclaimed GODL
  -- adds up to at most the total, add up to no more than the amount that it credits.
  pub distribute_solvent :
      (v v' : GoldVault N) (xaut total_unclaimed n : ℕ) (grams : List ℕ)
      → 0 < total_unclaimed
      → sum grams ≤ total_unclaimed
      → distribute v xaut total_unclaimed ≡ ok (n, v')
      → sum_shares (raw v'.xaut_rewards_factor - raw v.xaut_rewards_factor) grams ≤ n
  distribute_solvent v v' xaut u n gs pos within h =
      let d = raw v'.xaut_rewards_factor - raw v.xaut_rewards_factor in
      let growth : d * u ≤ n * (one * gold_factor_scale) = distribute-factor v v' xaut u n pos h in
      omega (arith, sum_shares-le d gs, mul-le-mul (le_refl d) within)
