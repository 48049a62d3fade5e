-- ===== src/StakeV2/Frame.antt =====
-- What each method of a stake returns, field by field, when it succeeds: inversions with the parts
-- shut, for the proofs about several methods.
use godl_program.Base.{
  ℕ, ◌+◌, ◌-◌, ◌≡◌, refl, min, ok, arith, Bool-cases, inl, inr, >>=-eq-ok, ok-injective_pair,
  ok-injective_triple, checked_add, godl, stake_overflow, nft_already_staked, nft_not_staked,
  require, reject, ◌==◌,
}
use godl_program.Numeric.{Numeric}
use godl_program.Treasury.{Clock, Treasury}
use godl_program.StakeV2.{
  StakeV2, weighted_units, raise_total, lower_total, accrue, update_rewards, claim, deposit,
  withdraw, stake_nft, unstake_nft, flip_weight, migrate_weight,
}
use godl_program.StakeV2.Weight.{SameWeight, weighted_units_congr}

module _ {N : Type 0} where
  -- Both ways carry the change of weight over exactly.
  pub raise_total-eq-ok :
      (u v : ℕ) (t t' : Treasury N)
      → raise_total u v t ≡ ok t'
      → (t'.total_staked + u ≡ t.total_staked + v)
        × (t'.stake_rewards_factor ≡ t.stake_rewards_factor)
  unfolding raise_total
  raise_total-eq-ok u v t t' h = ground arith

  pub lower_total-eq-ok :
      (u v : ℕ) (t t' : Treasury N)
      → lower_total u v t ≡ ok t'
      → (t'.total_staked + u ≡ t.total_staked + v)
        × (t'.stake_rewards_factor ≡ t.stake_rewards_factor)
  unfolding lower_total
  lower_total-eq-ok u v t t' h = ground arith

module _ {N : Type 0} ⦃num : Numeric N⦄ where
  -- Settling the rewards leaves what the weight depends on.
  pub accrue-SameWeight : (s s' : StakeV2 N) (t : Treasury N) → accrue s t ≡ ok s' → SameWeight s s'
  unfolding accrue
  accrue-SameWeight s s' t h = ground arith

  pub update_rewards-SameWeight :
      (s s' : StakeV2 N) (t : Treasury N) → update_rewards s t ≡ ok s' → SameWeight s s'
  unfolding update_rewards
  update_rewards-SameWeight s s' t h = grind (arith, accrue-SameWeight)

  -- The books move with the weight.
  pub record Tracks (s : StakeV2 N) (t : Treasury N) (s' : StakeV2 N) (t' : Treasury N)
      : Type 0 where
    pub before : ℕ
    pub after : ℕ
    pub before_units : weighted_units s ≡ ok before
    pub after_units : weighted_units s' ≡ ok after
    pub total : t'.total_staked + before ≡ t.total_staked + after

  raised :
      (s s₁ s₂ : StakeV2 N) (t t' : Treasury N) (u v : ℕ)
      → update_rewards s t ≡ ok s₁
      → weighted_units s₁ ≡ ok u
      → weighted_units s₂ ≡ ok v
      → raise_total u v t ≡ ok t'
      → Tracks s t s₂ t'
  raised s s₁ s₂ t t' u v e₁ e₂ e₃ e₄ = record {
    before = u;
    after = v;
    before_units = rw (weighted_units_congr s s₁ (update_rewards-SameWeight s s₁ t e₁)) e₂;
    after_units = e₃;
    total = (raise_total-eq-ok u v t t' e₄).0;
  }

  lowered :
      (s s₁ s₂ : StakeV2 N) (t t' : Treasury N) (u v : ℕ)
      → update_rewards s t ≡ ok s₁
      → weighted_units s₁ ≡ ok u
      → weighted_units s₂ ≡ ok v
      → lower_total u v t ≡ ok t'
      → Tracks s t s₂ t'
  lowered s s₁ s₂ t t' u v e₁ e₂ e₃ e₄ = record {
    before = u;
    after = v;
    before_units = rw (weighted_units_congr s s₁ (update_rewards-SameWeight s s₁ t e₁)) e₂;
    after_units = e₃;
    total = (lower_total-eq-ok u v t t' e₄).0;
  }

  pub Tracks-subst :
      (s s₁ s₂ : StakeV2 N) (t t₁ t₂ : Treasury N)
      → s₁ ≡ s₂
      → t₁ ≡ t₂
      → Tracks s t s₁ t₁
      → Tracks s t s₂ t₂
  Tracks-subst s s₁ s₂ t t₁ t₂ p q w = rw (← p, ← q) w

  pub deposit-Tracks :
      (s s' : StakeV2 N) (t t' : Treasury N) (a n available : ℕ) (c : Clock)
      → deposit s a c t available ≡ ok (n, s', t')
      → Tracks s t s' t'
  unfolding deposit
  deposit-Tracks s s' t t' a n available c h =
      let (s₁, e₁, h₁) = >>=-eq-ok (update_rewards s t) _ h in
      let (u, e₂, h₂) = >>=-eq-ok (weighted_units s₁) _ h₁ in
      let (b, e₃, h₃) =
        >>=-eq-ok (checked_add s₁.balance (min available a) (godl stake_overflow)) _ h₂ in
      let s₂ = record s₁ { balance = b; last_deposit_at = c.unix_timestamp } in
      let (v, e₄, h₄) = >>=-eq-ok (weighted_units s₂) _ h₃ in
      let (t₁, e₅, h₅) = >>=-eq-ok (raise_total u v t) _ h₄ in
      let (_, p, q) = ok-injective_triple _ n s₂ s' t₁ t' h₅ in
      Tracks-subst s s₂ s' t t₁ t' p q (raised s s₁ s₂ t t₁ u v e₁ e₂ e₄ e₅)

  pub withdraw-Tracks :
      (s s' : StakeV2 N) (t t' : Treasury N) (a n : ℕ) (c : Clock)
      → withdraw s a c t ≡ ok (n, s', t')
      → Tracks s t s' t'
  unfolding withdraw
  withdraw-Tracks s s' t t' a n c h =
      let (s₁, e₁, h₁) = >>=-eq-ok (update_rewards s t) _ h in
      let (u, e₂, h₂) = >>=-eq-ok (weighted_units s₁) _ h₁ in
      let s₂ = record s₁ {
        balance = s₁.balance - min s₁.balance a;
        last_withdraw_at = c.unix_timestamp;
      } in
      let (v, e₃, h₃) = >>=-eq-ok (weighted_units s₂) _ h₂ in
      let (t₁, e₄, h₄) = >>=-eq-ok (lower_total u v t) _ h₃ in
      let (_, p, q) = ok-injective_triple _ n s₂ s' t₁ t' h₄ in
      Tracks-subst s s₂ s' t t₁ t' p q (lowered s s₁ s₂ t t₁ u v e₁ e₂ e₃ e₄)

  pub stake_nft-Tracks :
      (s s' : StakeV2 N) (t t' : Treasury N) → stake_nft s t ≡ ok (s', t') → Tracks s t s' t'
  unfolding stake_nft
  stake_nft-Tracks s s' t t' h =
      let (_, e₀, h₀) = >>=-eq-ok (require (s.is_nft_staked == 0) (godl nft_already_staked)) _ h in
      let (s₁, e₁, h₁) = >>=-eq-ok (update_rewards s t) _ h₀ in
      let (u, e₂, h₂) = >>=-eq-ok (weighted_units s₁) _ h₁ in
      let s₂ = record s₁ { is_nft_staked = 1 } in
      let (v, e₃, h₃) = >>=-eq-ok (weighted_units s₂) _ h₂ in
      let (t₁, e₄, h₄) = >>=-eq-ok (raise_total u v t) _ h₃ in
      let (p, q) = ok-injective_pair s₂ s' t₁ t' h₄ in
      Tracks-subst s s₂ s' t t₁ t' p q (raised s s₁ s₂ t t₁ u v e₁ e₂ e₃ e₄)

  pub unstake_nft-Tracks :
      (s s' : StakeV2 N) (t t' : Treasury N) → unstake_nft s t ≡ ok (s', t') → Tracks s t s' t'
  unfolding unstake_nft
  unstake_nft-Tracks s s' t t' h =
      let (_, e₀, h₀) = >>=-eq-ok (reject (s.is_nft_staked == 0) (godl nft_not_staked)) _ h in
      let (s₁, e₁, h₁) = >>=-eq-ok (update_rewards s t) _ h₀ in
      let (u, e₂, h₂) = >>=-eq-ok (weighted_units s₁) _ h₁ in
      let s₂ = record s₁ { is_nft_staked = 0 } in
      let (v, e₃, h₃) = >>=-eq-ok (weighted_units s₂) _ h₂ in
      let (t₁, e₄, h₄) = >>=-eq-ok (lower_total u v t) _ h₃ in
      let (p, q) = ok-injective_pair s₂ s' t₁ t' h₄ in
      Tracks-subst s s₂ s' t t₁ t' p q (lowered s s₁ s₂ t t₁ u v e₁ e₂ e₃ e₄)

  flip_weight-Tracks :
      (s s' : StakeV2 N) (t t' : Treasury N) → flip_weight s t ≡ ok (s', t') → Tracks s t s' t'
  unfolding flip_weight
  flip_weight-Tracks s s' t t' h =
      let (s₁, e₁, h₁) = >>=-eq-ok (update_rewards s t) _ h in
      let (u, e₂, h₂) = >>=-eq-ok (weighted_units s₁) _ h₁ in
      let s₂ = record s₁ { weight_version = 1 } in
      let (v, e₃, h₃) = >>=-eq-ok (weighted_units s₂) _ h₂ in
      let (t₁, e₄, h₄) = >>=-eq-ok (raise_total u v t) _ h₃ in
      let (p, q) = ok-injective_pair s₂ s' t₁ t' h₄ in
      Tracks-subst s s₂ s' t t₁ t' p q (raised s s₁ s₂ t t₁ u v e₁ e₂ e₃ e₄)

  -- A stake that has been migrated already is left alone, with its weight, if that is computed.
  pub migrate_weight-Tracks :
      (s s' : StakeV2 N) (t t' : Treasury N) (u : ℕ)
      → weighted_units s ≡ ok u
      → migrate_weight s t ≡ ok (s', t')
      → Tracks s t s' t'
  unfolding migrate_weight
  migrate_weight-Tracks s s' t t' u w h = elim (Bool-cases (s.weight_version == 0)) [
    | inl e ↦ flip_weight-Tracks s s' t t' (rw e at h)
    | inr e ↦
        let same : ok (s, t) ≡ ok (s', t') = rw e at h in
        let (p, q) = ok-injective_pair s s' t t' same in
        Tracks-subst s s s' t t t' p q
          (record { before = u; after = u; before_units = w; after_units = w; total = refl })
  ]

  pub claim-SameWeight :
      (s s' : StakeV2 N) (t : Treasury N) (a n : ℕ) (c : Clock)
      → claim s a c t ≡ ok (n, s')
      → SameWeight s s'
  unfolding claim
  claim-SameWeight s s' t a n c h = grind (arith, update_rewards-SameWeight)
