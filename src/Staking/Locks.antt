-- ===== src/Staking/Locks.antt =====
-- The locks of positions, and the checks at the end of a withdrawal and of a merge.
use godl_program.Base.{
  ℕ, ◌+◌, ◌≡◌, ◌∙◌, refl, sym, ap, true, false, ok, err, arith, >>=-eq-ok, ok-injective,
  ok-injective_pair, ok-injective_triple, checked_add, godl, stake_overflow, stake_locked, ◌==◌,
  Bool-cases, inl, inr,
}
use godl_program.Base.Int.{pos, ltb_ℤ, max_ℤ, saturating_add_i64}
use godl_program.Numeric.{Numeric}
use godl_program.Treasury.{Clock, Treasury}
use godl_program.StakeV2.{
  StakeV2, weighted_units, accrue, update_rewards, flip_weight, migrate_weight, raise_total,
}
use godl_program.StakeV2.Frame.{update_rewards-SameWeight}
use godl_program.Runtime.{Steel}
use godl_program.Staking.{Accounts}
use godl_program.Staking.Withdrawals.{unlock_at, withdraw_loaded}
use godl_program.Staking.Merge.{fold_in, settle_both, join, merge}

module _ {N : Type 0} ⦃num : Numeric N⦄ where
  -- what a lock and its migration depend on
  abbrev SameLock : StakeV2 N → StakeV2 N → Type 0
  SameLock s s' =
      (s'.weight_version ≡ s.weight_version)
      × (s'.lock_duration ≡ s.lock_duration)
      × (s'.created_at ≡ s.created_at)

  update_rewards-SameLock :
      (s s' : StakeV2 N) (t : Treasury N) → update_rewards s t ≡ ok s' → SameLock s s'
  unfolding update_rewards accrue
  update_rewards-SameLock s s' t h = ground arith

  flip_weight-once :
      (s s' : StakeV2 N) (t t' : Treasury N)
      → flip_weight s t ≡ ok (s', t')
      → (s'.weight_version == 0 ≡ false) × (s'.lock_duration ≡ s.lock_duration)
  unfolding flip_weight
  flip_weight-once s s' t t' h =
      let (s₁, e₁, h₁) = >>=-eq-ok (update_rewards s t) _ h in
      let (u, e₂, h₂) = >>=-eq-ok (weighted_units s₁) _ h₁ in
      let s₂ = record s₁ { weight_version = 1 } in
      let (v, e₃, h₃) = >>=-eq-ok (weighted_units s₂) _ h₂ in
      let (t₁, e₄, h₄) = >>=-eq-ok (raise_total u v t) _ h₃ in
      let (p, _) = ok-injective_pair s₂ s' t₁ t' h₄ in
      let (_, lock, _) = update_rewards-SameLock s s₁ t e₁ in
      (ap (λ x. x.weight_version == 0) (sym p), ap (λ x. x.lock_duration) (sym p) ∙ lock)

  migrate_weight-once :
      (s s' : StakeV2 N) (t t' : Treasury N)
      → migrate_weight s t ≡ ok (s', t')
      → (s'.weight_version == 0 ≡ false) × (s'.lock_duration ≡ s.lock_duration)
  unfolding migrate_weight
  migrate_weight-once s s' t t' h = elim (Bool-cases (s.weight_version == 0)) [
    | inl e ↦ flip_weight-once s s' t t' (rw e at h)
    | inr e ↦
        let (p, _) = ok-injective_pair s s' t t' (rw e at h) in
        (ap (λ x. x.weight_version == 0) (sym p) ∙ e, ap (λ x. x.lock_duration) (sym p))
  ]

  fold_in-lock :
      (c : Clock) (x y s : StakeV2 N)
      → fold_in c x y ≡ ok s
      → (s.weight_version ≡ x.weight_version)
        × (s.lock_duration ≡ max_ℤ x.lock_duration y.lock_duration)
        × (s.created_at ≡ c.unix_timestamp)
        × (s.balance ≡ x.balance + y.balance)
  unfolding fold_in
  fold_in-lock c x y s h =
      let (b, e₁, h₁) = >>=-eq-ok (checked_add x.balance y.balance (godl stake_overflow)) _ h in
      let (r, e₂, h₂) = >>=-eq-ok (checked_add x.rewards y.rewards (godl stake_overflow)) _ h₁ in
      let (l, e₃, h₃) =
        >>=-eq-ok (checked_add x.lifetime_rewards y.lifetime_rewards (godl stake_overflow)) _ h₂ in
      let same = ok-injective _ _ h₃ in
      let sum : b ≡ x.balance + y.balance = ground arith in
      (
        sym (ap (λ z. z.weight_version) same),
        sym (ap (λ z. z.lock_duration) same),
        sym (ap (λ z. z.created_at) same),
        sym (ap (λ z. z.balance) same) ∙ sum,
      )

  -- a settled position: on the square-root curve, with the lock and the balance that it had
  record Settled (s s' : StakeV2 N) : Type 0 where
    migrated : s'.weight_version == 0 ≡ false
    lock : s'.lock_duration ≡ s.lock_duration
    balance : s'.balance ≡ s.balance

  migrate_weight-balance :
      (s s' : StakeV2 N) (t t' : Treasury N)
      → migrate_weight s t ≡ ok (s', t')
      → s'.balance ≡ s.balance
  unfolding migrate_weight flip_weight
  migrate_weight-balance s s' t t' h = elim (Bool-cases (s.weight_version == 0)) [
    | inl e ↦
        let (s₁, e₁, h₁) = >>=-eq-ok (update_rewards s t) _ (rw e at h) in
        let (u, e₂, h₂) = >>=-eq-ok (weighted_units s₁) _ h₁ in
        let s₂ = record s₁ { weight_version = 1 } in
        let (v, e₃, h₃) = >>=-eq-ok (weighted_units s₂) _ h₂ in
        let (t₁, e₄, h₄) = >>=-eq-ok (raise_total u v t) _ h₃ in
        let (p, _) = ok-injective_pair s₂ s' t₁ t' h₄ in
        let (b, _, _, _) = update_rewards-SameWeight s s₁ t e₁ in
        ap (λ x. x.balance) (sym p) ∙ sym b
    | inr e ↦ let (p, _) = ok-injective_pair s s' t t' (rw e at h) in ap (λ x. x.balance) (sym p)
  ]

  migrated-Settled :
      (s s₁ s₂ : StakeV2 N) (t t' t'' : Treasury N)
      → migrate_weight s t ≡ ok (s₁, t')
      → update_rewards s₁ t'' ≡ ok s₂
      → Settled s s₂
  migrated-Settled s s₁ s₂ t t' t'' m u =
      let (once, kept) = migrate_weight-once s s₁ t t' m in
      let (version, lock, _) = update_rewards-SameLock s₁ s₂ t'' u in
      let (b, _, _, _) = update_rewards-SameWeight s₁ s₂ t'' u in
      record {
        migrated = ap (λ n. n == 0) version ∙ once;
        lock = lock ∙ kept;
        balance = sym b ∙ migrate_weight-balance s s₁ t t' m;
      }

  Settled-subst : (s s₁ s₂ : StakeV2 N) → s₁ ≡ s₂ → Settled s s₁ → Settled s s₂
  Settled-subst s s₁ s₂ p x = rw (← p) x

  settle_both-Settled :
      (x x' y y' : StakeV2 N) (t t' : Treasury N)
      → settle_both x y t ≡ ok (x', y', t')
      → Settled x x' × Settled y y'
  unfolding settle_both
  settle_both-Settled x x' y y' t t' h =
      let ((x₁, t₁), e₁, h₁) = >>=-eq-ok (migrate_weight x t) _ h in
      let ((y₁, t₂), e₂, h₂) = >>=-eq-ok (migrate_weight y t₁) _ h₁ in
      let (x₂, e₃, h₃) = >>=-eq-ok (update_rewards x₁ t₂) _ h₂ in
      let (y₂, e₄, h₄) = >>=-eq-ok (update_rewards y₁ t₂) _ h₃ in
      let (p, q, _) = ok-injective_triple x₂ x' y₂ y' t₂ t' h₄ in
      (
        Settled-subst x x₂ x' p (migrated-Settled x x₁ x₂ t t₁ t₂ e₁ e₃),
        Settled-subst y y₂ y' q (migrated-Settled y y₁ y₂ t₁ t₂ t₂ e₂ e₄),
      )

  join-fold_in :
      (c : Clock) (x y s : StakeV2 N) (t t' : Treasury N)
      → join c x y t ≡ ok (s, t')
      → fold_in c x y ≡ ok s
  unfolding join
  join-fold_in c x y s t t' h =
      let (a, e₁, h₁) = >>=-eq-ok (weighted_units x) _ h in
      let (b, e₂, h₂) = >>=-eq-ok (weighted_units y) _ h₁ in
      let (p, e₃, h₃) = >>=-eq-ok (checked_add a b (godl stake_overflow)) _ h₂ in
      let (m, e₄, h₄) = >>=-eq-ok (fold_in c x y) _ h₃ in
      let (w, e₅, h₅) = >>=-eq-ok (weighted_units m) _ h₄ in
      let (t₁, e₆, h₆) = >>=-eq-ok (raise_total p w t) _ h₅ in
      let (same, _) = ok-injective_pair m s t₁ t' h₆ in e₄ ∙ ap ok same

  pub merge-lock :
      (c : Clock) (x y s : StakeV2 N) (t t' : Treasury N)
      → merge c x y t ≡ ok (s, t')
      → (s.weight_version == 0 ≡ false)
        × (s.lock_duration ≡ max_ℤ x.lock_duration y.lock_duration)
        × (s.created_at ≡ c.unix_timestamp)
        × (s.balance ≡ x.balance + y.balance)
  unfolding merge
  merge-lock c x y s t t' h =
      let ((x', y', t₁), e₁, h₁) = >>=-eq-ok (settle_both x y t) _ h in
      let (p, q) = settle_both-Settled x x' y y' t t₁ e₁ in
      let (version, lock, created, balance) =
        fold_in-lock c x' y' s (join-fold_in c x' y' s t₁ t' h₁) in
      (
        ap (λ n. n == 0) version ∙ p.migrated,
        lock ∙ rw (p.lock, q.lock) refl,
        created,
        omega (arith, balance, p.balance, q.balance),
      )

module _ {N A : Type 0} ⦃num : Numeric N⦄ (steel : Steel N A) where
  locked_stays :
      (a : Accounts steel) (c : Clock) (amount held : ℕ) (s : StakeV2 N) (t : Treasury N)
      → s.weight_version == 0 ≡ false
      → ltb_ℤ c.unix_timestamp (unlock_at s) ≡ true
      → withdraw_loaded steel a c amount held s t ≡ err (godl stake_locked)
  unfolding withdraw_loaded migrate_weight
  locked_stays a c amount held s t v l = rw (v, l) refl

  -- Once two positions are merged, neither part can be withdrawn before the longer of the two lock
  -- durations has passed since the merge: whatever the amount, the accounts and the treasury then, the
  -- withdrawal fails because the position is locked.
  pub merged_locked :
      (a : Accounts steel) (c later : Clock) (amount held : ℕ) (x y s : StakeV2 N)
      (t t' t'' : Treasury N)
      → merge c x y t ≡ ok (s, t')
      → ltb_ℤ later.unix_timestamp (
          saturating_add_i64 c.unix_timestamp
            (max_ℤ (max_ℤ x.lock_duration y.lock_duration) (pos 0)))
        ≡ true
      → withdraw_loaded steel a later amount held s t'' ≡ err (godl stake_locked)
  unfolding unlock_at
  merged_locked a c later amount held x y s t t' t'' h early =
      let (version, lock, created, _) = merge-lock c x y s t t' h in
      locked_stays a later amount held s t'' version (rw (lock, created) early)
