-- ===== src/Staking/Weights.antt =====
-- The staking instructions and `total_staked`: how it follows the positions' weights.
use godl_program.Base.{
  ℕ, ◌+◌, ◌-◌, ◌≡◌, refl, List, ok, arith, >>=-eq-ok, ok-injective, ok-injective_pair,
  ok-injective_triple, ok-functional, checked_add, godl, stake_overflow, amount_too_small,
  stake_locked, invalid_account_data, panic, require, reject, leb, ◌==◌, ◌-◌, ◌/◌, u64_max,
}
use godl_program.Base.Int.{ltb_ℤ}
use godl_program.Numeric.{Numeric}
use godl_program.Treasury.{Clock, Treasury}
use godl_program.StakeV2.{
  StakeV2, weighted_units, update_rewards, claim, deposit, withdraw, migrate_weight, raise_total,
}
use godl_program.StakeV2.Weight.{SameWeight, weighted_units_congr}
use godl_program.StakeV2.Frame.{
  Tracks, Tracks-subst, raise_total-eq-ok, update_rewards-SameWeight, deposit-Tracks,
  withdraw-Tracks, migrate_weight-Tracks, claim-SameWeight,
}
use godl_program.Runtime.{Steel, Effect}
use godl_program.Staking.{Accounts, Staked, received, spent, open_recipient}
use godl_program.Staking.Deposits.{put_in, top_up, compound}
use godl_program.Staking.Withdrawals.{take_out, withdraw_loaded, unlock_at}
use godl_program.Staking.Merge.{fold_in, settle_both, join, merge}

module _ {N : Type 0} ⦃num : Numeric N⦄ where
  pub Tracks-trans :
      (s s₁ s₂ : StakeV2 N) (t t₁ t₂ : Treasury N)
      → Tracks s t s₁ t₁
      → Tracks s₁ t₁ s₂ t₂
      → Tracks s t s₂ t₂
  Tracks-trans s s₁ s₂ t t₁ t₂ p q =
      let same : p.after ≡ q.before =
        ok-functional _ p.after q.before p.after_units q.before_units in
      record {
        before = p.before;
        after = q.after;
        before_units = p.before_units;
        after_units = q.after_units;
        total = omega (arith, p.total, q.total);
      }

  -- a change that the weight does not depend on
  pub Tracks-SameWeight :
      (s s' : StakeV2 N) (t : Treasury N) (u : ℕ)
      → weighted_units s ≡ ok u
      → SameWeight s s'
      → Tracks s t s' t
  Tracks-SameWeight s s' t u w same = record {
    before = u;
    after = u;
    before_units = w;
    after_units = rw (← weighted_units_congr s s' same) w;
    total = refl;
  }

  settle-Tracks :
      (s s₁ s₂ : StakeV2 N) (t t₁ t₂ : Treasury N)
      → Tracks s t s₁ t₁
      → update_rewards s₁ t₂ ≡ ok s₂
      → Tracks s t s₂ t₁
  settle-Tracks s s₁ s₂ t t₁ t₂ p e =
      Tracks-trans s s₁ s₂ t t₁ t₁ p
        (Tracks-SameWeight s₁ s₂ t₁ p.after p.after_units (update_rewards-SameWeight s₁ s₂ t₂ e))

  settle_both-Tracks :
      (x x' y y' : StakeV2 N) (t t' : Treasury N) (u v : ℕ)
      → weighted_units x ≡ ok u
      → weighted_units y ≡ ok v
      → settle_both x y t ≡ ok (x', y', t')
      → (t₁ : Treasury N) × Tracks x t x' t₁ × Tracks y t₁ y' t'
  unfolding settle_both
  settle_both-Tracks x x' y y' t t' u v wu wv h =
      let ((x₁, t₁), e₁, h₁) = >>=-eq-ok (migrate_weight x t) _ h in
      let ((y₁, t₂), e₂, h₂) = >>=-eq-ok (migrate_weight y t₁) _ h₁ in
      let (x₂, e₃, h₃) = >>=-eq-ok (update_rewards x₁ t₂) _ h₂ in
      let (y₂, e₄, h₄) = >>=-eq-ok (update_rewards y₁ t₂) _ h₃ in
      let (p, q, r) = ok-injective_triple x₂ x' y₂ y' t₂ t' h₄ in
      let mx = migrate_weight-Tracks x x₁ t t₁ u wu e₁ in
      let my = migrate_weight-Tracks y y₁ t₁ t₂ v wv e₂ in
      (
        t₁,
        Tracks-subst x x₂ x' t t₁ t₁ p refl (settle-Tracks x x₁ x₂ t t₁ t₂ mx e₃),
        Tracks-subst y y₂ y' t₁ t₂ t' q r (settle-Tracks y y₁ y₂ t₁ t₂ t₂ my e₄),
      )

  -- a weight that makes up for those of `before` in a total of `total`
  abbrev pub MakesUp : ℕ → ℕ → StakeV2 N → Treasury N → Type 0
  MakesUp before total s t =
      (w : ℕ) × (weighted_units s ≡ ok w) × (t.total_staked + before ≡ total + w)

  MakesUp-subst :
      (before total : ℕ) (s s' : StakeV2 N) (t t' : Treasury N)
      → s ≡ s'
      → t ≡ t'
      → MakesUp before total s t
      → MakesUp before total s' t'
  MakesUp-subst before total s s' t t' p q m = rw (← p, ← q) m

  join-MakesUp :
      (c : Clock) (x y merged : StakeV2 N) (t t' : Treasury N) (a b : ℕ)
      → weighted_units x ≡ ok a
      → weighted_units y ≡ ok b
      → join c x y t ≡ ok (merged, t')
      → MakesUp (a + b) t.total_staked merged t'
  unfolding join
  join-MakesUp c x y merged t t' a b wa wb h =
      let (a', e₁, h₁) = >>=-eq-ok (weighted_units x) _ h in
      let (b', e₂, h₂) = >>=-eq-ok (weighted_units y) _ h₁ in
      let (p, e₃, h₃) = >>=-eq-ok (checked_add a' b' (godl stake_overflow)) _ h₂ in
      let (m, e₄, h₄) = >>=-eq-ok (fold_in c x y) _ h₃ in
      let (w, e₅, h₅) = >>=-eq-ok (weighted_units m) _ h₄ in
      let (t₁, e₆, h₆) = >>=-eq-ok (raise_total p w t) _ h₅ in
      let (same, same_t) = ok-injective_pair m merged t₁ t' h₆ in
      let sum : p ≡ a' + b' = ground arith in
      let xa = ok-functional _ a a' wa e₁ in
      let yb = ok-functional _ b b' wb e₂ in
      let (total, _) = raise_total-eq-ok p w t t₁ e₆ in
      MakesUp-subst (a + b) t.total_staked m merged t₁ t' same same_t
        (w, e₅, omega (arith, total, sum, xa, yb))

  -- Merging replaces two weights by that of the merged position.
  pub merge-MakesUp :
      (c : Clock) (x y merged : StakeV2 N) (t t' : Treasury N) (u v : ℕ)
      → weighted_units x ≡ ok u
      → weighted_units y ≡ ok v
      → merge c x y t ≡ ok (merged, t')
      → MakesUp (u + v) t.total_staked merged t'
  unfolding merge
  merge-MakesUp c x y merged t t' u v wu wv h =
      let ((x', y', t₂), e₁, h₁) = >>=-eq-ok (settle_both x y t) _ h in
      let (t₁, p, q) = settle_both-Tracks x x' y y' t t₂ u v wu wv e₁ in
      let (w, e, total) =
        join-MakesUp c x' y' merged t₂ t' p.after q.after p.after_units q.after_units h₁ in
      let xu = ok-functional _ u p.before wu p.before_units in
      let yv = ok-functional _ v q.before wv q.before_units in
      (w, e, omega (arith, total, p.total, q.total, xu, yv))

module _ {N A : Type 0} ⦃num : Numeric N⦄ (steel : Steel N A) where
  pub put_in-Tracks :
      (a : Accounts steel) (c : Clock) (amount available held vault : ℕ) (s s' : StakeV2 N)
      (t t' : Treasury N)
      → put_in steel a c amount available held s t ≡ ok (s', t', vault)
      → Tracks s t s' t'
  unfolding put_in
  put_in-Tracks a c amount available held vault s s' t t' h =
      let ((n, s₁, t₁), e₁, h₁) = >>=-eq-ok (deposit s amount c t available) _ h in
      let (u, e₂, h₂) = >>=-eq-ok (require (n == amount) (godl amount_too_small)) _ h₁ in
      let (w, e₃, h₃) = >>=-eq-ok (received held n) _ h₂ in
      let (p, q, _) = ok-injective_triple s₁ s' t₁ t' w vault h₃ in
      Tracks-subst s s₁ s' t t₁ t' p q (deposit-Tracks s s₁ t t₁ amount n available c e₁)

  -- the weight is followed by what an instruction writes
  abbrev pub Follows : StakeV2 N → Treasury N → Staked steel → Type 0
  Follows s t r = Tracks s t r.stake_after r.treasury_after

  Follows-subst :
      (s s' : StakeV2 N) (t t' : Treasury N) (r : Staked steel) (vault : ℕ) (es : List (Effect A))
      → record { stake_after = s'; treasury_after = t'; vault = vault; effects = es } ≡ r
      → Tracks s t s' t'
      → Follows s t r
  Follows-subst s s' t t' r vault es p q = rw (← p) q

  pub top_up-Follows :
      (a : Accounts steel) (c : Clock) (amount available u : ℕ) (s : StakeV2 N) (t : Treasury N)
      (r : Staked steel)
      → weighted_units s ≡ ok u
      → top_up steel a c amount available s t ≡ ok r
      → Follows s t r
  unfolding top_up
  top_up-Follows a c amount available u s t r w h =
      let ((s₁, t₁), e₁, h₁) = >>=-eq-ok (migrate_weight s t) _ h in
      let (held, e₂, h₂) =
        >>=-eq-ok (steel.as_tokens a.stake_tokens_info (steel.key a.stake_info)) _ h₁ in
      let ((s₂, t₂, vault), e₃, h₃) =
        >>=-eq-ok (put_in steel a c amount available held s₁ t₁) _ h₂ in
      let (x, e₄, h₄) = >>=-eq-ok (require (leb s₂.balance vault) invalid_account_data) _ h₃ in
      let m = migrate_weight-Tracks s s₁ t t₁ u w e₁ in
      let d = put_in-Tracks a c amount available held vault s₁ s₂ t₁ t₂ e₃ in
      let all = Tracks-trans s s₁ s₂ t t₁ t₂ m d in
      let locked = record s₂ { created_at = c.unix_timestamp } in
      Follows-subst s locked t t₂ r vault _ (ok-injective _ _ h₄) (
        Tracks-trans s s₂ locked t t₂ t₂ all
          (Tracks-SameWeight s₂ locked t₂ all.after all.after_units (refl, refl, refl, refl)))

  pub compound-Follows :
      (a : Accounts steel) (c : Clock) (held u : ℕ) (s : StakeV2 N) (t : Treasury N)
      (r : Staked steel)
      → weighted_units s ≡ ok u
      → compound steel a c held s t ≡ ok r
      → Follows s t r
  unfolding compound
  compound-Follows a c held u s t r w h =
      let ((s₁, t₁), e₁, h₁) = >>=-eq-ok (migrate_weight s t) _ h in
      let ((n, s₂), e₂, h₂) = >>=-eq-ok (claim s₁ u64_max c t₁) _ h₁ in
      let (x, e₃, h₃) = >>=-eq-ok (reject (n == 0) (godl amount_too_small)) _ h₂ in
      let (vault, e₄, h₄) = >>=-eq-ok (received held (n - n / 100)) _ h₃ in
      let ((y, s₃, t₃), e₅, h₅) = >>=-eq-ok (deposit s₂ (n - n / 100) c t₁ vault) _ h₄ in
      let (z, e₆, h₆) = >>=-eq-ok (require (leb s₃.balance vault) invalid_account_data) _ h₅ in
      let m = migrate_weight-Tracks s s₁ t t₁ u w e₁ in
      let k =
        Tracks-SameWeight s₁ s₂ t₁ m.after m.after_units
          (claim-SameWeight s₁ s₂ t₁ u64_max n c e₂) in
      let d = deposit-Tracks s₂ s₃ t₁ t₃ (n - n / 100) y vault c e₅ in
      Follows-subst s s₃ t t₃ r vault _ (ok-injective _ _ h₆)
        (Tracks-trans s s₁ s₃ t t₁ t₃ m (Tracks-trans s₁ s₂ s₃ t₁ t₁ t₃ k d))

  take_out-Follows :
      (a : Accounts steel) (c : Clock) (amount held : ℕ) (s : StakeV2 N) (t : Treasury N)
      (r : Staked steel)
      → take_out steel a c amount held s t ≡ ok r
      → Follows s t r
  unfolding take_out
  take_out-Follows a c amount held s t r h =
      let (opened, e₁, h₁) = >>=-eq-ok (open_recipient steel a) _ h in
      let ((n, s₁, t₁), e₂, h₂) = >>=-eq-ok (withdraw s amount c t) _ h₁ in
      let (vault, e₃, h₃) = >>=-eq-ok (spent held n) _ h₂ in
      let (x, e₄, h₄) = >>=-eq-ok (require (leb s₁.balance vault) panic) _ h₃ in
      Follows-subst s s₁ t t₁ r vault _ (ok-injective _ _ h₄)
        (withdraw-Tracks s s₁ t t₁ amount n c e₂)

  pub withdraw_loaded-Follows :
      (a : Accounts steel) (c : Clock) (amount held u : ℕ) (s : StakeV2 N) (t : Treasury N)
      (r : Staked steel)
      → weighted_units s ≡ ok u
      → withdraw_loaded steel a c amount held s t ≡ ok r
      → Follows s t r
  unfolding withdraw_loaded
  withdraw_loaded-Follows a c amount held u s t r w h =
      let ((s₁, t₁), e₁, h₁) = >>=-eq-ok (migrate_weight s t) _ h in
      let (x, e₂, h₂) =
        >>=-eq-ok (reject (ltb_ℤ c.unix_timestamp (unlock_at s₁)) (godl stake_locked)) _ h₁ in
      let (y, e₃, h₃) = >>=-eq-ok (reject (amount == 0) (godl amount_too_small)) _ h₂ in
      Tracks-trans s s₁ r.stake_after t t₁ r.treasury_after (migrate_weight-Tracks s s₁ t t₁ u w e₁)
        (take_out-Follows a c amount held s₁ t₁ r h₃)
