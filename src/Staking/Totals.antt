-- ===== src/Staking/Totals.antt =====
-- What the staking instructions do to the sum of all weights.
use godl_program.Base.{
  ℕ, ◌+◌, ◌-◌, ◌≡◌, refl, sym, List, [], ◌∷◌, ◌++◌, ok, arith, >>=-eq-ok, ok-injective,
  ok-injective_pair, ok-injective_triple, ◌≤◌, ok-functional, panic, godl, stake_not_empty,
  nft_already_staked, require, leb, ◌==◌, invalid_account_data, ◌*◌,
}
use mathlib.Core.Path.{subst}
use godl_program.Base.Int.{ℤ}
use godl_program.Numeric.{Numeric}
use godl_program.Treasury.{Clock, Treasury}
use godl_program.StakeV2.{StakeV2, weighted_units, applied_multiplier, update_rewards, withdraw}
use godl_program.StakeV2.Weight.{weighted_units_exact}
use godl_program.StakeV2.Frame.{Tracks, withdraw-Tracks, update_rewards-SameWeight}
use godl_program.Runtime.{Steel, Effect}
use godl_program.Staking.{Accounts, Staked, received}
use godl_program.Staking.Deposits.{new_stake, open_vault, put_in, fill_new_stake}
use godl_program.Staking.Withdrawals.{close_empty}
use godl_program.Staking.Merge.{MergeAccounts, Merged, merge, merge_loaded}
use godl_program.Staking.Upkeep.{reconcile}
use godl_program.Staking.Weights.{merge-MakesUp, put_in-Tracks}
use godl_program.Stake.{Stake}
use godl_program.Stake
use godl_program.Stake.Totals.{stake_withdraw_moves}
use godl_program.Staking.{open_recipient, spent}
use godl_program.Staking.First.{withdraw_first}
use godl_program.Staking.Upkeep.{process_close_phantom_stake_v2}

module _ {N : Type 0} where
  -- the balances of the positions of the first kind, which are their weights
  abbrev pub balances : List (Stake N) → ℕ
  balances [] = 0
  balances (f ∷ fs) = f.balance + balances fs

  -- the weights, and what else counts, add up to the number
  abbrev pub WeightsSum : ℕ → List (StakeV2 N) → ℕ → Type 0
  WeightsSum b [] n = n ≡ b
  WeightsSum b (s ∷ ss) n = (u m : ℕ) × (weighted_units s ≡ ok u) × WeightsSum b ss m × (n ≡ u + m)

  WeightsSum-le : (b : ℕ) (ss : List (StakeV2 N)) (n : ℕ) → WeightsSum b ss n → b ≤ n
  WeightsSum-le b [] n h = omega arith
  WeightsSum-le b (s ∷ ss) n (u, m, w, rest, e) =
      let below = WeightsSum-le b ss m rest in omega arith

  -- what else counts falls with the total
  pub WeightsSum-lower :
      (b b' d : ℕ) (ss : List (StakeV2 N)) (n n' : ℕ)
      → b' + d ≡ b
      → n' + d ≡ n
      → WeightsSum b ss n
      → WeightsSum b' ss n'
  WeightsSum-lower b b' d [] n n' p q h = omega arith
  WeightsSum-lower b b' d (s ∷ ss) n n' p q (u, m, w, rest, e) =
      let below = WeightsSum-le b ss m rest in
      (u, m - d, w, WeightsSum-lower b b' d ss m (m - d) p (omega arith) rest, omega arith)

module _ {N A : Type 0} ⦃num : Numeric N⦄ (steel : Steel N A) where
  -- a position in front that follows its weight keeps the sum
  pub Tracks-WeightsSum :
      (b : ℕ) (s s' : StakeV2 N) (ss : List (StakeV2 N)) (t t' : Treasury N)
      → Tracks s t s' t'
      → WeightsSum b (s ∷ ss) t.total_staked
      → WeightsSum b (s' ∷ ss) t'.total_staked
  Tracks-WeightsSum b s s' ss t t' k (u, m, w, rest, e) =
      let same : u ≡ k.before = ok-functional _ u k.before w k.before_units in
      (k.after, m, k.after_units, rest, omega (arith, k.total))

  pub WeightsSum-to_front :
      (b : ℕ) (xs ys : List (StakeV2 N)) (s : StakeV2 N) (n : ℕ)
      → WeightsSum b (xs ++ (s ∷ ys)) n
      → WeightsSum b (s ∷ (xs ++ ys)) n
  WeightsSum-to_front b [] ys s n h = h
  WeightsSum-to_front b (x ∷ xs) ys s n (u, m, w, rest, e) =
      let (v, k, wv, inner, e') = WeightsSum-to_front b xs ys s m rest in
      (v, u + k, wv, (u, k, w, inner, refl), omega arith)

  pub empty_units : (s : StakeV2 N) (u : ℕ) → s.balance ≡ 0 → weighted_units s ≡ ok u → u ≡ 0
  empty_units s u z h =
      let (e, _) = weighted_units_exact s u h in
      let nothing : s.balance * applied_multiplier s ≡ 0 = rw z (omega arith) in ground arith

  pub fill-WeightsSum :
      (b : ℕ) (a : Accounts steel) (c : Clock) (id amount available : ℕ) (lock : ℤ)
      (ss : List (StakeV2 N)) (t : Treasury N) (r : Staked steel)
      → fill_new_stake steel a c id amount lock available t ≡ ok r
      → WeightsSum b ss t.total_staked
      → WeightsSum b (r.stake_after ∷ ss) r.treasury_after.total_staked
  unfolding fill_new_stake
  fill-WeightsSum b a c id amount available lock ss t r h sum =
      let s₀ = new_stake steel a c id lock t in
      let (s, e₁, h₁) = >>=-eq-ok (update_rewards s₀ t) _ h in
      let ((held, opened), e₂, h₂) = >>=-eq-ok (open_vault steel a) _ h₁ in
      let ((s', t', vault), e₃, h₃) = >>=-eq-ok (put_in steel a c amount available held s t) _ h₂ in
      let (x, e₄, h₄) = >>=-eq-ok (require (leb s'.balance vault) panic) _ h₃ in
      let k = put_in-Tracks steel a c amount available held vault s s' t t' e₃ in
      let (kept, _, _, _) = update_rewards-SameWeight s₀ s t e₁ in
      let empty : k.before ≡ 0 = empty_units s k.before (sym kept) k.before_units in
      subst (λ z. WeightsSum b (z.stake_after ∷ ss) z.treasury_after.total_staked)
        (ok-injective _ _ h₄) (k.after, t.total_staked, k.after_units, sum, omega (arith, k.total))

  pub merge-WeightsSum :
      (b : ℕ) (a : MergeAccounts steel) (c : Clock) (x y : StakeV2 N) (held held' : ℕ)
      (ss : List (StakeV2 N)) (t : Treasury N) (r : Merged steel)
      → merge_loaded steel a c x y held held' t ≡ ok r
      → WeightsSum b (x ∷ y ∷ ss) t.total_staked
      → WeightsSum b (r.target_after ∷ ss) r.treasury_after.total_staked
  unfolding merge_loaded
  merge-WeightsSum b a c x y held held' ss t r h (u, m, wu, (v, k, wv, rest, e'), e) =
      let (_, _, h₁) = >>=-eq-ok (require (x.is_nft_staked == 0) (godl nft_already_staked)) _ h in
      let (_, _, h₂) = >>=-eq-ok (require (y.is_nft_staked == 0) (godl nft_already_staked)) _ h₁ in
      let (_, _, h₃) = >>=-eq-ok (require (leb x.balance held) invalid_account_data) _ h₂ in
      let (_, _, h₄) = >>=-eq-ok (require (leb y.balance held') invalid_account_data) _ h₃ in
      let ((s, t'), e₅, h₅) = >>=-eq-ok (merge c x y t) _ h₄ in
      let (vault, _, h₆) = >>=-eq-ok (received held held') _ h₅ in
      let (_, _, h₇) = >>=-eq-ok (require (leb s.balance vault) invalid_account_data) _ h₆ in
      let (w, we, total) = merge-MakesUp c x y s t t' u v wu wv e₅ in
      subst (λ z. WeightsSum b (z.target_after ∷ ss) z.treasury_after.total_staked)
        (ok-injective _ _ h₇) (w, k, we, rest, omega arith)

  pub close-WeightsSum :
      (b : ℕ) (a : Accounts steel) (c : Clock) (s : StakeV2 N) (ss : List (StakeV2 N))
      (t : Treasury N) (r : StakeV2 N × List (Effect A))
      → close_empty steel a c s t ≡ ok r
      → WeightsSum b (s ∷ ss) t.total_staked
      → WeightsSum b ss t.total_staked
  unfolding close_empty
  close-WeightsSum b a c s ss t r h (u, m, w, rest, e) =
      let (_, e₁, h₁) = >>=-eq-ok (require (s.balance == 0) (godl stake_not_empty)) _ h in
      let empty : s.balance ≡ 0 = ground arith in
      let nothing = empty_units s u empty w in subst (WeightsSum b ss) (omega arith) rest

  pub reconcile-Tracks :
      (c : Clock) (held : ℕ) (s s' : StakeV2 N) (t t' : Treasury N)
      → reconcile steel c held s t ≡ ok (s', t')
      → Tracks s t s' t'
  unfolding reconcile
  reconcile-Tracks c held s s' t t' h =
      let ((n, s₁, t₁), e₁, h₁) = >>=-eq-ok (withdraw s (s.balance - held) c t) _ h in
      let (p, q) = ok-injective_pair s₁ s' t₁ t' h₁ in
      rw (← p, ← q) (withdraw-Tracks s s₁ t t₁ (s.balance - held) n c e₁)

  pub phantom-keeps :
      (a : Accounts steel) (s : StakeV2 N) (t t' : Treasury N) (es : List (Effect A))
      → steel.as_stake_v2 a.stake_info ≡ ok s
      → steel.as_treasury a.treasury_info ≡ ok t
      → process_close_phantom_stake_v2 steel a ≡ ok (t', es)
      → (s.balance ≡ 0) × (t'.total_staked ≡ t.total_staked)
  unfolding process_close_phantom_stake_v2
  phantom-keeps a s t t' es loaded current h = (ground arith, ground arith)

  pub withdraw_first-moves :
      (a : Accounts steel) (c : Clock) (amount held : ℕ) (f f' : Stake N) (t t' : Treasury N)
      (es : List (Effect A))
      → withdraw_first steel a c amount held f t ≡ ok (f', t', es)
      → (n : ℕ) × (f'.balance + n ≡ f.balance) × (t'.total_staked + n ≡ t.total_staked)
  unfolding withdraw_first
  withdraw_first-moves a c amount held f f' t t' es h =
      let (opened, _, h₁) = >>=-eq-ok (open_recipient steel a) _ h in
      let ((n, f₁, t₁), e₂, h₂) = >>=-eq-ok (Stake.withdraw f amount c t) _ h₁ in
      let (vault, _, h₃) = >>=-eq-ok (spent held n) _ h₂ in
      let (_, _, h₄) = >>=-eq-ok (require (leb f₁.balance vault) panic) _ h₃ in
      let (p, q, _) = ok-injective_triple f₁ f' t₁ t' _ es h₄ in
      let (_, balance, total) = stake_withdraw_moves f f₁ amount n c t t₁ e₂ in
      (n, rw (← p) balance, rw (← q) total)
