-- ===== src/StakeV2/Ledger.antt =====
-- A sequence of stake operations on the positions of a pool, and the sum that `total_staked` keeps.
-- `perform` calls the method of one position; a failed call is rolled back with its transaction.
use godl_program.Base.{
  ℕ, zero, suc, ◌+◌, ◌≡◌, refl, List, [], ◌∷◌, Result, ok, err, arith, Result-cases, inl, inr,
  >>=-eq-ok, ok-injective_pair, ok-functional, invalid_account_data, ◌>>=◌,
}
use mathlib.Core.Path.{subst}
use godl_program.Numeric.{Numeric}
use godl_program.Treasury.{Clock, Treasury}
use godl_program.StakeV2.{
  StakeV2, weighted_units, claim, deposit, withdraw, stake_nft, unstake_nft, migrate_weight,
}
use godl_program.StakeV2.Weight.{weighted_units_congr}
use godl_program.StakeV2.Frame.{
  Tracks, Tracks-subst, deposit-Tracks, withdraw-Tracks, stake_nft-Tracks, unstake_nft-Tracks,
  migrate_weight-Tracks, claim-SameWeight,
}

pub data Op : Type 0 where
  claims : ℕ → Clock → Op
  deposits : ℕ → Clock → ℕ → Op
  withdraws : ℕ → Clock → Op
  stakes_nft unstakes_nft migrates : Op

module _ {N : Type 0} where
  -- the positions have weights, and these add up to the number
  abbrev pub UnitsSum : List (StakeV2 N) → ℕ → Type 0
  UnitsSum [] n = n ≡ 0
  UnitsSum (s ∷ ss) n = (u m : ℕ) × (weighted_units s ≡ ok u) × UnitsSum ss m × (n ≡ u + m)

abbrev pub Book : Type 0 → Type 0
Book N = List (StakeV2 N) × Treasury N

abbrev pub IsBalanced : {N : Type 0} → Book N → Type 0
IsBalanced (ss, t) = UnitsSum ss t.total_staked

module _ {N : Type 0} ⦃num : Numeric N⦄ where
  pub perform : Op → StakeV2 N → Treasury N → Result (StakeV2 N × Treasury N)
  perform (claims a c) s t = do (_, s') ← claim s a c t; ok (s', t)
  perform (deposits a c available) s t = do (_, s', t') ← deposit s a c t available; ok (s', t')
  perform (withdraws a c) s t = do (_, s', t') ← withdraw s a c t; ok (s', t')
  perform stakes_nft s t = stake_nft s t
  perform unstakes_nft s t = unstake_nft s t
  perform migrates s t = migrate_weight s t

  -- at the position with this index
  pub perform_at : Op → ℕ → List (StakeV2 N) → Treasury N → Result (Book N)
  perform_at op i [] t = err invalid_account_data
  perform_at op zero (s ∷ ss) t = do (s', t') ← perform op s t; ok (s' ∷ ss, t')
  perform_at op (suc i) (s ∷ ss) t = do (ss', t') ← perform_at op i ss t; ok (s ∷ ss', t')

  -- a failed operation leaves the book
  abbrev settled : Book N → Result (Book N) → Book N
  settled b (ok b') = b'
  settled b (err _) = b

  pub run : List (Op × ℕ) → Book N → Book N
  run [] b = b
  run ((op, i) ∷ ops) b = run ops (settled b (perform_at op i b.0 b.1))

  perform-Tracks :
      (op : Op) (s s' : StakeV2 N) (t t' : Treasury N) (u : ℕ)
      → weighted_units s ≡ ok u
      → perform op s t ≡ ok (s', t')
      → Tracks s t s' t'
  unfolding perform
  perform-Tracks (claims a c) s s' t t' u w h =
      let ((n, s₁), e, h₁) = >>=-eq-ok (claim s a c t) _ h in
      let (p, q) = ok-injective_pair s₁ s' t t' h₁ in
      Tracks-subst s s₁ s' t t t' p q (record {
        before = u;
        after = u;
        before_units = w;
        after_units = rw (← weighted_units_congr s s₁ (claim-SameWeight s s₁ t a n c e)) w;
        total = refl;
      })
  perform-Tracks (deposits a c available) s s' t t' u w h =
      let ((n, s₁, t₁), e, h₁) = >>=-eq-ok (deposit s a c t available) _ h in
      let (p, q) = ok-injective_pair s₁ s' t₁ t' h₁ in
      Tracks-subst s s₁ s' t t₁ t' p q (deposit-Tracks s s₁ t t₁ a n available c e)
  perform-Tracks (withdraws a c) s s' t t' u w h =
      let ((n, s₁, t₁), e, h₁) = >>=-eq-ok (withdraw s a c t) _ h in
      let (p, q) = ok-injective_pair s₁ s' t₁ t' h₁ in
      Tracks-subst s s₁ s' t t₁ t' p q (withdraw-Tracks s s₁ t t₁ a n c e)
  perform-Tracks stakes_nft s s' t t' u w h = stake_nft-Tracks s s' t t' h
  perform-Tracks unstakes_nft s s' t t' u w h = unstake_nft-Tracks s s' t t' h
  perform-Tracks migrates s s' t t' u w h = migrate_weight-Tracks s s' t t' u w h

  perform_at-UnitsSum :
      (op : Op) (i : ℕ) (ss ss' : List (StakeV2 N)) (t t' : Treasury N) (n : ℕ)
      → UnitsSum ss n
      → perform_at op i ss t ≡ ok (ss', t')
      → (n' : ℕ) × UnitsSum ss' n' × (t'.total_staked + n ≡ t.total_staked + n')
  unfolding perform_at
  perform_at-UnitsSum op i [] ss' t t' n b h = cc
  perform_at-UnitsSum op zero (s ∷ ss) ss' t t' n (u, m, w, rest, e) h =
      let ((s₁, t₁), e₁, h₁) = >>=-eq-ok (perform op s t) _ h in
      let (p, q) = ok-injective_pair (s₁ ∷ ss) ss' t₁ t' h₁ in
      let moved = perform-Tracks op s s₁ t t₁ u w e₁ in
      let same : u ≡ moved.before = ok-functional _ u moved.before w moved.before_units in
      rw (← p, ← q)
        (
          moved.after + m,
          (moved.after, m, moved.after_units, rest, refl),
          omega (arith, moved.total),
        )
  perform_at-UnitsSum op (suc i) (s ∷ ss) ss' t t' n (u, m, w, rest, e) h =
      let ((ss₁, t₁), e₁, h₁) = >>=-eq-ok (perform_at op i ss t) _ h in
      let (p, q) = ok-injective_pair (s ∷ ss₁) ss' t₁ t' h₁ in
      let (m', rest', moved) = perform_at-UnitsSum op i ss ss₁ t t₁ m rest e₁ in
      rw (← p, ← q) (u + m', (u, m', w, rest', refl), omega arith)

  step-IsBalanced :
      (op : Op) (i : ℕ) (b : Book N)
      → IsBalanced b
      → IsBalanced (settled b (perform_at op i b.0 b.1))
  step-IsBalanced op i (ss, t) h = elim (Result-cases (perform_at op i ss t)) [
    | inl ((ss', t'), e) ↦
        let (n', sum', moved) = perform_at-UnitsSum op i ss ss' t t' t.total_staked h e in
        let same : n' ≡ t'.total_staked = omega arith in rw e (subst (UnitsSum ss') same sum')
    | inr (x, e) ↦ rw e h
  ]

  -- If every position has a weight and `total_staked` is the sum of the weights, then this holds
  -- again after any sequence of claims, deposits, withdrawals, NFT stakes and unstakes, and weight
  -- migrations on any of the positions, whether each of them succeeds or fails.
  pub run-IsBalanced : (ops : List (Op × ℕ)) (b : Book N) → IsBalanced b → IsBalanced (run ops b)
  unfolding run
  run-IsBalanced [] b h = h
  run-IsBalanced ((op, i) ∷ ops) b h = run-IsBalanced ops _ (step-IsBalanced op i b h)
