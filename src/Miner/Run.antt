-- ===== src/Miner/Run.antt =====
-- Sequences of claims and credited rounds over all miners.
use godl_program.Base.{
  ℕ, ◌+◌, ◌-◌, ◌≤◌, ◌<◌, ◌≡◌, List, [], ◌∷◌, Result, ok, err, arith, Result-cases, Option-cases,
  inl, inr, some, ◌>>=◌, invalid_account_data, ok_or, get_elem?, set, All-get_elem?, sum_by-ge,
  u64_mod, err-ne-ok, >>=-eq-ok, ok-injective_pair, lt→ltb, le→leb,
}
use godl_program.Numeric.{Numeric, IsFixedPoint}
use godl_program.Treasury.{Clock, Treasury}
use godl_program.Miner.{Miner, update_rewards, charge_fee, claim_godl, credit_round}
use godl_program.Miner.Solvency.{
  IsSolvent, Moves-IsSolvent, claim_godl-Moves, credit_round-Moves, unclaimed, worth, settle_worth,
  update_rewards_exact,
}

pub data Event : Type 0 where
  claims : ℕ → Clock → Event
  credits : ℕ → (id godl sol : ℕ) → Event

module _ {N : Type 0} ⦃num : Numeric N⦄ where
  pub step : Event → List (Miner N) → Treasury N → Result (List (Miner N) × Treasury N)
  step (claims i c) ms t = do
    m ← ok_or (get_elem? ms i) invalid_account_data
    (_, m', t') ← claim_godl m c t
    ok (set ms i m', t')
  step (credits i id godl sol) ms t = do
    m ← ok_or (get_elem? ms i) invalid_account_data
    (m', t') ← credit_round m id godl sol t
    ok (set ms i m', t')

  -- a failed instruction is rolled back
  abbrev settled :
      List (Miner N) × Treasury N
      → Result (List (Miner N) × Treasury N)
      → List (Miner N) × Treasury N
  settled b (ok b') = b'
  settled b (err _) = b

  pub run : List Event → List (Miner N) × Treasury N → List (Miner N) × Treasury N
  run [] b = b
  run (e ∷ es) (ms, t) = run es (settled (ms, t) (step e ms t))

module _ {N : Type 0} ⦃num : Numeric N⦄ (laws : IsFixedPoint N num) where
  open laws use {raw}

  step-IsSolvent :
      (e : Event) (ms ms' : List (Miner N)) (t t' : Treasury N)
      → IsSolvent laws ms t
      → step e ms t ≡ ok (ms', t')
      → IsSolvent laws ms' t'
  unfolding step
  step-IsSolvent (claims i c) ms ms' t t' s h = elim (Option-cases (get_elem? ms i)) [
    | inl missing ↦ absurd (err-ne-ok _ _ (rw missing at h))
    | inr (m, at) ↦
        let found = rw at at h in
        let ((n, m', t₁), e, h₁) = >>=-eq-ok (claim_godl m c t) _ found in
        let (p, q) = ok-injective_pair (set ms i m') ms' t₁ t' h₁ in
        let behind =
          All-get_elem? (λ m. raw m.rewards_factor ≤ raw t.miner_rewards_factor) ms i m s.no_ahead
            at in
        rw (← p, ← q)
          (Moves-IsSolvent laws ms i m m' t t₁ at s (claim_godl-Moves laws m m' c t t₁ n e behind))
  ]
  step-IsSolvent (credits i id godl sol) ms ms' t t' s h = elim (Option-cases (get_elem? ms i)) [
    | inl missing ↦ absurd (err-ne-ok _ _ (rw missing at h))
    | inr (m, at) ↦
        let found = rw at at h in
        let ((m', t₁), e, h₁) = >>=-eq-ok (credit_round m id godl sol t) _ found in
        let (p, q) = ok-injective_pair (set ms i m') ms' t₁ t' h₁ in
        let behind =
          All-get_elem? (λ m. raw m.rewards_factor ≤ raw t.miner_rewards_factor) ms i m s.no_ahead
            at in
        rw (← p, ← q)
          (Moves-IsSolvent laws ms i m m' t t₁ at s
            (credit_round-Moves laws m m' id godl sol t t₁ e behind))
  ]

  settled-IsSolvent :
      (e : Event) (ms : List (Miner N)) (t : Treasury N)
      → IsSolvent laws ms t
      → let (ms', t') = settled (ms, t) (step e ms t) in IsSolvent laws ms' t'
  settled-IsSolvent e ms t s = elim (Result-cases (step e ms t)) [
    | inl ((ms', t'), h) ↦ rw h (step-IsSolvent e ms ms' t t' s h)
    | inr (x, h) ↦ rw h s
  ]

  -- Let no miner be ahead of the treasury's factor, `total_unclaimed` be the sum of the miners'
  -- unclaimed GODL, and `total_refined` cover what they can claim of the refined GODL, the part that
  -- is not settled yet included. All this holds again after any sequence of claims and of rounds
  -- credited to miners, whether each of them succeeds or fails.
  pub run-IsSolvent :
      (es : List Event) (ms : List (Miner N)) (t : Treasury N)
      → IsSolvent laws ms t
      → let (ms', t') = run es (ms, t) in IsSolvent laws ms' t'
  unfolding run
  run-IsSolvent [] ms t s = s
  run-IsSolvent (e ∷ es) ms t s =
      let (ms', t') = settled (ms, t) (step e ms t) in
      run-IsSolvent es ms' t' (settled-IsSolvent e ms t s)

  -- In such a state the treasury can always pay: for any miner whose settlement returns, and whose
  -- amount fits a u64, a claim passes both of its subtractions from the treasury's totals, and what
  -- remains is to charge the fee.
  pub claim_godl_covered :
      (ms : List (Miner N)) (t : Treasury N) (i : ℕ) (m m₁ : Miner N) (c : Clock)
      → IsSolvent laws ms t
      → get_elem? ms i ≡ some m
      → update_rewards m t ≡ ok m₁
      → m₁.refined_godl + m₁.rewards_godl < u64_mod
      → claim_godl m c t
        ≡ charge_fee
            (m₁.refined_godl + m₁.rewards_godl)
            m₁.rewards_godl
            (record m₁ {
              refined_godl = 0;
              rewards_godl = 0;
              last_claim_godl_at = c.unix_timestamp;
            })
            (record t {
              total_unclaimed = t.total_unclaimed - m₁.rewards_godl;
              total_refined = t.total_refined - m₁.refined_godl;
            })
  unfolding claim_godl
  claim_godl_covered ms t i m m₁ c s at e fits =
      let now = raw t.miner_rewards_factor in
      let behind = All-get_elem? (λ m. raw m.rewards_factor ≤ now) ms i m s.no_ahead at in
      let refined : m₁.refined_godl ≤ t.total_refined = omega (
        arith,
        settle_worth laws m m₁ t e behind,
        sum_by-ge (worth laws now) ms i m at,
        s.covered,
      ) in
      let rewards : m₁.rewards_godl ≤ t.total_unclaimed = omega (
        arith,
        (update_rewards_exact laws m m₁ t e).1,
        sum_by-ge (unclaimed laws) ms i m at,
        s.total,
      ) in
      rw (e, lt→ltb _ _ fits, le→leb _ _ rewards, le→leb _ _ refined)
