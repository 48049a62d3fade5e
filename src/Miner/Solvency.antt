-- ===== src/Miner/Solvency.antt =====
-- `treasury.total_refined` against what the miners can claim from the fees. The claims count the
-- growth of the factor that is not settled yet, in units of the fixed point.
use native.Mathlib.Nat.{le_refl, div-mul-le_self}
use godl_program.Base.{
  ℕ, ◌+◌, ◌-◌, ◌*◌, ◌/◌, ◌≤◌, ◌≡◌, List, [], ◌∷◌, ok, arith, Bool-cases, inl, inr, >>=-eq-ok,
  reject, panic, ap, ◌∙◌, some, get_elem?, set, All, sum_by, sum_by-set, sum_by-ge, All-get_elem?,
  All-set,
}
use godl_program.Numeric.{Numeric, IsFixedPoint, one}
use godl_program.Numeric.Laws.{grown, earned_exact, grown_zero, grown-le}
use godl_program.Treasury.{Clock, Treasury}
use godl_program.Miner.{Miner, accrue, update_rewards, claim_godl, credit_round, credit_settled}
use godl_program.Miner.Claims.{claim_godl-Claimed, fee_of, Charged}

-- The arithmetic of one step: `s` and `s'` are the sums of the claims, `w` and `w'` one miner's.
cover :
    (s s' w w' grown_w g u r k total total' : ℕ)
    → s' + grown_w ≡ s + g * u + w'
    → grown_w ≡ w + g * r
    → u ≡ k + r
    → w' + g * k + total ≤ w + total'
    → s ≤ total
    → s' ≤ total'
cover s s' w w' grown_w g u r k total total' a b c d e = omega (arith, ap (λ (x : ℕ). g * x) c)

-- The budget of a step after which the miner is worth `w'`, with the growth `g` on the others'
-- unclaimed GODL, a fee, and `p` the refined GODL of the settled miner that is gone.
budget_of :
    (g k d fee p w w' total total' : ℕ)
    → k ≡ d
    → g * d ≤ fee * one
    → w' + p * one ≤ w
    → total' + p ≡ total + fee
    → w' + g * k + total * one ≤ w + total' * one
budget_of g k d fee p w w' total total' a b c e = rw a (omega arith)

module _ {N : Type 0} ⦃num : Numeric N⦄ (laws : IsFixedPoint N num) where
  open laws use {raw, lt-raw, raw-plus, raw-from_fraction}

  accrue_exact :
      (m m' : Miner N) (t : Treasury N)
      → raw m.rewards_factor ≤ raw t.miner_rewards_factor
      → accrue m t ≡ ok m'
      → (m'.refined_godl
          ≡ m.refined_godl + grown laws t.miner_rewards_factor m.rewards_factor m.rewards_godl)
        × (m'.rewards_godl ≡ m.rewards_godl)
  unfolding accrue
  accrue_exact m m' t up h =
      let now = t.miner_rewards_factor in
      let (a, e₁, h₁) = >>=-eq-ok (num.minus now m.rewards_factor) _ h in
      let (_, e₂, h₂) = >>=-eq-ok (reject (num.lt a num.nought) panic) _ h₁ in
      let (p, e₃, h₃) = >>=-eq-ok (num.times a (num.from_u64 m.rewards_godl)) _ h₂ in
      let (n, e₄, h₄) = >>=-eq-ok (num.to_u64 p) _ h₃ in
      rw (← earned_exact laws now m.rewards_factor a p m.rewards_godl n up e₁ e₃ e₄) (ground arith)

  -- A settlement adds to the refined GODL exactly the growth of the factor on the unclaimed GODL.
  pub update_rewards_exact :
      (m m' : Miner N) (t : Treasury N)
      → update_rewards m t ≡ ok m'
      → (m'.refined_godl
          ≡ m.refined_godl + grown laws t.miner_rewards_factor m.rewards_factor m.rewards_godl)
        × (m'.rewards_godl ≡ m.rewards_godl)
        × (m'.rewards_factor ≡ t.miner_rewards_factor)
  unfolding update_rewards
  update_rewards_exact m m' t h =
      elim (Bool-cases (num.lt m.rewards_factor t.miner_rewards_factor)) [
        | inl e ↦
            let (m₁, e₁, h₁) = >>=-eq-ok (accrue m t) _ (rw e at h) in
            let up : raw m.rewards_factor ≤ raw t.miner_rewards_factor =
              ground (arith, lt-raw m.rewards_factor t.miner_rewards_factor) in
            ground (arith, accrue_exact m m₁ t up e₁)
        | inr e ↦
            let now = t.miner_rewards_factor in
            let same : raw now ≤ raw m.rewards_factor =
              ground (arith, lt-raw m.rewards_factor now) in
            rw (grown_zero laws now m.rewards_factor m.rewards_godl same) (ground arith)
      ]

  -- what a miner can claim of the refined GODL when the factor stands at `now`, in units
  abbrev pub worth : ℕ → Miner N → ℕ
  worth now m = m.refined_godl * one + (now - raw m.rewards_factor) * m.rewards_godl

  abbrev pub unclaimed : Miner N → ℕ
  unclaimed m = m.rewards_godl

  pub record IsSolvent (ms : List (Miner N)) (t : Treasury N) : Type 0 where
    pub no_ahead : All (λ m. raw m.rewards_factor ≤ raw t.miner_rewards_factor) ms
    pub total : sum_by unclaimed ms ≡ t.total_unclaimed
    pub covered : sum_by (worth (raw t.miner_rewards_factor)) ms ≤ t.total_refined * one

  -- One miner's step: what it may do for the others to stay covered.
  pub record Moves (m : Miner N) (t : Treasury N) (m' : Miner N) (t' : Treasury N) : Type 0 where
    pub factor_grows : raw t.miner_rewards_factor ≤ raw t'.miner_rewards_factor
    pub not_ahead : raw m'.rewards_factor ≤ raw t'.miner_rewards_factor
    pub totals : t'.total_unclaimed + m.rewards_godl ≡ t.total_unclaimed + m'.rewards_godl
    pub budget :
        worth (raw t'.miner_rewards_factor) m'
          + (raw t'.miner_rewards_factor - raw t.miner_rewards_factor)
            * (t.total_unclaimed - m.rewards_godl)
          + t.total_refined * one
        ≤ worth (raw t.miner_rewards_factor) m + t'.total_refined * one

  worth_grows :
      (m : Miner N) (old new : ℕ)
      → raw m.rewards_factor ≤ old
      → old ≤ new
      → worth new m ≡ worth old m + (new - old) * m.rewards_godl
  worth_grows m old new p g =
      let split : new - raw m.rewards_factor ≡ (new - old) + (old - raw m.rewards_factor) =
        omega arith in
      rw split (omega arith)

  sum_worth_grows :
      (ms : List (Miner N)) (old new : ℕ)
      → All (λ m. raw m.rewards_factor ≤ old) ms
      → old ≤ new
      → sum_by (worth new) ms ≡ sum_by (worth old) ms + (new - old) * sum_by unclaimed ms
  sum_worth_grows [] old new h g = omega arith
  sum_worth_grows (m ∷ ms) old new (p, h) g =
      let split : new - raw m.rewards_factor ≡ (new - old) + (old - raw m.rewards_factor) =
        omega arith in
      rw (split, sum_worth_grows ms old new h g) (omega arith)

  All-le :
      (ms : List (Miner N)) (old new : ℕ)
      → All (λ m. raw m.rewards_factor ≤ old) ms
      → old ≤ new
      → All (λ m. raw m.rewards_factor ≤ new) ms
  All-le [] old new h g = tt
  All-le (m ∷ ms) old new (p, h) g = (omega arith, All-le ms old new h g)

  pub Moves-IsSolvent :
      (ms : List (Miner N)) (i : ℕ) (m m' : Miner N) (t t' : Treasury N)
      → get_elem? ms i ≡ some m
      → IsSolvent ms t
      → Moves m t m' t'
      → IsSolvent (set ms i m') t'
  Moves-IsSolvent ms i m m' t t' at s v =
      let old = raw t.miner_rewards_factor in
      let new = raw t'.miner_rewards_factor in
      record {
        no_ahead =
            All-set (λ m. raw m.rewards_factor ≤ new) ms i m'
              (All-le ms old new s.no_ahead v.factor_grows) v.not_ahead;
        total = omega (arith, sum_by-set unclaimed ms i m m' at, s.total, v.totals);
        covered =
            cover (sum_by (worth old) ms) (sum_by (worth new) (set ms i m')) (worth old m)
              (worth new m') (worth new m) (new - old) t.total_unclaimed m.rewards_godl
              (t.total_unclaimed - m.rewards_godl) (t.total_refined * one) (t'.total_refined * one)
              (omega (
                arith,
                sum_by-set (worth new) ms i m m' at,
                sum_worth_grows ms old new s.no_ahead v.factor_grows,
                ap (λ (x : ℕ). (new - old) * x) s.total,
              ))
              (worth_grows m old new
                (All-get_elem? (λ m. raw m.rewards_factor ≤ old) ms i m s.no_ahead at)
                v.factor_grows)
              (omega (arith, sum_by-ge unclaimed ms i m at, s.total)) v.budget s.covered;
      }

  -- A settled miner is worth no more than before.
  pub settle_worth :
      (m m₁ : Miner N) (t : Treasury N)
      → update_rewards m t ≡ ok m₁
      → raw m.rewards_factor ≤ raw t.miner_rewards_factor
      → m₁.refined_godl * one ≤ worth (raw t.miner_rewards_factor) m
  settle_worth m m₁ t e h = omega (
    arith,
    (update_rewards_exact m m₁ t e).0,
    grown-le laws t.miner_rewards_factor m.rewards_factor m.rewards_godl (raw m.rewards_factor)
        (le_refl _),
  )

  -- The fee buys at least the growth of the factor on what the others hold.
  Charged-growth :
      (r : ℕ) (t t' : Treasury N)
      → Charged r t t'
      → (raw t.miner_rewards_factor ≤ raw t'.miner_rewards_factor)
        × ((raw t'.miner_rewards_factor - raw t.miner_rewards_factor) * t'.total_unclaimed
            ≤ fee_of r t'.total_unclaimed * one)
  Charged-growth r t t' (inl (u, f)) = rw (f, u) (omega arith, omega arith)
  Charged-growth r t t' (inr (q, p, e₁, e₂)) =
      let old = raw t.miner_rewards_factor in
      let u = t'.total_unclaimed in
      let new : raw t'.miner_rewards_factor ≡ old + raw q = raw-plus _ _ _ e₂ in
      let share : raw q ≡ r / 10 * one / u = raw-from_fraction (r / 10) u q p e₁ in
      let step : raw t'.miner_rewards_factor - old ≡ r / 10 * one / u = omega arith in
      let fee : fee_of r u ≡ r / 10 = ground arith in
      (omega arith, rw (step, fee) (div-mul-le_self (r / 10 * one) u))

  pub claim_godl-Moves :
      (m m' : Miner N) (c : Clock) (t t' : Treasury N) (n : ℕ)
      → claim_godl m c t ≡ ok (n, m', t')
      → raw m.rewards_factor ≤ raw t.miner_rewards_factor
      → Moves m t m' t'
  claim_godl-Moves m m' c t t' n e h =
      let claimed = claim_godl-Claimed m m' c t t' n e in
      let m₁ = claimed.settled in
      let (_, r, f) = update_rewards_exact m m₁ t claimed.settles in
      let (grows, bought) = Charged-growth m₁.rewards_godl t t' claimed.charged in
      let old = raw t.miner_rewards_factor in
      let new = raw t'.miner_rewards_factor in
      let nothing : worth new m' ≡ 0 =
        rw (claimed.rewards_taken, claimed.refined_taken) (omega arith) in
      let total : t'.total_unclaimed + m.rewards_godl ≡ t.total_unclaimed =
        omega (arith, claimed.unclaimed, r) in
      record {
        factor_grows = grows;
        not_ahead = rw (claimed.factor, f) grows;
        totals = omega (arith, claimed.rewards_taken, total);
        budget =
            budget_of (new - old) (t.total_unclaimed - m.rewards_godl) t'.total_unclaimed
              (fee_of m₁.rewards_godl t'.total_unclaimed) m₁.refined_godl (worth old m)
              (worth new m') t.total_refined t'.total_refined (omega arith) bought
              (omega (arith, nothing, settle_worth m m₁ t claimed.settles h)) claimed.refined;
      }

  credited :
      (m m₁ m' : Miner N) (godl : ℕ) (t t' : Treasury N)
      → raw m.rewards_factor ≤ raw t.miner_rewards_factor
      → update_rewards m t ≡ ok m₁
      → m'.rewards_godl ≡ m₁.rewards_godl + godl
      → m'.refined_godl ≡ m₁.refined_godl
      → m'.rewards_factor ≡ m₁.rewards_factor
      → t'.total_unclaimed ≡ t.total_unclaimed + godl
      → t'.total_refined ≡ t.total_refined
      → t'.miner_rewards_factor ≡ t.miner_rewards_factor
      → Moves m t m' t'
  credited m m₁ m' godl t t' h e₁ r' p' f' u' R' F' =
      let (_, r, f) = update_rewards_exact m m₁ t e₁ in
      let old = raw t.miner_rewards_factor in
      let same : raw t'.miner_rewards_factor ≡ old = ap raw F' in
      let synced : raw m'.rewards_factor ≡ old = ap raw (f' ∙ f) in
      let level : old - old ≡ 0 = omega arith in
      let flat : worth old m' ≡ m₁.refined_godl * one = rw (synced, level, p') (omega arith) in
      record {
        factor_grows = omega (arith, same);
        not_ahead = omega (arith, same, synced);
        totals = omega (arith, r', u', r);
        budget = rw (same, level, R', flat) (omega (arith, settle_worth m m₁ t e₁ h));
      }

  pub credit_round-Moves :
      (m m' : Miner N) (id godl sol : ℕ) (t t' : Treasury N)
      → credit_round m id godl sol t ≡ ok (m', t')
      → raw m.rewards_factor ≤ raw t.miner_rewards_factor
      → Moves m t m' t'
  unfolding credit_round credit_settled
  credit_round-Moves m m' id godl sol t t' e h =
      let (m₁, e₁, h₁) = >>=-eq-ok (update_rewards m t) _ e in
      credited m m₁ m' godl t t' h e₁ (ground arith) (ground arith) (ground arith) (ground arith)
        (ground arith) (ground arith)
