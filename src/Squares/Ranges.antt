-- ===== src/Squares/Ranges.antt =====
-- The ranges that the deployments of a round take on a square.
use godl_program.Base.{
  ℕ, zero, suc, ◌+◌, ◌<◌, ◌≤◌, ◌≡◌, refl, Bool, false, ◌&&◌, not, List, [], ◌∷◌, ok, arith, length,
  length-set, get_or, set, ltb, Bool-cases, inl, inr, >>=-eq-ok, ok-injective, ok-injective_pair,
  ◌==◌,
}
use godl_program.Squares.{Bet, Deployment, stops, deploy_square, visit, deploy_squares}
use godl_program.Squares.Sums.{Entry, deploy_square-Entry}

get_or-set_same : (xs : List ℕ) (k v : ℕ) → k < length xs → get_or (set xs k v) k 0 ≡ v
get_or-set_same [] k v h = absurd (omega arith)
get_or-set_same (x ∷ xs) zero v h = refl
get_or-set_same (x ∷ xs) (suc k) v h = get_or-set_same xs k v (omega arith)

get_or-set_other :
    (xs : List ℕ) (i k v : ℕ) → (i == k) ≡ false → get_or (set xs i v) k 0 ≡ get_or xs k 0
get_or-set_other [] i k v h = refl
get_or-set_other (x ∷ xs) zero zero v h = ground arith
get_or-set_other (x ∷ xs) zero (suc k) v h = refl
get_or-set_other (x ∷ xs) (suc i) zero v h = refl
get_or-set_other (x ∷ xs) (suc i) (suc k) v h = get_or-set_other xs i k v (ground arith)

module _ {N A : Type 0} where
  -- on square `k`, which held `before` at the start: what the round has gained is the miner's, whose
  -- range starts where the round stood
  pub record Lined (k before : ℕ) (d : Deployment N A) : Type 0 where
    pub gained : get_or d.round.deployed k 0 ≡ before + get_or d.miner.deployed k 0
    pub starts : 0 < get_or d.miner.deployed k 0 → get_or d.miner.cumulative k 0 ≡ before
    pub within : get_or d.miner.cumulative k 0 ≤ before
    pub in_round : k < length d.round.deployed
    pub in_miner : k < length d.miner.deployed
    pub in_cumulative : k < length d.miner.cumulative

  hit-Lined :
      (b : Bet A) (k before : ℕ) (d d' : Deployment N A)
      → get_or d.miner.deployed k 0 ≡ 0
      → Entry b k d d'
      → Lined k before d
      → Lined k before d'
  hit-Lined b k before d d' fresh q l =
      let stood : get_or d.round.deployed k 0 ≡ before = omega (arith, l.gained) in
      let r =
        get_or-set_same d.round.deployed k (get_or d.round.deployed k 0 + b.amount) l.in_round in
      let m = get_or-set_same d.miner.deployed k b.amount l.in_miner in
      let c = get_or-set_same d.miner.cumulative k (get_or d.round.deployed k 0) l.in_cumulative in
      record {
        gained = rw (q.total, q.own, r, m) (omega arith);
        starts = λ _. rw (q.cumulative, c) stood;
        within = rw (q.cumulative, c) (omega arith);
        in_round =
            rw (q.total, length-set d.round.deployed k (get_or d.round.deployed k 0 + b.amount))
              l.in_round;
        in_miner = rw (q.own, length-set d.miner.deployed k b.amount) l.in_miner;
        in_cumulative =
            rw (q.cumulative, length-set d.miner.cumulative k (get_or d.round.deployed k 0))
              l.in_cumulative;
      }

  deploy_square-Lined :
      (b : Bet A) (i k before : ℕ) (d d' : Deployment N A)
      → get_or d.miner.deployed i 0 ≡ 0
      → Entry b i d d'
      → Lined k before d
      → Lined k before d'
  deploy_square-Lined b i k before d d' fresh q l = elim (Bool-cases (i == k)) [
    | inl e ↦
        let same : i ≡ k = ground arith in
        rw same at (hit-Lined b i before d d' fresh q (rw (← same) at l))
    | inr e ↦
        let r = get_or-set_other d.round.deployed i k (get_or d.round.deployed i 0 + b.amount) e in
        let m = get_or-set_other d.miner.deployed i k b.amount e in
        let c = get_or-set_other d.miner.cumulative i k (get_or d.round.deployed i 0) e in
        record {
          gained = rw (q.total, q.own, r, m) l.gained;
          starts = rw (q.own, q.cumulative, m, c) l.starts;
          within = rw (q.cumulative, c) l.within;
          in_round =
              rw (q.total, length-set d.round.deployed i (get_or d.round.deployed i 0 + b.amount))
                l.in_round;
          in_miner = rw (q.own, length-set d.miner.deployed i b.amount) l.in_miner;
          in_cumulative =
              rw (q.cumulative, length-set d.miner.cumulative i (get_or d.round.deployed i 0))
                l.in_cumulative;
        }
  ]

  visit-Lined :
      (b : Bet A) (i k before : ℕ) (chosen stop : Bool) (d d' : Deployment N A)
      → visit b i chosen d ≡ ok (stop, d')
      → Lined k before d
      → Lined k before d'
  unfolding visit
  visit-Lined b i k before chosen stop d d' h l =
      elim (Bool-cases (chosen && not (ltb 0 (get_or d.miner.deployed i 0)))) [
        | inl e ↦
            let (d₁, e₁, h₁) = >>=-eq-ok (deploy_square b i d) _ (rw e at h) in
            let (s, e₂, h₂) = >>=-eq-ok (stops b d₁.total_amount b.automation) _ h₁ in
            let (_, same) = ok-injective_pair s stop d₁ d' h₂ in
            let fresh : get_or d.miner.deployed i 0 ≡ 0 = ground arith in
            rw same at
              (deploy_square-Lined b i k before d d₁ fresh (deploy_square-Entry b i d d₁ e₁) l)
        | inr e ↦ let (_, same) = ok-injective_pair false stop d d' (rw e at h) in rw same at l
      ]

  pub deploy_squares-Lined :
      (b : Bet A) (i k before : ℕ) (squares : List Bool) (d d' : Deployment N A)
      → deploy_squares b i squares d ≡ ok d'
      → Lined k before d
      → Lined k before d'
  unfolding deploy_squares
  deploy_squares-Lined b i k before [] d d' h l = rw (ok-injective _ _ h) at l
  deploy_squares-Lined b i k before (c ∷ cs) d d' h l =
      let ((stop, d₁), e₁, h₁) = >>=-eq-ok (visit b i c d) _ h in
      let first = visit-Lined b i k before c stop d d₁ e₁ l in
      elim (Bool-cases stop) [
        | inl e ↦ rw (ok-injective _ _ (rw e at h₁)) at first
        | inr e ↦ deploy_squares-Lined b (i + 1) k before cs d₁ d' (rw e at h₁) first
      ]
