-- ===== src/Squares/Sums.antt =====
-- What the loop over the squares adds to the miner's and the round's totals.
use godl_program.Base.{
  ℕ, zero, suc, ◌+◌, ◌*◌, ◌<◌, ◌≤◌, ◌≡◌, refl, sym, ap, ◌∙◌, Bool, true, false, ◌&&◌, not, List, [],
  ◌∷◌, ok, arith, length, length-set, get_or, set, sum, ltb, if◌then◌else◌, Bool-cases, inl, inr,
  >>=-eq-ok, ok-injective, ok-injective_pair, add_u64,
}
use godl_program.Squares.{
  Bet, Deployment, met, stops, enter_pool, enter_if_pooled, enter_square, tally, deploy_square,
  visit, deploy_squares,
}

pub sum-set :
    (xs : List ℕ) (i v : ℕ) → i < length xs → sum (set xs i v) + get_or xs i 0 ≡ sum xs + v
sum-set [] i v h = absurd (omega arith)
sum-set (x ∷ xs) zero v h = omega arith
sum-set (x ∷ xs) (suc i) v h = omega (arith, sum-set xs i v (omega arith))

pub add_u64-exact : (x y z : ℕ) → add_u64 x y ≡ ok z → z ≡ x + y
add_u64-exact x y z h = ground arith

module _ {N A : Type 0} where
  -- one or more squares of the bet, on the same arrays
  pub record Adds (b : Bet A) (d d' : Deployment N A) : Type 0 where
    pub squares :
        d'.total_amount + d.total_squares * b.amount ≡ d.total_amount + d'.total_squares * b.amount
    pub round_total :
        d'.round.total_deployed + d.total_amount ≡ d.round.total_deployed + d'.total_amount
    pub round_sum : sum d'.round.deployed + d.total_amount ≡ sum d.round.deployed + d'.total_amount
    pub miner_sum : sum d'.miner.deployed + d.total_amount ≡ sum d.miner.deployed + d'.total_amount
    pub round_length : length d'.round.deployed ≡ length d.round.deployed
    pub miner_length : length d'.miner.deployed ≡ length d.miner.deployed

  Adds-refl : (b : Bet A) (d : Deployment N A) → Adds b d d
  Adds-refl b d = record {
    squares = refl;
    round_total = refl;
    round_sum = refl;
    miner_sum = refl;
    round_length = refl;
    miner_length = refl;
  }

  Adds-trans : (b : Bet A) (d e f : Deployment N A) → Adds b d e → Adds b e f → Adds b d f
  Adds-trans b d e f p q = record {
    squares = omega (arith, p.squares, q.squares);
    round_total = omega (arith, p.round_total, q.round_total);
    round_sum = omega (arith, p.round_sum, q.round_sum);
    miner_sum = omega (arith, p.miner_sum, q.miner_sum);
    round_length = q.round_length ∙ p.round_length;
    miner_length = q.miner_length ∙ p.miner_length;
  }

  -- the pool's entries leave the rest
  pub record SameBut (d d' : Deployment N A) : Type 0 where
    pub miner : d'.miner ≡ d.miner
    pub round : d'.round ≡ d.round
    pub amount : d'.total_amount ≡ d.total_amount
    pub squares : d'.total_squares ≡ d.total_squares

  pub enter_pool-SameBut :
      (b : Bet A) (i : ℕ) (d d' : Deployment N A) → enter_pool b i d ≡ ok d' → SameBut d d'
  unfolding enter_pool
  enter_pool-SameBut b i d d' h =
      let ((p, es), e₁, h₁) = >>=-eq-ok (met b d.pool_member) _ h in
      let same = ok-injective _ _ h₁ in
      record {
        miner = sym (ap (λ x. x.miner) same);
        round = sym (ap (λ x. x.round) same);
        amount = sym (ap (λ x. x.total_amount) same);
        squares = sym (ap (λ x. x.total_squares) same);
      }

  pub if_pooled-SameBut :
      (b : Bet A) (i : ℕ) (d d' : Deployment N A) → enter_if_pooled b i d ≡ ok d' → SameBut d d'
  unfolding enter_if_pooled
  if_pooled-SameBut b i d d' h = pooled_cases b.is_pooled h
    where
      pooled_cases : (c : Bool) → (if c then enter_pool b i d else ok d) ≡ ok d' → SameBut d d'
      pooled_cases true g = enter_pool-SameBut b i d d' g
      pooled_cases false g =
          rw (← ok-injective _ _ g)
            (record { miner = refl; round = refl; amount = refl; squares = refl })

  -- what a square that is deployed to adds, field by field
  pub record Entry (b : Bet A) (i : ℕ) (d d' : Deployment N A) : Type 0 where
    pub cumulative : d'.miner.cumulative ≡ set d.miner.cumulative i (get_or d.round.deployed i 0)
    pub own : d'.miner.deployed ≡ set d.miner.deployed i b.amount
    pub total : d'.round.deployed ≡ set d.round.deployed i (get_or d.round.deployed i 0 + b.amount)
    pub total_deployed : d'.round.total_deployed ≡ d.round.total_deployed + b.amount
    pub amount : d'.total_amount ≡ d.total_amount + b.amount
    pub squares : d'.total_squares ≡ d.total_squares + 1

  -- the entries alone
  record Entered (b : Bet A) (i : ℕ) (d d' : Deployment N A) : Type 0 where
    cumulative : d'.miner.cumulative ≡ set d.miner.cumulative i (get_or d.round.deployed i 0)
    own : d'.miner.deployed ≡ set d.miner.deployed i b.amount
    total : d'.round.deployed ≡ set d.round.deployed i (get_or d.round.deployed i 0 + b.amount)
    total_deployed : d'.round.total_deployed ≡ d.round.total_deployed + b.amount
    amount : d'.total_amount ≡ d.total_amount
    squares : d'.total_squares ≡ d.total_squares

  enter_square-Entered :
      (b : Bet A) (i : ℕ) (d d' : Deployment N A) → enter_square b i d ≡ ok d' → Entered b i d d'
  unfolding enter_square
  enter_square-Entered b i d d' h =
      let before = get_or d.round.deployed i 0 in
      let (after, e₁, h₁) = >>=-eq-ok (add_u64 before b.amount) _ h in
      let (total, e₂, h₂) = >>=-eq-ok (add_u64 d.round.total_deployed b.amount) _ h₁ in
      let (count, e₃, h₃) = >>=-eq-ok (add_u64 (get_or d.round.count i 0) 1) _ h₂ in
      let same = ok-injective _ _ h₃ in
      record {
        cumulative = sym (ap (λ x. x.miner.cumulative) same);
        own = sym (ap (λ x. x.miner.deployed) same);
        total =
            sym (ap (λ x. x.round.deployed) same)
            ∙ ap (set d.round.deployed i) (add_u64-exact before b.amount after e₁);
        total_deployed =
            sym (ap (λ x. x.round.total_deployed) same)
            ∙ add_u64-exact d.round.total_deployed b.amount total e₂;
        amount = sym (ap (λ x. x.total_amount) same);
        squares = sym (ap (λ x. x.total_squares) same);
      }

  record Tallied (b : Bet A) (d d' : Deployment N A) : Type 0 where
    miner : d'.miner ≡ d.miner
    round : d'.round ≡ d.round
    amount : d'.total_amount ≡ d.total_amount + b.amount
    squares : d'.total_squares ≡ d.total_squares + 1

  tally-Tallied : (b : Bet A) (d d' : Deployment N A) → tally b d ≡ ok d' → Tallied b d d'
  unfolding tally
  tally-Tallied b d d' h =
      let (n, e₁, h₁) = >>=-eq-ok (add_u64 d.total_amount b.amount) _ h in
      let same = ok-injective _ _ h₁ in
      record {
        miner = sym (ap (λ x. x.miner) same);
        round = sym (ap (λ x. x.round) same);
        amount = sym (ap (λ x. x.total_amount) same) ∙ add_u64-exact d.total_amount b.amount n e₁;
        squares = sym (ap (λ x. x.total_squares) same);
      }

  pub deploy_square-Entry :
      (b : Bet A) (i : ℕ) (d d' : Deployment N A) → deploy_square b i d ≡ ok d' → Entry b i d d'
  unfolding deploy_square
  deploy_square-Entry b i d d' h =
      let (d₁, e₁, h₁) = >>=-eq-ok (enter_square b i d) _ h in
      let (d₂, e₂, h₂) = >>=-eq-ok (enter_if_pooled b i d₁) _ h₁ in
      let x = enter_square-Entered b i d d₁ e₁ in
      let y = if_pooled-SameBut b i d₁ d₂ e₂ in
      let z = tally-Tallied b d₂ d' h₂ in
      let miner = z.miner ∙ y.miner in
      let round = z.round ∙ y.round in
      record {
        cumulative = ap (λ m. m.cumulative) miner ∙ x.cumulative;
        own = ap (λ m. m.deployed) miner ∙ x.own;
        total = ap (λ r. r.deployed) round ∙ x.total;
        total_deployed = ap (λ r. r.total_deployed) round ∙ x.total_deployed;
        amount = omega (arith, z.amount, y.amount, x.amount);
        squares = omega (arith, z.squares, y.squares, x.squares);
      }

  visit-Adds :
      (b : Bet A) (i : ℕ) (chosen stop : Bool) (d d' : Deployment N A)
      → i < length d.round.deployed
      → i < length d.miner.deployed
      → visit b i chosen d ≡ ok (stop, d')
      → Adds b d d'
  unfolding visit
  visit-Adds b i chosen stop d d' r m h =
      elim (Bool-cases (chosen && not (ltb 0 (get_or d.miner.deployed i 0)))) [
        | inl e ↦
            let (d₁, e₁, h₁) = >>=-eq-ok (deploy_square b i d) _ (rw e at h) in
            let (s, e₂, h₂) = >>=-eq-ok (stops b d₁.total_amount b.automation) _ h₁ in
            let (_, same) = ok-injective_pair s stop d₁ d' h₂ in
            let q = deploy_square-Entry b i d d₁ e₁ in
            let fresh : get_or d.miner.deployed i 0 ≡ 0 = ground arith in
            let rs = sum-set d.round.deployed i (get_or d.round.deployed i 0 + b.amount) r in
            let ms = sum-set d.miner.deployed i b.amount m in
            rw (← same) (record {
              squares = rw (q.amount, q.squares) (omega arith);
              round_total = rw (q.amount, q.total_deployed) (omega arith);
              round_sum = rw (q.amount, q.total) (omega arith);
              miner_sum = rw (q.amount, q.own) (omega arith);
              round_length = rw q.total (length-set d.round.deployed i _);
              miner_length = rw q.own (length-set d.miner.deployed i _);
            })
        | inr e ↦
            let (_, same) = ok-injective_pair false stop d d' (rw e at h) in
            rw (← same) (Adds-refl b d)
      ]

  -- The loop enters the same amount in the miner's squares, in the round's squares, in the round's
  -- total and in its own total: the bet's amount times the number of squares deployed to. It changes
  -- no length, where the squares lie within the arrays.
  pub deploy_squares_sums :
      (b : Bet A) (i : ℕ) (squares : List Bool) (d d' : Deployment N A)
      → i + length squares ≤ length d.round.deployed
      → i + length squares ≤ length d.miner.deployed
      → deploy_squares b i squares d ≡ ok d'
      → Adds b d d'
  unfolding deploy_squares
  deploy_squares_sums b i [] d d' r m h = rw (← ok-injective _ _ h) (Adds-refl b d)
  deploy_squares_sums b i (c ∷ cs) d d' r m h =
      let ((stop, d₁), e₁, h₁) = >>=-eq-ok (visit b i c d) _ h in
      let first = visit-Adds b i c stop d d₁ (omega arith) (omega arith) e₁ in
      elim (Bool-cases stop) [
        | inl e ↦ rw (← ok-injective _ _ (rw e at h₁)) first
        | inr e ↦ Adds-trans b d d₁ d' first (
            deploy_squares_sums b (i + 1) cs d₁ d' (omega (arith, first.round_length))
              (omega (arith, first.miner_length)) (rw e at h₁))
      ]
