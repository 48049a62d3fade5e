-- ===== src/Deploy/Funds.antt =====
-- An automation's balance against what its deployment costs.
use godl_program.Base.{
  ℕ, zero, suc, ◌+◌, ◌*◌, ◌<◌, ◌≤◌, ◌≡◌, refl, sym, ◌∙◌, Bool, true, false, ◌&&◌, not, Option, some,
  none, List, [], ◌∷◌, ok, arith, get_or, set, ltb, if◌then◌else◌, Bool-cases, inl, inr, >>=-eq-ok,
  ok-injective, ok-injective_pair, add_u64,
}
use godl_program.Automation.{AutomationV2}
use godl_program.Squares.{
  Bet, Deployment, squares_to_deploy, stops, deploy_square, visit, deploy_squares,
}
use godl_program.Squares.Sums.{add_u64-exact, Entry, deploy_square-Entry}

-- a square before the ones that are counted does not matter
squares_to_deploy-set :
    (deployed : List ℕ) (i j v : ℕ) (squares : List Bool)
    → i < j
    → squares_to_deploy (set deployed i v) j squares ≡ squares_to_deploy deployed j squares
unfolding squares_to_deploy
squares_to_deploy-set deployed i j v [] h = refl
squares_to_deploy-set deployed i j v (c ∷ cs) h =
    rw (other deployed i j v h, squares_to_deploy-set deployed i (j + 1) v cs (omega arith)) refl
  where
    other : (xs : List ℕ) (i j v : ℕ) → i < j → get_or (set xs i v) j 0 ≡ get_or xs j 0
    other [] i j v h = refl
    other (x ∷ xs) zero zero v h = absurd (omega arith)
    other (x ∷ xs) zero (suc j) v h = refl
    other (x ∷ xs) (suc i) zero v h = absurd (omega arith)
    other (x ∷ xs) (suc i) (suc j) v h = other xs i j v (omega arith)

-- the automation, if there is one, can pay this much and its fee
abbrev pub Pays : Option AutomationV2 → ℕ → Type 0
Pays none n = Unit {0}
Pays (some a) n = n + a.fee ≤ a.balance

pub Pays-exact : (o : Option AutomationV2) (m n : ℕ) → m ≡ n → Pays o m → Pays o n
Pays-exact none m n e p = tt
Pays-exact (some a) m n e p = omega arith

module _ {A : Type 0} where
  no_stop :
      (b : Bet A) (o : Option AutomationV2) (total rest : ℕ) (stop : Bool)
      → Pays o (total + b.amount * rest)
      → stops b total o ≡ ok stop
      → stop ≡ true
      → rest ≡ 0
  unfolding stops
  no_stop b none total rest stop p h s = ground arith
  no_stop b (some a) total zero stop p h s = refl
  no_stop b (some a) total (suc rest) stop p h s =
      let (spent, e₁, h₁) = >>=-eq-ok (add_u64 total a.fee) _ h in
      let (next, e₂, h₂) = >>=-eq-ok (add_u64 spent b.amount) _ h₁ in
      let least : b.amount ≤ b.amount * suc rest = grind arith in
      let small : ltb a.balance next ≡ true = ok-injective _ _ h₂ ∙ s in
      let x₁ = add_u64-exact total a.fee spent e₁ in
      let x₂ = add_u64-exact spent b.amount next e₂ in ground arith

module _ {N A : Type 0} where
  -- the square is deployed to
  abbrev takes : Deployment N A → ℕ → Bool → Bool
  takes d i chosen = chosen && not (ltb 0 (get_or d.miner.deployed i 0))

  abbrev pub left : Deployment N A → ℕ → List Bool → ℕ
  left d i squares = squares_to_deploy d.miner.deployed i squares

  left_cons :
      (d : Deployment N A) (i : ℕ) (chosen : Bool) (squares : List Bool)
      → left d i (chosen ∷ squares) ≡ (if takes d i chosen then 1 else 0) + left d (i + 1) squares
  unfolding squares_to_deploy
  left_cons d i chosen squares = refl

  left-Entry :
      (b : Bet A) (i : ℕ) (squares : List Bool) (d d' : Deployment N A)
      → Entry b i d d'
      → left d' (i + 1) squares ≡ left d (i + 1) squares
  left-Entry b i squares d d' x =
      rw x.own (squares_to_deploy-set d.miner.deployed i (i + 1) b.amount squares (omega arith))

  -- what a visit leaves to do: as many squares and lamports as there were
  record Keeps (b : Bet A) (i : ℕ) (squares : List Bool) (n : ℕ) (d d' : Deployment N A)
      : Type 0 where
    entered : d'.total_squares + left d' i squares ≡ d.total_squares + n
    paid : d'.total_amount + b.amount * left d' i squares ≡ d.total_amount + b.amount * n

  deploy_square-Keeps :
      (b : Bet A) (i n : ℕ) (squares : List Bool) (d d' : Deployment N A)
      → n ≡ 1 + left d (i + 1) squares
      → deploy_square b i d ≡ ok d'
      → Keeps b (i + 1) squares n d d'
  deploy_square-Keeps b i n squares d d' e h =
      let x = deploy_square-Entry b i d d' h in
      let l = left-Entry b i squares d d' x in
      let more : b.amount * n ≡ b.amount + b.amount * left d (i + 1) squares = rw e (omega arith) in
      record {
        entered = rw l (omega (arith, x.squares, e));
        paid = rw l (omega (arith, x.amount, more));
      }

  visit-Keeps :
      (b : Bet A) (i : ℕ) (chosen stop : Bool) (squares : List Bool) (d d' : Deployment N A)
      → Pays b.automation (d.total_amount + b.amount * left d i (chosen ∷ squares))
      → visit b i chosen d ≡ ok (stop, d')
      → Keeps b (i + 1) squares (left d i (chosen ∷ squares)) d d'
        × (stop ≡ true → left d' (i + 1) squares ≡ 0)
  unfolding visit
  visit-Keeps b i chosen stop squares d d' p h = elim (Bool-cases (takes d i chosen)) [
    | inl e ↦
        let (d₁, e₁, h₁) = >>=-eq-ok (deploy_square b i d) _ (rw e at h) in
        let (s, e₂, h₂) = >>=-eq-ok (stops b d₁.total_amount b.automation) _ h₁ in
        let (q, same) = ok-injective_pair s stop d₁ d' h₂ in
        let n : left d i (chosen ∷ squares) ≡ 1 + left d (i + 1) squares =
          left_cons d i chosen squares ∙ rw e refl in
        let k = deploy_square-Keeps b i (left d i (chosen ∷ squares)) squares d d₁ n e₁ in
        rw (← same) (
          k,
          λ t.
              no_stop b b.automation d₁.total_amount (left d₁ (i + 1) squares) s
                (Pays-exact b.automation _ _ (sym k.paid) p) e₂ (q ∙ t),
        )
    | inr e ↦
        let (q, same) = ok-injective_pair false stop d d' (rw e at h) in
        let n : left d i (chosen ∷ squares) ≡ left d (i + 1) squares =
          left_cons d i chosen squares ∙ rw e (omega arith) in
        rw (← same, n) (record { entered = refl; paid = refl }, λ t. cc)
  ]

  -- If there is no automation, or its balance pays for all the squares that remain and its fee, then
  -- the loop never ends early: it deploys to each of them.
  pub no_partial_bet :
      (b : Bet A) (i : ℕ) (squares : List Bool) (d d' : Deployment N A)
      → Pays b.automation (d.total_amount + b.amount * left d i squares)
      → deploy_squares b i squares d ≡ ok d'
      → (d'.total_squares ≡ d.total_squares + left d i squares)
        × (d'.total_amount ≡ d.total_amount + b.amount * left d i squares)
  unfolding deploy_squares squares_to_deploy
  no_partial_bet b i [] d d' p h = rw (← ok-injective _ _ h) (omega arith, omega arith)
  no_partial_bet b i (c ∷ cs) d d' p h =
      let ((stop, d₁), e₁, h₁) = >>=-eq-ok (visit b i c d) _ h in
      let (k, ends) = visit-Keeps b i c stop cs d d₁ p e₁ in
      elim (Bool-cases stop) [
        | inl e ↦
            let z : b.amount * left d₁ (i + 1) cs ≡ 0 = rw (ends e) (omega arith) in
            rw (← ok-injective _ _ (rw e at h₁))
              (omega (arith, k.entered, ends e), omega (arith, k.paid, z))
        | inr e ↦
            let (x, y) =
              no_partial_bet b (i + 1) cs d₁ d' (Pays-exact b.automation _ _ (sym k.paid) p)
                (rw e at h₁) in
            (omega (arith, x, k.entered), omega (arith, y, k.paid))
      ]
