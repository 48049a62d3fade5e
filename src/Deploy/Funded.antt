-- ===== src/Deploy/Funded.antt =====
-- A deployment by an automation, from the check of its balance to the payment.
use godl_program.Base.{
  ℕ, ◌+◌, ◌*◌, ◌≤◌, ◌≡◌, sym, ap, ◌∙◌, Bool, true, Option, some, none, List, [], ◌∷◌, ◌++◌, ok,
  arith, leb, Bool-cases, inl, inr, >>=-eq-ok, ok-injective, ok-injective_pair, add_u64,
  checked_mul, length, checked_add, ◌⊎◌, invalid_instruction_data, sub_u64,
}
use godl_program.Numeric.{Numeric}
use godl_program.Automation.{AutomationV2}
use godl_program.Runtime.{Steel, Effect, close}
use godl_program.Squares.{Deployment, deploy_squares}
use godl_program.Squares.Sums.{add_u64-exact, deploy_squares_sums}
use godl_program.Deploy.{Accounts, bet, can_fund, check_pool, pay_deploy, place, place_if_funded}
use godl_program.Deploy.Funds.{Pays, Pays-exact, left, no_partial_bet}

can_fund-Pays :
    (o : Option AutomationV2) (amount n : ℕ) → can_fund o amount n ≡ ok true → Pays o (amount * n)
unfolding can_fund
can_fund-Pays none amount n h = tt
can_fund-Pays (some a) amount n h =
    let (cost, e₁, h₁) = >>=-eq-ok (checked_mul amount n invalid_instruction_data) _ h in
    let (required, e₂, h₂) = >>=-eq-ok (checked_add cost a.fee invalid_instruction_data) _ h₁ in
    let enough : leb required a.balance ≡ true = ok-injective _ _ h₂ in
    let x : cost ≡ amount * n = ground arith in
    let y : required ≡ cost + a.fee = ground arith in ground arith

-- the automation's balance is down by an amount and its fee
abbrev pub Debited : Option AutomationV2 → Option AutomationV2 → ℕ → Type 0
Debited none none n = Unit {0}
Debited none (some a) n = ⊥
Debited (some a) none n = ⊥
Debited (some a) (some a') n = a'.balance + (n + a.fee) ≡ a.balance

module _ {N A : Type 0} ⦃num : Numeric N⦄ (steel : Steel N A) where
  pay_deploy-Debited :
      (a : Accounts steel) (o o' : Option AutomationV2) (n : ℕ) (es : List (Effect A))
      → pay_deploy steel a o n ≡ ok (o', es)
      → Debited o o' n
  unfolding pay_deploy
  pay_deploy-Debited a none none n es h = tt
  pay_deploy-Debited a none (some x) n es h = absurd (grind arith)
  pay_deploy-Debited a (some x) o' n es h =
      let (spent, e₁, h₁) = >>=-eq-ok (add_u64 n x.fee) _ h in
      let (balance, e₂, h₂) = >>=-eq-ok (sub_u64 x.balance spent) _ h₁ in
      let (next, e₃, h₃) = >>=-eq-ok (add_u64 x.amount x.fee) _ h₂ in
      let (same, _) = ok-injective_pair _ _ _ _ h₃ in
      let exact = add_u64-exact n x.fee spent e₁ in
      let less : balance + spent ≡ x.balance = ground arith in rw (← same) (omega arith)

  -- the parts of `place` that came to pass
  record Placed (a : Accounts steel) (o o' : Option AutomationV2) (is_pooled : Bool) (amount : ℕ)
      (squares : List Bool) (d d' : Deployment N A) : Type 0 where
    looped : Deployment N A
    loop : deploy_squares (bet steel a o is_pooled amount) 0 squares d ≡ ok looped
    round : d'.round ≡ looped.round
    entered : d'.total_squares ≡ looped.total_squares
    sends : List (Effect A)
    payment : pay_deploy steel a o looped.total_amount ≡ ok (o', sends)

  place-Placed :
      (a : Accounts steel) (o o' : Option AutomationV2) (is_pooled : Bool) (amount : ℕ)
      (squares : List Bool) (d d' : Deployment N A)
      → place steel a o is_pooled amount squares d ≡ ok (d', o')
      → Placed a o o' is_pooled amount squares d d'
  unfolding place
  place-Placed a o o' is_pooled amount squares d d' h =
      let (d₁, e₁, h₁) =
        >>=-eq-ok (deploy_squares (bet steel a o is_pooled amount) 0 squares d) _ h in
      let (lifetime, e₂, h₂) =
        >>=-eq-ok (add_u64 d₁.miner.lifetime_deployed d₁.total_amount) _ h₁ in
      let (u, e₃, h₃) = >>=-eq-ok (check_pool steel a is_pooled d₁.pool_member) _ h₂ in
      let ((o₁, sends), e₄, h₄) = >>=-eq-ok (pay_deploy steel a o d₁.total_amount) _ h₃ in
      let (same, paid) = ok-injective_pair _ _ _ _ h₄ in
      record {
        looped = d₁;
        loop = e₁;
        round = sym (ap (λ x. x.round) same);
        entered = sym (ap (λ x. x.total_squares) same);
        sends = sends;
        payment = e₄ ∙ ap (λ x. ok (x, sends)) paid;
      }

  place-all :
      (a : Accounts steel) (o o' : Option AutomationV2) (is_pooled : Bool) (amount : ℕ)
      (squares : List Bool) (d d' : Deployment N A)
      → d.total_amount ≡ 0
      → length squares ≤ length d.round.deployed
      → length squares ≤ length d.miner.deployed
      → Pays o (amount * left d 0 squares)
      → place steel a o is_pooled amount squares d ≡ ok (d', o')
      → (d'.total_squares ≡ d.total_squares + left d 0 squares)
        × (d'.round.total_deployed ≡ d.round.total_deployed + amount * left d 0 squares)
        × Debited o o' (amount * left d 0 squares)
  place-all a o o' is_pooled amount squares d d' z lr lm p h =
      let b = bet steel a o is_pooled amount in
      let n = amount * left d 0 squares in
      let q = place-Placed a o o' is_pooled amount squares d d' h in
      let adds = deploy_squares_sums b 0 squares d q.looped (omega arith) (omega arith) q.loop in
      let (x, y) =
        no_partial_bet b 0 squares d q.looped (Pays-exact o n _ (omega arith) p) q.loop in
      let total : q.looped.total_amount ≡ n = omega arith in
      let debited = pay_deploy-Debited a o o' q.looped.total_amount q.sends q.payment in
      (
        q.entered ∙ x,
        ap (λ r. r.total_deployed) q.round ∙ omega (arith, adds.round_total),
        rw total at debited,
      )

  -- If a deploy goes through, then it is one of two cases. Nothing was entered: the miner, the round and
  -- the automation are as they were, and the automation is closed. Or every square that the miner had
  -- left was entered, the round's total grew by the amount times their number, and the automation, if
  -- there is one, was debited that and its fee. The squares are at most as many as the arrays have.
  pub all_or_nothing :
      (a : Accounts steel) (o o' : Option AutomationV2) (is_pooled : Bool) (amount : ℕ)
      (squares : List Bool) (d d' : Deployment N A)
      → d.total_amount ≡ 0
      → length squares ≤ length d.round.deployed
      → length squares ≤ length d.miner.deployed
      → place_if_funded steel a o is_pooled amount squares d ≡ ok (d', o')
      → ((d' ≡ record d {
        effects = d.effects ++ (close a.automation_v2_info a.authority_info ∷ []);
      })
          × (o' ≡ o))
        ⊎ ((d'.total_squares ≡ d.total_squares + left d 0 squares)
            × (d'.round.total_deployed ≡ d.round.total_deployed + amount * left d 0 squares)
            × Debited o o' (amount * left d 0 squares))
  unfolding place_if_funded
  all_or_nothing a o o' is_pooled amount squares d d' z lr lm h =
      let (funded, e₁, h₁) = >>=-eq-ok (can_fund o amount (left d 0 squares)) _ h in
      elim (Bool-cases funded) [
        | inl e ↦
            let p = can_fund-Pays o amount (left d 0 squares) (e₁ ∙ ap ok e) in
            inr (place-all a o o' is_pooled amount squares d d' z lr lm p (rw e at h₁))
        | inr e ↦
            let (same, kept) = ok-injective_pair _ _ _ _ (rw e at h₁) in inl (sym same, sym kept)
      ]
