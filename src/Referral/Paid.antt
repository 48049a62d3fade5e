-- ===== src/Referral/Paid.antt =====
-- What a referrer is paid.
use godl_program.Base.{
  ℕ, ◌+◌, ◌≡◌, List, [], ◌∷◌, ◌++◌, Result, ok, arith, refl, sym, ap, ◌∙◌, >>=-eq-ok,
  ok-injective_pair, ok-functional,
}
use mathlib.Core.Path.{subst}
use godl_program.Miner.{Miner}
use godl_program.Referrer.{Referrer, credit_sol, credit_godl}
use godl_program.Referral.{
  Accounts, opened_referrer, open_tokens_of, process_initialize_referrer, count_referral, pay_out,
  load_referrer, process_claim_referral,
}
use godl_program.Runtime.{Steel, Effect}
use godl_program.Runtime.Flows.{token_flow, token_flow-++, outflow, outflow-++}

module _ {N A : Type 0} (steel : Steel N A) where
  open_tokens_of-still :
      (a : Accounts steel) (tokens_info owner_info : A) (es : List (Effect A))
      → open_tokens_of steel a tokens_info owner_info ≡ ok es
      → (token_flow es ≡ 0) × (outflow es ≡ 0)
  unfolding open_tokens_of
  open_tokens_of-still a t o es h = (ground arith, ground arith)

  pay_out-exact :
      (a : Accounts steel) (r : Referrer)
      → let (r', es) = pay_out steel a r in
        (token_flow es ≡ r.rewards_godl)
        × (outflow es ≡ r.rewards_sol)
        × (r'.rewards_godl ≡ 0)
        × (r'.rewards_sol ≡ 0)
        × (r'.cumulative_rewards_sol ≡ r.cumulative_rewards_sol)
        × (r'.cumulative_rewards_godl ≡ r.cumulative_rewards_godl)
  unfolding pay_out
  pay_out-exact a r =
      (ground arith, ground arith, ground arith, ground arith, ground arith, ground arith)

  -- the claim, from where the token account is open
  abbrev paid : Accounts steel → List (Effect A) → Referrer → Result (Referrer × List (Effect A))
  paid a opened r = let (r', es) = pay_out steel a r in ok (r', opened ++ es)

  claimed :
      (a : Accounts steel) (opened : List (Effect A)) (r r' : Referrer) (es : List (Effect A))
      → token_flow opened ≡ 0
      → outflow opened ≡ 0
      → paid a opened r ≡ ok (r', es)
      → (token_flow es ≡ r.rewards_godl)
        × (outflow es ≡ r.rewards_sol)
        × (r'.rewards_godl ≡ 0)
        × (r'.rewards_sol ≡ 0)
        × (r'.cumulative_rewards_sol ≡ r.cumulative_rewards_sol)
        × (r'.cumulative_rewards_godl ≡ r.cumulative_rewards_godl)
  claimed a opened r r' es no_tokens no_sol h =
      let (tokens, sol, x, y, z, w) = pay_out-exact a r in
      let (p, q) =
        ok-injective_pair (pay_out steel a r).0 r' (opened ++ (pay_out steel a r).1) es h in
      let moved = token_flow-++ opened (pay_out steel a r).1 in
      let sent = outflow-++ opened (pay_out steel a r).1 in
      (
        ap token_flow (sym q) ∙ omega (arith, moved, no_tokens, tokens),
        ap outflow (sym q) ∙ omega (arith, sent, no_sol, sol),
        ap (λ v. v.rewards_godl) (sym p) ∙ x,
        ap (λ v. v.rewards_sol) (sym p) ∙ y,
        ap (λ v. v.cumulative_rewards_sol) (sym p) ∙ z,
        ap (λ v. v.cumulative_rewards_godl) (sym p) ∙ w,
      )

  load_referrer-eq-ok :
      (a : Accounts steel) (r : Referrer)
      → load_referrer steel a ≡ ok r
      → steel.as_referrer a.referrer_info ≡ ok r
  unfolding load_referrer
  load_referrer-eq-ok a r h = ground arith

  process_claim_referral-eq-ok :
      (a : Accounts steel) (r r' : Referrer) (es : List (Effect A))
      → steel.as_referrer a.referrer_info ≡ ok r
      → process_claim_referral steel a ≡ ok (r', es)
      → (token_flow es ≡ r.rewards_godl)
        × (outflow es ≡ r.rewards_sol)
        × (r'.rewards_godl ≡ 0)
        × (r'.rewards_sol ≡ 0)
        × (r'.cumulative_rewards_sol ≡ r.cumulative_rewards_sol)
        × (r'.cumulative_rewards_godl ≡ r.cumulative_rewards_godl)
  unfolding process_claim_referral
  process_claim_referral-eq-ok a r r' es d h =
      let (r₁, e₁, h₁) = >>=-eq-ok (load_referrer steel a) _ h in
      let (opened, e₂, h₂) =
        >>=-eq-ok (open_tokens_of steel a a.authority_tokens_info a.authority_info) _ h₁ in
      let same = ok-functional _ r₁ r (load_referrer-eq-ok a r₁ e₁) d in
      let (no_tokens, no_sol) =
        open_tokens_of-still a a.authority_tokens_info a.authority_info opened e₂ in
      claimed a opened r r' es no_tokens no_sol (subst (λ z. paid a opened z ≡ ok (r', es)) same h₂)

  initialize-eq-ok :
      (a : Accounts steel) (r : Referrer) (es : List (Effect A))
      → process_initialize_referrer steel a ≡ ok (r, es)
      → (k : ℕ) × (r ≡ opened_referrer steel k)
  unfolding process_initialize_referrer
  initialize-eq-ok a r es h = (steel.key a.authority_info, ground arith)

  count-keeps :
      (desired key : ℕ) (i : A) (m : Miner N) (r r' : Referrer)
      → steel.as_referrer i ≡ ok r
      → count_referral steel desired (i ∷ []) m ≡ ok (key, r')
      → (n : ℕ) × (r' ≡ record r { referrer_count = n })
  unfolding count_referral
  count-keeps desired key i m r r' d h = (r.referrer_count + 1, ground arith)

module _ (N A : Type 0) where
  -- A referrer, and the SOL and the GODL that it has been sent. Each instruction runs on its own
  -- accounts.
  pub data Referred : Referrer → ℕ → ℕ → Type 0 where
    opens :
        (steel : Steel N A) (a : Accounts steel) (r : Referrer) (es : List (Effect A))
        → process_initialize_referrer steel a ≡ ok (r, es)
        → Referred r 0 0
    counts :
        (steel : Steel N A) (desired key : ℕ) (i : A) (m : Miner N) (r r' : Referrer) (sol godl : ℕ)
        → steel.as_referrer i ≡ ok r
        → count_referral steel desired (i ∷ []) m ≡ ok (key, r')
        → Referred r sol godl
        → Referred r' sol godl
    earns_sol :
        (amount : ℕ) (r r' : Referrer) (sol godl : ℕ)
        → credit_sol r amount ≡ ok r'
        → Referred r sol godl
        → Referred r' sol godl
    earns_godl :
        (amount : ℕ) (r r' : Referrer) (sol godl : ℕ)
        → credit_godl r amount ≡ ok r'
        → Referred r sol godl
        → Referred r' sol godl
    claims :
        (steel : Steel N A) (a : Accounts steel) (r r' : Referrer) (es : List (Effect A))
        (sol godl : ℕ)
        → steel.as_referrer a.referrer_info ≡ ok r
        → process_claim_referral steel a ≡ ok (r', es)
        → Referred r sol godl
        → Referred r' (sol + outflow es) (godl + token_flow es)

  -- what is recorded as earned has been sent or can be claimed
  abbrev IsSquare : Referrer → ℕ → ℕ → Type 0
  IsSquare r sol godl =
      (r.rewards_sol + sol ≡ r.cumulative_rewards_sol)
      × (r.rewards_godl + godl ≡ r.cumulative_rewards_godl)

  credit_sol-IsSquare :
      (amount : ℕ) (r r' : Referrer) (sol godl : ℕ)
      → credit_sol r amount ≡ ok r'
      → IsSquare r sol godl
      → IsSquare r' sol godl
  unfolding credit_sol
  credit_sol-IsSquare amount r r' sol godl h p = ground arith

  credit_godl-IsSquare :
      (amount : ℕ) (r r' : Referrer) (sol godl : ℕ)
      → credit_godl r amount ≡ ok r'
      → IsSquare r sol godl
      → IsSquare r' sol godl
  unfolding credit_godl
  credit_godl-IsSquare amount r r' sol godl h p = ground arith

  -- However a referrer is used, what it has ever earned is what it has been sent and what it can still
  -- claim, in SOL and in GODL.
  pub Referred-cumulative :
      (r : Referrer) (sol godl : ℕ)
      → Referred r sol godl
      → (r.rewards_sol + sol ≡ r.cumulative_rewards_sol)
        × (r.rewards_godl + godl ≡ r.cumulative_rewards_godl)
  Referred-cumulative r _ _ (opens steel a _ es h) =
      let (k, e) = initialize-eq-ok steel a r es h in rw e (refl, refl)
  Referred-cumulative _ sol godl (counts steel desired key i m r r' _ _ d h p) =
      let (n, e) = count-keeps steel desired key i m r r' d h in
      let (x, y) = Referred-cumulative r sol godl p in rw e (x, y)
  Referred-cumulative _ sol godl (earns_sol amount r r' _ _ h p) =
      credit_sol-IsSquare amount r r' sol godl h (Referred-cumulative r sol godl p)
  Referred-cumulative _ sol godl (earns_godl amount r r' _ _ h p) =
      credit_godl-IsSquare amount r r' sol godl h (Referred-cumulative r sol godl p)
  Referred-cumulative _ _ _ (claims steel a r r' es sol godl d h p) =
      let (tokens, sent, x, y, z, w) = process_claim_referral-eq-ok steel a r r' es d h in
      let (u, v) = Referred-cumulative r sol godl p in
      (omega (arith, sent, y, z, u), omega (arith, tokens, x, w, v))
