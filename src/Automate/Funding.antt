-- ===== src/Automate/Funding.antt =====
-- The SOL that moves from a miner to its automation.
use godl_program.Base.{
  ℕ, ◌+◌, ◌/◌, ◌++◌, map, List, ◌≡◌, Option, some, none, [], ◌∷◌, ok, arith, refl, ap, >>=-eq-ok,
  ok-injective, ok-functional, checked_sub, invalid_instruction_data, ltb, if◌then◌else◌, ◌==◌,
  add_u64,
}
use godl_program.Numeric.{Numeric}
use godl_program.Treasury.{Clock}
use godl_program.Miner.{Miner, claim_sol, referrer_account}
use godl_program.Automation.{AutomationV2, get_claim_and_fund}
use godl_program.Runtime.{Steel, Effect, send, demand, automation_v2}
use godl_program.Runtime.Flows.{outflow, outflow-++}
use godl_program.Claim.{pay_referrer}
use godl_program.Claim.Payments.{IsReferral, pay_referrer-eq-ok, rest_send-outflow}
use godl_program.Automate.{
  Accounts, Funded, funding_referral, fund_from, process_claim_sol_and_fund_automation,
}

funding_referral-none : (n amount : ℕ) → funding_referral none amount ≡ ok n → n ≡ 0
unfolding funding_referral
funding_referral-none n amount h = ground arith

funding_referral-part :
    (k n amount : ℕ) → funding_referral (some k) amount ≡ ok n → n ≡ amount / 2000
unfolding funding_referral
funding_referral-part k n amount h = ground arith

module _ {N A : Type 0} ⦃num : Numeric N⦄ (steel : Steel N A) where
  funding_referral-IsReferral :
      (o : Option ℕ) (rest : List A) (n amount : ℕ)
      → funding_referral o amount ≡ ok n
      → IsReferral steel o rest n n
      → IsReferral steel o rest n (amount / 2000)
  funding_referral-IsReferral none [] n amount e p = p
  funding_referral-IsReferral none (_ ∷ _) n amount e p = p
  funding_referral-IsReferral (some k) [] n amount e p = p
  funding_referral-IsReferral (some k) (_ ∷ _ ∷ _) n amount e p = p
  funding_referral-IsReferral (some k) (_ ∷ []) n amount e (p, _) =
      (p, funding_referral-part k n amount e)

  -- what leaves the miner for its automation, all but the referral
  record Moved (a : Accounts steel) (automation : AutomationV2) (o : Option ℕ) (amount : ℕ)
      (f : Funded steel) : Type 0 where
    referral : ℕ
    rest : ℕ
    referred : IsReferral steel o a.rest referral (amount / 2000)
    whole : referral + rest ≡ amount
    calls :
        f.effects
        ≡ map (λ to. send a.miner_info referral to) a.rest
          ++ (if ltb 0 rest then send a.miner_info rest a.automation_v2_info ∷ [] else [])
    sent : outflow f.effects ≡ amount
    grown : f.automation ≡ record automation { balance = automation.balance + rest }

  fund_from-Moved :
      (a : Accounts steel) (automation : AutomationV2) (m : Miner N) (amount : ℕ) (f : Funded steel)
      → fund_from steel a automation m amount ≡ ok f
      → Moved a automation (referrer_account m) amount f × (f.miner ≡ m)
  unfolding fund_from
  fund_from-Moved a automation m amount f h =
      let o = referrer_account m in
      let (n, e₁, h₁) = >>=-eq-ok (funding_referral o amount) _ h in
      let (x, e₂, h₂) = >>=-eq-ok (checked_sub amount n invalid_instruction_data) _ h₁ in
      let ((r, es), e₃, h₃) = >>=-eq-ok (pay_referrer steel a.miner_info a.rest o n) _ h₂ in
      let (b, e₄, h₄) =
        >>=-eq-ok (if ltb 0 x then add_u64 automation.balance x else ok automation.balance) _ h₃ in
      let (referred, calls, sent) =
        pay_referrer-eq-ok steel a.miner_info a.rest o n r es e₃
          (λ p. funding_referral-none n amount (rw p at e₁)) in
      let split : n + x ≡ amount = ground arith in
      let grown : b ≡ automation.balance + x = ground arith in
      let last : List (Effect A) =
        if ltb 0 x then send a.miner_info x a.automation_v2_info ∷ [] else [] in
      let all : outflow (es ++ last) ≡ amount =
        rw (outflow-++ es _, sent, rest_send-outflow steel a.miner_info a.automation_v2_info x)
          split in
      rw (← ok-injective _ _ h₄) (
        record {
          referral = n;
          rest = x;
          referred = funding_referral-IsReferral o a.rest n amount e₁ referred;
          whole = split;
          calls = ap (λ z. z ++ last) calls;
          sent = all;
          grown = ap (λ z. record automation { balance = z }) grown;
        },
        refl,
      )

  -- A claim of SOL into an automation leaves the miner nothing credited, and sends exactly what was
  -- credited, out of the miner's account: a twentieth of a percent, rounded down, to the account that
  -- it is given with the address of the miner's referrer, if the miner has one, and the rest to the
  -- automation's account. Just this rest is added to the automation's balance, and nothing else of it
  -- changes.
  pub claim_and_fund_moves :
      (a : Accounts steel) (clock : Clock) (m : Miner N) (automation : AutomationV2)
      (f : Funded steel)
      → steel.as_miner a.miner_info ≡ ok m
      → steel.as_automation a.automation_v2_info ≡ ok automation
      → process_claim_sol_and_fund_automation steel a clock ≡ ok f
      → (outflow f.effects ≡ m.rewards_sol)
        × (f.miner.rewards_sol ≡ 0)
        × ((referral rest : ℕ) × IsReferral steel
              (referrer_account m)
              a.rest
              referral
              (m.rewards_sol / 2000)
            × (referral + rest ≡ m.rewards_sol)
            × (f.effects
                ≡ map (λ to. send a.miner_info referral to) a.rest
                  ++ (if ltb 0 rest then send a.miner_info rest a.automation_v2_info ∷ [] else []))
            × (f.automation ≡ record automation { balance = automation.balance + rest }))
  unfolding process_claim_sol_and_fund_automation claim_sol referrer_account
  claim_and_fund_moves a clock m automation f loaded loaded' h =
      let (_, _, h₁) = >>=-eq-ok (steel.is_signer a.signer_info) _ h in
      let (x, e₂, h₂) = >>=-eq-ok (steel.as_automation a.automation_v2_info) _ h₁ in
      let (_, _, h₃) = >>=-eq-ok (demand (x.executor == steel.key a.signer_info)) _ h₂ in
      let (_, _, h₄) = >>=-eq-ok (demand (get_claim_and_fund x)) _ h₃ in
      let (_, _, h₅) = >>=-eq-ok (steel.is_writable a.automation_v2_info) _ h₄ in
      let (_, _, h₆) =
        >>=-eq-ok (steel.has_seeds a.automation_v2_info (automation_v2 x.authority)) _ h₅ in
      let (y, e₇, h₇) = >>=-eq-ok (steel.as_miner a.miner_info) _ h₆ in
      let (_, _, h₈) = >>=-eq-ok (demand (y.authority == x.authority)) _ h₇ in
      let (_, _, h₉) = >>=-eq-ok (steel.is_system_program a.system_program) _ h₈ in
      let same_x : x ≡ automation = ok-functional _ x automation e₂ loaded' in
      let same_y : y ≡ m = ok-functional _ y m e₇ loaded in
      let emptied = record y { rewards_sol = 0; last_claim_sol_at = clock.unix_timestamp } in
      let (moved, left) = fund_from-Moved a x emptied y.rewards_sol f h₉ in
      rw (← same_x, ← same_y)
        (
          moved.sent,
          ap (λ z. z.rewards_sol) left,
          (moved.referral, moved.rest, moved.referred, moved.whole, moved.calls, moved.grown),
        )
