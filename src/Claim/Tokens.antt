-- ===== src/Claim/Tokens.antt =====
-- What a claim of GODL pays, against what is claimed.
use godl_program.Base.{
  ℕ, Bool, ◌+◌, ◌/◌, ◌++◌, map, sym, ap, ◌∙◌, ◌≡◌, Option, some, none, List, [], ◌∷◌, ok, arith,
  refl, >>=-eq-ok, ok-injective, checked_sub, invalid_instruction_data, ltb, if◌then◌else◌,
}
use mathlib.Core.Path.{subst}
use mathlib.Core.List
use godl_program.Numeric.{Numeric}
use godl_program.Treasury.{Clock, Treasury}
use godl_program.Miner.{Miner, claim_godl, update_rewards, accrue, charge_fee, referrer_account}
use godl_program.Referrer.{Referrer, referral_amount}
use godl_program.Runtime.{Steel, Effect, transfer, referrer}
use godl_program.Runtime.Flows.{
  token_flow, token_flow-++, IsOpening, IsOpening-++, IsOpening-token_flow,
}
use godl_program.Claim.Payments.{referral_none}
use godl_program.Miner.Claims.{claim_godl_conserves}
use godl_program.Gold.{GoldVault, MinerExtended}
use godl_program.Extended.{load_or_create_miner_extended, sync_gold_rewards}
use godl_program.Claim.Godl.{
  ClaimGodlAccounts, ClaimedGodl, load_recipient, pay_referrer_godl, pay_godl, claim_loaded,
}

module _ {N A : Type 0} ⦃num : Numeric N⦄ (steel : Steel N A) where
  -- the referral: nothing without a referrer, and this part for a token account of the account that
  -- has the address of the miner's referrer
  abbrev pub IsReferralGodl : Option ℕ → List A → ℕ → ℕ → List A → Type 0
  IsReferralGodl none [] n part payees = (n ≡ 0) × (payees ≡ [])
  IsReferralGodl (some k) (r ∷ tokens ∷ []) n part payees =
      (steel.has_address r k ≡ ok tt)
      × ((held : ℕ) × (steel.as_tokens tokens (steel.key r) ≡ ok held))
      × (n ≡ part)
      × (payees ≡ tokens ∷ [])
  IsReferralGodl _ _ _ _ _ = ⊥

  referral_amount-part :
      (k n amount : ℕ) → referral_amount (some k) amount ≡ ok n → n ≡ amount / 200
  unfolding referral_amount
  referral_amount-part k n amount h = ground arith

  pay_referrer_godl-eq-ok :
      (tokens : A) (rest : List A) (o : Option ℕ) (n amount : ℕ) (r : Option Referrer)
      (es : List (Effect A))
      → referral_amount o amount ≡ ok n
      → pay_referrer_godl steel tokens rest o n ≡ ok (r, es)
      → (payees : List A) × IsReferralGodl o rest n (amount / 200) payees
        × (es ≡ map (λ to. transfer tokens to n) payees)
        × (token_flow es ≡ n)
  unfolding pay_referrer_godl
  pay_referrer_godl-eq-ok i [] none n amount r es e h =
      let z = referral_none steel n amount e in ([], (z, refl), ground arith, ground (arith, z))
  pay_referrer_godl-eq-ok i (_ ∷ _) none n amount r es e h = cc
  pay_referrer_godl-eq-ok i [] (some k) n amount r es e h = cc
  pay_referrer_godl-eq-ok i (_ ∷ []) (some k) n amount r es e h = cc
  pay_referrer_godl-eq-ok i (_ ∷ _ ∷ _ ∷ _) (some k) n amount r es e h = cc
  pay_referrer_godl-eq-ok i (a ∷ b ∷ []) (some k) n amount r es e h =
      let (x, _, h₁) = >>=-eq-ok (steel.as_referrer a) _ h in
      let (_, _, h₂) = >>=-eq-ok (steel.is_writable a) _ h₁ in
      let (_, e₃, h₃) = >>=-eq-ok (steel.has_address a k) _ h₂ in
      let (_, _, h₄) = >>=-eq-ok (steel.has_seeds a (referrer x.authority)) _ h₃ in
      let (_, _, h₅) = >>=-eq-ok (steel.is_writable b) _ h₄ in
      let (held, e₆, h₆) = >>=-eq-ok (steel.as_tokens b (steel.key a)) _ h₅ in
      (
        b ∷ [],
        (e₃, (held, e₆), referral_amount-part k n amount e, refl),
        ground arith,
        ground arith,
      )

  rest_transfer-token_flow :
      (from to : A) (n : ℕ) → token_flow (if ltb 0 n then transfer from to n ∷ [] else []) ≡ n
  rest_transfer-token_flow from to n = ground arith

  -- the payment of a claim
  record Paid (a : ClaimGodlAccounts steel) (m : Miner N) (t : Treasury N) (r : ClaimedGodl steel)
      : Type 0 where
    flow :
        token_flow r.effects + r.treasury_after.total_unclaimed + r.treasury_after.total_refined
        ≡ t.total_unclaimed + t.total_refined
    no_rewards : r.miner_after.rewards_godl ≡ 0
    no_refined : r.miner_after.refined_godl ≡ 0
    referral : ℕ
    rest : ℕ
    payees : List A
    referred : IsReferralGodl (referrer_account m) a.rest referral ((referral + rest) / 200) payees
    calls :
        r.effects
        ≡ map (λ to. transfer a.treasury_tokens_info to referral) payees
          ++ (if ltb 0 rest then transfer a.treasury_tokens_info a.recipient_info rest ∷ [] else [])

  claim_godl-referrer :
      (c : Clock) (m m' : Miner N) (t t' : Treasury N) (amount : ℕ)
      → claim_godl m c t ≡ ok (amount, m', t')
      → m'.referrer ≡ m.referrer
  unfolding claim_godl update_rewards accrue charge_fee
  claim_godl-referrer c m m' t t' amount h = ground arith

  referrer_account-same :
      (m m' : Miner N) → m'.referrer ≡ m.referrer → referrer_account m' ≡ referrer_account m
  unfolding referrer_account
  referrer_account-same m m' e = rw e refl

  pay_godl-Paid :
      (a : ClaimGodlAccounts steel) (c : Clock) (m : Miner N) (t : Treasury N)
      (r : ClaimedGodl steel)
      → pay_godl steel a c m t ≡ ok r
      → Paid a m t r
  unfolding pay_godl
  pay_godl-Paid a c m t r h =
      let ((amount, m', t'), e₁, h₁) = >>=-eq-ok (claim_godl m c t) _ h in
      let o = referrer_account m' in
      let tokens = a.treasury_tokens_info in
      let (n, e₂, h₂) = >>=-eq-ok (referral_amount o amount) _ h₁ in
      let (x, e₃, h₃) = >>=-eq-ok (checked_sub amount n invalid_instruction_data) _ h₂ in
      let ((ref, es), e₄, h₄) = >>=-eq-ok (pay_referrer_godl steel tokens a.rest o n) _ h₃ in
      let (payees, referred, calls, sent) =
        pay_referrer_godl-eq-ok tokens a.rest o n amount ref es e₂ e₄ in
      let split : n + x ≡ amount = ground arith in
      let last : List (Effect A) =
        if ltb 0 x then transfer tokens a.recipient_info x ∷ [] else [] in
      let all : token_flow (es ++ last) ≡ amount =
        rw (token_flow-++ es _, sent, rest_transfer-token_flow tokens a.recipient_info x) split in
      let (conserved, rewards, refined) = claim_godl_conserves m m' c t t' amount e₁ in
      let same = referrer_account-same m m' (claim_godl-referrer c m m' t t' amount e₁) in
      let named = subst (λ z. IsReferralGodl z a.rest n (amount / 200) payees) same referred in
      rw (← ok-injective _ _ h₄) (record {
        flow = omega (arith, all, conserved);
        no_rewards = rewards;
        no_refined = refined;
        referral = n;
        rest = x;
        payees = payees;
        referred =
            subst (λ z. IsReferralGodl (referrer_account m) a.rest n (z / 200) payees) (sym split)
              named;
        calls = ap (λ z. z ++ last) calls;
      })

  load_recipient-IsOpening :
      (a : ClaimGodlAccounts steel) (es : List (Effect A))
      → load_recipient steel a ≡ ok es
      → IsOpening es
  unfolding load_recipient
  load_recipient-IsOpening a es h = ground arith

  load_or_create-IsOpening :
      (info payer : A) (vault : GoldVault N) (authority : ℕ) (creates : Bool)
      (o : Option (MinerExtended N)) (es : List (Effect A))
      → load_or_create_miner_extended steel info vault authority payer creates ≡ ok (o, es)
      → IsOpening es
  unfolding load_or_create_miner_extended
  load_or_create-IsOpening info payer vault authority creates o es h = ground arith

  -- A claim of GODL that returns leaves the miner nothing to claim. Its calls open accounts, and then
  -- transfer out of the treasury's token account: half a percent of the claim, rounded down, to the
  -- token account of the account that has the address of the miner's referrer, if the miner has one,
  -- and the rest, if there is any, to the recipient. Just this leaves the treasury's two totals.
  pub claim_godl_pays :
      (a : ClaimGodlAccounts steel) (c : Clock) (m : Miner N) (t : Treasury N) (vault : GoldVault N)
      (r : ClaimedGodl steel)
      → claim_loaded steel a c m t vault ≡ ok r
      → (token_flow r.effects + r.treasury_after.total_unclaimed + r.treasury_after.total_refined
          ≡ t.total_unclaimed + t.total_refined)
        × (r.miner_after.rewards_godl ≡ 0)
        × (r.miner_after.refined_godl ≡ 0)
        × ((referral rest : ℕ) × (payees : List A) × (opening : List (Effect A)) × IsReferralGodl
              (referrer_account m)
              a.rest
              referral
              ((referral + rest) / 200)
              payees
            × IsOpening opening
            × (r.effects
                ≡ opening
                  ++ (map (λ to. transfer a.treasury_tokens_info to referral) payees
                      ++ (if ltb 0 rest
                          then transfer a.treasury_tokens_info a.recipient_info rest ∷ []
                          else []))))
  unfolding claim_loaded
  claim_godl_pays a c m t vault r h =
      let creates = ltb 0 m.rewards_godl in
      let ((o, created), e₁, h₁) =
        >>=-eq-ok
          (load_or_create_miner_extended steel a.miner_extended_info vault m.authority a.signer_info
            creates)
          _ h in
      let (opened, e₂, h₂) = >>=-eq-ok (load_recipient steel a) _ h₁ in
      let (synced, e₃, h₃) = >>=-eq-ok (sync_gold_rewards o vault m) _ h₂ in
      let (p, e₄, h₄) = >>=-eq-ok (pay_godl steel a c m t) _ h₃ in
      let paid = pay_godl-Paid a c m t p e₄ in
      let first =
        load_or_create-IsOpening a.miner_extended_info a.signer_info vault m.authority creates o
          created e₁ in
      let second = load_recipient-IsOpening a opened e₂ in
      let flow : token_flow (created ++ (opened ++ p.effects)) ≡ token_flow p.effects =
        rw
          (
            token_flow-++ created _,
            token_flow-++ opened _,
            IsOpening-token_flow created first,
            IsOpening-token_flow opened second,
          )
          (omega arith) in
      let regroup =
        sym (List.append_assoc created opened p.effects)
        ∙ ap (λ z. (created ++ opened) ++ z) paid.calls in
      rw (← ok-injective _ _ h₄) (
        omega (arith, flow, paid.flow),
        paid.no_rewards,
        paid.no_refined,
        (
          paid.referral,
          paid.rest,
          paid.payees,
          created ++ opened,
          paid.referred,
          IsOpening-++ created opened first second,
          regroup,
        ),
      )
