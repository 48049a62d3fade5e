-- ===== src/Claim/Payments.antt =====
-- What a claim of SOL and the closing of a round pay, against what is recorded.
use godl_program.Base.{
  ℕ, ◌+◌, ◌-◌, ◌/◌, ◌++◌, map, ap, ◌≡◌, Option, some, none, List, [], ◌∷◌, ok, arith, refl,
  >>=-eq-ok, ok-injective, ok-injective_pair, checked_sub, invalid_instruction_data, ok-functional,
  ltb, if◌then◌else◌, ◌==◌, Bool-cases, inl, inr,
}
use godl_program.Treasury.{Clock, Treasury}
use godl_program.Miner.{Miner, claim_sol, referrer_account}
use godl_program.Referrer.{Referrer, referral_amount}
use godl_program.Round.{Round}
use godl_program.Runtime.{Steel, Effect, send, demand, pool_round}
use godl_program.Runtime.Flows.{outflow, outflow-++}
use godl_program.Claim.{
  ClaimSolAccounts, ClaimedSol, pay_referrer, pay_claim, process_claim_sol, CloseAccounts,
  vault_rest, close_pool_round, vault_round, process_close,
}

module _ {N A : Type 0} (steel : Steel N A) where
  pub referral_none : (n amount : ℕ) → referral_amount none amount ≡ ok n → n ≡ 0
  unfolding referral_amount
  referral_none n amount h = ground arith

  -- the referral: nothing without a referrer, and this part for the account that has the address of
  -- the miner's referrer
  abbrev pub IsReferral : Option ℕ → List A → ℕ → ℕ → Type 0
  IsReferral none [] n part = n ≡ 0
  IsReferral (some k) (r ∷ []) n part = (steel.has_address r k ≡ ok tt) × (n ≡ part)
  IsReferral _ _ _ _ = ⊥

  referral_amount-part :
      (k n amount : ℕ) → referral_amount (some k) amount ≡ ok n → n ≡ amount / 200
  unfolding referral_amount
  referral_amount-part k n amount h = ground arith

  pub referral_amount-IsReferral :
      (o : Option ℕ) (rest : List A) (n amount : ℕ)
      → referral_amount o amount ≡ ok n
      → IsReferral o rest n n
      → IsReferral o rest n (amount / 200)
  referral_amount-IsReferral none [] n amount e p = p
  referral_amount-IsReferral none (_ ∷ _) n amount e p = p
  referral_amount-IsReferral (some k) [] n amount e p = p
  referral_amount-IsReferral (some k) (_ ∷ _ ∷ _) n amount e p = p
  referral_amount-IsReferral (some k) (_ ∷ []) n amount e (p, _) =
      (p, referral_amount-part k n amount e)

  pub pay_referrer-eq-ok :
      (miner_info : A) (rest : List A) (o : Option ℕ) (n : ℕ) (r : Option Referrer)
      (es : List (Effect A))
      → pay_referrer steel miner_info rest o n ≡ ok (r, es)
      → (o ≡ none → n ≡ 0)
      → IsReferral o rest n n × (es ≡ map (λ to. send miner_info n to) rest) × (outflow es ≡ n)
  unfolding pay_referrer
  pay_referrer-eq-ok i [] none n r es h z = (z refl, ground arith, ground (arith, z refl))
  pay_referrer-eq-ok i (_ ∷ _) none n r es h z = cc
  pay_referrer-eq-ok i [] (some k) n r es h z = cc
  pay_referrer-eq-ok i (_ ∷ _ ∷ _) (some k) n r es h z = cc
  pay_referrer-eq-ok i (a ∷ []) (some k) n r es h z =
      let (x, _, h₁) = >>=-eq-ok (steel.as_referrer a) _ h in
      let (_, _, h₂) = >>=-eq-ok (steel.is_writable a) _ h₁ in
      let (_, e₃, h₃) = >>=-eq-ok (steel.has_address a k) _ h₂ in
      ((e₃, refl), ground arith, ground arith)

  pub rest_send-outflow :
      (from to : A) (n : ℕ) → outflow (if ltb 0 n then send from n to ∷ [] else []) ≡ n
  rest_send-outflow from to n = ground arith

  vault_rest-outflow :
      (account treasury_info rent_payer_info : A) (rent : ℕ) (t t' : Treasury N)
      (es : List (Effect A))
      → vault_rest steel account treasury_info rent_payer_info rent t ≡ ok (t', es)
      → (t'.balance ≡ t.balance + outflow es) × (outflow es ≡ steel.lamports account - rent)
  unfolding vault_rest
  vault_rest-outflow account ti ri rent t t' es h = ground arith

  -- what a claim of SOL pays
  record Paid (a : ClaimSolAccounts steel) (o : Option ℕ) (amount : ℕ) (c : ClaimedSol steel)
      : Type 0 where
    referral : ℕ
    rest : ℕ
    referred : IsReferral o a.rest referral (amount / 200)
    whole : referral + rest ≡ amount
    calls :
        c.effects
        ≡ map (λ to. send a.miner_info referral to) a.rest
          ++ (if ltb 0 rest then send a.miner_info rest a.signer_info ∷ [] else [])
    sent : outflow c.effects ≡ amount

  pay_claim-Paid :
      (a : ClaimSolAccounts steel) (m' : Miner N) (amount : ℕ) (c : ClaimedSol steel)
      → pay_claim steel a m' amount ≡ ok c
      → Paid a (referrer_account m') amount c × (c.miner ≡ m')
  unfolding pay_claim
  pay_claim-Paid a m' amount c h =
      let o = referrer_account m' in
      let (n, e₁, h₁) = >>=-eq-ok (referral_amount o amount) _ h in
      let (x, e₂, h₂) = >>=-eq-ok (checked_sub amount n invalid_instruction_data) _ h₁ in
      let ((r, es), e₃, h₃) = >>=-eq-ok (pay_referrer steel a.miner_info a.rest o n) _ h₂ in
      let (referred, calls, sent) =
        pay_referrer-eq-ok a.miner_info a.rest o n r es e₃
          (λ p. referral_none n amount (rw p at e₁)) in
      let split : n + x ≡ amount = ground arith in
      let last : List (Effect A) = if ltb 0 x then send a.miner_info x a.signer_info ∷ [] else [] in
      let all : outflow (es ++ last) ≡ amount =
        rw (outflow-++ es _, sent, rest_send-outflow a.miner_info a.signer_info x) split in
      rw (← ok-injective _ _ h₃) (
        record {
          referral = n;
          rest = x;
          referred = referral_amount-IsReferral o a.rest n amount e₁ referred;
          whole = split;
          calls = ap (λ z. z ++ last) calls;
          sent = all;
        },
        refl,
      )

  -- A claim of SOL that returns leaves nothing credited, and sends exactly what was credited, out of
  -- the miner's account: half a percent, rounded down, to the account that it is given with the
  -- address of the miner's referrer, if the miner has one, and the rest, if there is any, to the
  -- signer.
  pub claim_sol_pays :
      (a : ClaimSolAccounts steel) (clock : Clock) (m : Miner N) (c : ClaimedSol steel)
      → steel.as_miner a.miner_info ≡ ok m
      → process_claim_sol steel a clock ≡ ok c
      → (outflow c.effects ≡ m.rewards_sol)
        × (c.miner.rewards_sol ≡ 0)
        × ((referral rest : ℕ) × IsReferral
              (referrer_account m)
              a.rest
              referral
              (m.rewards_sol / 200)
            × (referral + rest ≡ m.rewards_sol)
            × (c.effects
                ≡ map (λ to. send a.miner_info referral to) a.rest
                  ++ (if ltb 0 rest then send a.miner_info rest a.signer_info ∷ [] else [])))
  unfolding process_claim_sol claim_sol referrer_account
  claim_sol_pays a clock m c loaded h =
      let (_, _, h₁) = >>=-eq-ok (steel.is_signer a.signer_info) _ h in
      let (m₁, e₂, h₂) = >>=-eq-ok (steel.as_miner a.miner_info) _ h₁ in
      let (_, _, h₃) = >>=-eq-ok (demand (m₁.authority == steel.key a.signer_info)) _ h₂ in
      let (_, _, h₄) = >>=-eq-ok (steel.is_system_program a.system_program) _ h₃ in
      let same : m₁ ≡ m = ok-functional _ m₁ m e₂ loaded in
      let emptied = record m₁ { rewards_sol = 0; last_claim_sol_at = clock.unix_timestamp } in
      let (paid, left) = pay_claim-Paid a emptied m₁.rewards_sol c h₄ in
      rw (← same) (
        paid.sent,
        ap (λ z. z.rewards_sol) left,
        (paid.referral, paid.rest, paid.referred, paid.whole, paid.calls),
      )

  abbrev pool_rest : CloseAccounts steel → ℕ
  pool_rest a =
      if steel.data_is_empty a.pool_round_info
      then 0
      else steel.lamports a.pool_round_info - steel.pool_round_rent

  close_pool_round-outflow :
      (a : CloseAccounts steel) (t t' : Treasury N) (es : List (Effect A))
      → close_pool_round steel a t ≡ ok (t', es)
      → (t'.balance ≡ t.balance + outflow es) × (outflow es ≡ pool_rest a)
  unfolding close_pool_round
  close_pool_round-outflow a t t' es h = elim (Bool-cases (steel.data_is_empty a.pool_round_info)) [
    | inl e ↦
        let (p, q) = ok-injective_pair t t' [] es (rw e at h) in
        rw (e, ← p, ← q) (omega arith, refl)
    | inr e ↦
        let (p, _, h₁) = >>=-eq-ok (steel.as_pool_round a.pool_round_info) _ (rw e at h) in
        let (_, _, h₂) = >>=-eq-ok (demand (p.rent_payer == steel.key a.rent_payer_info)) _ h₁ in
        rw e (
          vault_rest-outflow a.pool_round_info a.treasury_info a.rent_payer_info
            steel.pool_round_rent t t' es h₂)
  ]

  vault_round-outflow :
      (a : CloseAccounts steel) (r : Round) (t t' : Treasury N) (es : List (Effect A))
      → vault_round steel a r t ≡ ok (t', es)
      → (t'.balance ≡ t.balance + outflow es)
        × (outflow es ≡ steel.lamports a.round_info - steel.round_rent + pool_rest a)
  unfolding vault_round
  vault_round-outflow a r t t' es h =
      let ((t₁, es₁), e₁, h₁) =
        >>=-eq-ok
          (vault_rest steel a.round_info a.treasury_info a.rent_payer_info steel.round_rent t) _
          h in
      let (_, _, h₂) = >>=-eq-ok (steel.is_writable a.pool_round_info) _ h₁ in
      let (_, _, h₃) = >>=-eq-ok (steel.has_seeds a.pool_round_info (pool_round r.id)) _ h₂ in
      let ((t₂, es₂), e₄, h₄) = >>=-eq-ok (close_pool_round steel a t₁) _ h₃ in
      let (p, q) = ok-injective_pair t₂ t' (es₁ ++ es₂) es h₄ in
      let (u, v) =
        vault_rest-outflow a.round_info a.treasury_info a.rent_payer_info steel.round_rent t t₁ es₁
          e₁ in
      let (w, x) = close_pool_round-outflow a t₁ t₂ es₂ e₄ in
      rw (← p, ← q, outflow-++ es₁ es₂) (omega arith, omega arith)

  -- Closing a round adds to the treasury's balance just what is sent, and what is sent is all that
  -- the round's account holds beyond its rent, and the same of the pool round's, if there is one.
  pub close_vaults_rest :
      (a : CloseAccounts steel) (clock : Clock) (t t' : Treasury N) (es : List (Effect A))
      → steel.as_treasury a.treasury_info ≡ ok t
      → process_close steel a clock ≡ ok (t', es)
      → (t'.balance ≡ t.balance + outflow es)
        × (outflow es
            ≡ steel.lamports a.round_info
              - steel.round_rent
              + (if steel.data_is_empty a.pool_round_info
                  then 0
                  else steel.lamports a.pool_round_info - steel.pool_round_rent))
  unfolding process_close
  close_vaults_rest a clock t t' es loaded h =
      let (_, _, h₁) = >>=-eq-ok (steel.is_signer a.signer_info) _ h in
      let (_, _, h₂) = >>=-eq-ok (steel.is_writable a.rent_payer_info) _ h₁ in
      let (_, _, h₃) = >>=-eq-ok (steel.is_system_program a.system_program) _ h₂ in
      let (b, _, h₄) = >>=-eq-ok (steel.as_board a.board_info) _ h₃ in
      let (t₁, e₅, h₅) = >>=-eq-ok (steel.as_treasury a.treasury_info) _ h₄ in
      let (r, _, h₆) = >>=-eq-ok (steel.as_round a.round_info) _ h₅ in
      let (_, _, h₇) = >>=-eq-ok (demand (ltb r.id b.round_id)) _ h₆ in
      let (_, _, h₈) = >>=-eq-ok (demand (ltb r.expires_at clock.slot)) _ h₇ in
      let (_, _, h₉) = >>=-eq-ok (demand (r.rent_payer == steel.key a.rent_payer_info)) _ h₈ in
      rw (ok-functional _ t t₁ loaded e₅) (vault_round-outflow a r t₁ t' es h₉)
