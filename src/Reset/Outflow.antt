-- ===== src/Reset/Outflow.antt =====
-- The SOL that leaves a round when it is closed.
use godl_program.Base.{
  ℕ, ◌+◌, ◌≡◌, List, [], ◌∷◌, ◌++◌, Result, ok, arith, ltb, leb, refl, ◌∙◌, sym, ap, Bool-cases,
  inl, inr, >>=-eq-ok, ok-injective, ok-injective_quad, ok-injective_triple, add_u64, sub_u64,
  panic, require, if◌then◌else◌, get_or,
}
use godl_program.Round.{Config, Round, calculate_total_winnings, is_split_reward}
use godl_program.Treasury.{Treasury}
use godl_program.Gold.{SolMotherlode}
use godl_program.Runtime.{Steel, Effect, send}
use godl_program.Runtime.Flows.{outflow, outflow-++}
use godl_program.Reset.{
  Division, divide, Accounts, vault_all, divide_round, mint_new, mint_amounts, pay_motherlode,
  pay_winners, name_top, pay_division, fees_lenient, fees_strict, top_miner_lenient,
  top_miner_strict,
}

module _ {A : Type 0} where
  -- sends that pay out exactly the fee
  abbrev pub PaysFee : (ℕ → List (Effect A)) → Type 0
  PaysFee fee_sends = (n : ℕ) → outflow (fee_sends n) ≡ n

-- the choice of the top miner writes nothing else
abbrev pub NamesOnly : (Round → ℕ → ℕ → Result Round) → Type 0
NamesOnly top =
    (r r' : Round) (random square : ℕ)
    → top r random square ≡ ok r'
    → (r'.total_winnings ≡ r.total_winnings) × (r'.total_vaulted ≡ r.total_vaulted)

module _ {N A : Type 0} (steel : Steel N A) where
  pub fees_lenient-PaysFee : (a : Accounts steel) → PaysFee (fees_lenient steel a)
  unfolding fees_lenient
  fees_lenient-PaysFee a n = omega arith

  pub fees_strict-PaysFee : (a : Accounts steel) → PaysFee (fees_strict steel a)
  unfolding fees_strict
  fees_strict-PaysFee a n = omega arith

  mint_new-outflow :
      (a : Accounts steel) (n : ℕ) (es : List (Effect A))
      → mint_new steel a n ≡ ok es
      → outflow es ≡ 0
  unfolding mint_new
  mint_new-outflow a n es h = ground arith

  pub vault_all-outflow :
      (a : Accounts steel) (fee_sends : ℕ → List (Effect A)) (r r' : Round) (t t' : Treasury N)
      (s s' : SolMotherlode) (admin_fee lode : ℕ) (es : List (Effect A))
      → PaysFee fee_sends
      → vault_all steel a fee_sends r t s admin_fee lode ≡ ok (r', t', s', es)
      → (outflow es ≡ r.total_deployed)
        × (admin_fee + lode + r'.total_vaulted ≡ r.total_deployed)
        × (t'.balance ≡ t.balance + r'.total_vaulted)
        × (s'.amount ≡ s.amount + lode)
  unfolding vault_all
  vault_all-outflow a fs r r' t t' s s' admin lode es pays h =
      let (rest, e₁, h₁) = >>=-eq-ok (sub_u64 r.total_deployed admin) _ h in
      let (vaulted, e₂, h₂) = >>=-eq-ok (sub_u64 rest lode) _ h₁ in
      let (balance, e₃, h₃) = >>=-eq-ok (add_u64 t.balance vaulted) _ h₂ in
      let (amount, e₄, h₄) = >>=-eq-ok (add_u64 s.amount lode) _ h₃ in
      let (p, q, u, v) = ok-injective_quad _ _ _ _ _ _ _ _ h₄ in
      let split : admin + lode + vaulted ≡ r.total_deployed = ground arith in
      let paid_out : outflow es ≡ r.total_deployed =
        rw (← v, outflow-++ (fs admin) _, pays admin) (omega arith) in
      (paid_out, rw (← p) split, rw (← p, ← q) (ground arith), rw (← u) (ground arith))

  divide_round-sol :
      (r r' : Round) (t t' : Treasury N) (d : Division) (square : ℕ)
      → divide_round steel r t square ≡ ok (d, r', t')
      → ((losing : ℕ) × (calculate_total_winnings r square ≡ ok losing) × (divide losing ≡ ok d))
        × (r'.total_winnings ≡ d.winnings)
        × (r'.total_vaulted ≡ d.vault)
        × (t'.balance ≡ t.balance + d.vault)
  unfolding divide_round
  divide_round-sol r r' t t' d square h =
      let (losing, e₁, h₁) = >>=-eq-ok (calculate_total_winnings r square) _ h in
      let (d₁, e₂, h₂) = >>=-eq-ok (divide losing) _ h₁ in
      let (balance, e₃, h₃) = >>=-eq-ok (add_u64 t.balance d₁.vault) _ h₂ in
      let (out₁, e₄, h₄) = >>=-eq-ok (add_u64 d₁.vault d₁.winnings) _ h₃ in
      let (out₂, e₅, h₅) = >>=-eq-ok (add_u64 out₁ (get_or r.deployed square 0)) _ h₄ in
      let (out₃, e₆, h₆) = >>=-eq-ok (add_u64 out₂ d₁.fees) _ h₅ in
      let (_, e₇, h₇) = >>=-eq-ok (require (leb out₃ r.total_deployed) panic) _ h₆ in
      let (p, q, u) = ok-injective_triple _ _ _ _ _ _ h₇ in
      rw (← p, ← q, ← u) ((losing, e₁, e₂), refl, refl, ground arith)

  pay_motherlode-sol :
      (r : Round) (t : Treasury N) (random : ℕ)
      → let (r', t') = pay_motherlode r t random in
        (r'.total_winnings ≡ r.total_winnings)
        × (r'.total_vaulted ≡ r.total_vaulted)
        × (t'.balance ≡ t.balance)
  unfolding pay_motherlode
  pay_motherlode-sol r t random = ground arith

  -- the parts of the SOL that a closed round pays out and records
  pub record Books (r r' : Round) (t t' : Treasury N) (s s' : SolMotherlode)
      (admin_fee lode square : ℕ) (es : List (Effect A)) : Type 0 where
    pub losing : ℕ
    pub division : Division
    pub total : calculate_total_winnings r square ≡ ok losing
    pub divided : divide losing ≡ ok division
    pub winnings : r'.total_winnings ≡ division.winnings
    pub vaulted : r'.total_vaulted ≡ division.vault
    pub balance : t'.balance ≡ t.balance + division.vault
    pub amount : s'.amount ≡ s.amount + lode
    pub sent : outflow es ≡ admin_fee + lode + division.vault

  lode_send-outflow :
      (from to : A) (n : ℕ) → outflow (if ltb 0 n then send from n to ∷ [] else []) ≡ n
  lode_send-outflow from to n = ground arith

  name_top-NamesOnly :
      (top : Round → ℕ → ℕ → Result Round) → NamesOnly top → NamesOnly (name_top steel top)
  unfolding name_top
  name_top-NamesOnly top names r r' random square h = elim (Bool-cases (is_split_reward random)) [
    | inl e ↦ rw (← ok-injective _ _ (rw e at h)) (refl, refl)
    | inr e ↦ names r r' random square (rw e at h)
  ]

  add_u64-eq-ok : (a b c : ℕ) → add_u64 a b ≡ ok c → c ≡ a + b
  add_u64-eq-ok a b c h = ground arith

  sends-outflow :
      (fee_sends : ℕ → List (Effect A)) (from lode_to vault_to : A) (minted : List (Effect A))
      (admin_fee lode vault : ℕ)
      → PaysFee fee_sends
      → outflow minted ≡ 0
      → outflow (
          minted
          ++ ((if ltb 0 lode then send from lode lode_to ∷ [] else [])
              ++ (fee_sends admin_fee ++ (send from vault vault_to ∷ []))))
        ≡ admin_fee + lode + vault
  sends-outflow fs from lode_to vault_to minted admin lode vault pays nothing =
      rw
        (
          outflow-++ minted _,
          outflow-++ (if ltb 0 lode then send from lode lode_to ∷ [] else []) _,
          outflow-++ (fs admin) _,
          nothing,
          pays admin,
          lode_send-outflow from lode_to lode,
        )
        (omega arith)

  pay_division-sol :
      (a : Accounts steel) (fee_sends : ℕ → List (Effect A)) (d : Division) (r r' : Round)
      (t t' : Treasury N) (s s' : SolMotherlode) (random lode_mint total_mint admin_fee lode : ℕ)
      (es : List (Effect A))
      → PaysFee fee_sends
      → pay_division steel a fee_sends d r t s random lode_mint total_mint admin_fee lode
        ≡ ok (r', t', s', es)
      → (r'.total_winnings ≡ r.total_winnings)
        × (r'.total_vaulted ≡ r.total_vaulted)
        × (t'.balance ≡ t.balance)
        × (s'.amount ≡ s.amount + lode)
        × (outflow es ≡ admin_fee + lode + d.vault)
  unfolding pay_division
  pay_division-sol a fs d r r' t t' s s' random lode_mint total admin lode es pays h =
      let t₁ = (pay_motherlode r t random).1 in
      let (pool, e₁, h₁) = >>=-eq-ok (add_u64 t₁.motherlode lode_mint) _ h in
      let (minted, e₂, h₂) = >>=-eq-ok (mint_new steel a total) _ h₁ in
      let (amount, e₃, h₃) = >>=-eq-ok (add_u64 s.amount lode) _ h₂ in
      let (p, q, u, v) = ok-injective_quad _ _ _ _ _ _ _ _ h₃ in
      let (w, x, y) = pay_motherlode-sol r t random in
      (
        sym (ap (λ x. x.total_winnings) p) ∙ w,
        sym (ap (λ x. x.total_vaulted) p) ∙ x,
        sym (ap (λ x. x.balance) q) ∙ y,
        sym (ap (λ x. x.amount) u) ∙ add_u64-eq-ok s.amount lode amount e₃,
        sym (ap outflow v)
            ∙ sends-outflow fs a.round_info a.sol_motherlode_info a.treasury_info minted admin lode
                d.vault pays (mint_new-outflow a total minted e₂),
      )

  pub pay_winners-Books :
      (a : Accounts steel) (c : Config) (supply : ℕ) (fee_sends : ℕ → List (Effect A))
      (top : Round → ℕ → ℕ → Result Round) (r r' : Round) (t t' : Treasury N) (s s' : SolMotherlode)
      (random square admin_fee lode : ℕ) (es : List (Effect A))
      → PaysFee fee_sends
      → NamesOnly top
      → pay_winners steel a c supply fee_sends top r t s random square admin_fee lode
        ≡ ok (r', t', s', es)
      → Books r r' t t' s s' admin_fee lode square es
  unfolding pay_winners
  pay_winners-Books a c supply fs top r r' t t' s s' random square admin lode es pays names h =
      let ((d, r₁, t₁), e₁, h₁) = >>=-eq-ok (divide_round steel r t square) _ h in
      let ((mint, lode_mint), e₂, h₂) = >>=-eq-ok (mint_amounts c supply) _ h₁ in
      let (total, e₃, h₃) = >>=-eq-ok (add_u64 mint lode_mint) _ h₂ in
      let (r₂, e₄, h₄) =
        >>=-eq-ok (name_top steel top (record r₁ { top_miner_reward = mint }) random square) _ h₃ in
      let (known, winnings, vaulted, balance) = divide_round-sol r r₁ t t₁ d square e₁ in
      let (same_winnings, same_vaulted) =
        name_top-NamesOnly top names (record r₁ { top_miner_reward = mint }) r₂ random square e₄ in
      let after =
        pay_division-sol a fs d r₂ r' t₁ t' s s' random lode_mint total admin lode es pays h₄ in
      record {
        losing = known.0;
        division = d;
        total = known.1;
        divided = known.2;
        winnings = after.0 ∙ same_winnings ∙ winnings;
        vaulted = after.1 ∙ same_vaulted ∙ vaulted;
        balance = after.2 ∙ balance;
        amount = after.3;
        sent = after.4;
      }

  -- Both ways to choose the top miner leave the round's SOL amounts alone.
  pub top_miner_lenient-NamesOnly : (a : Accounts steel) → NamesOnly (top_miner_lenient steel a)
  unfolding top_miner_lenient
  top_miner_lenient-NamesOnly a r r' random square h = ground arith

  pub top_miner_strict-NamesOnly : (a : Accounts steel) → NamesOnly (top_miner_strict steel a)
  unfolding top_miner_strict
  top_miner_strict-NamesOnly a r r' random square h = ground arith
