-- ===== src/Otc/Books.antt =====
-- The desk's books against what its instructions move.
use godl_program.Base.{
  ℕ, zero, suc, ◌+◌, ◌≡◌, ◌∙◌, Bool, true, refl, sym, ap, List, [], ◌∷◌, ◌++◌, Option, none, ok,
  arith, godl, insufficient_otc_godl_balance, stake_overflow, >>=-eq-ok, ok-injective_triple,
  ok-injective_quad, checked_add, require, ltb, ◌==◌, min,
}
use mathlib.Core.Path.{subst}
use godl_program.Numeric.{Numeric}
use godl_program.Treasury.{Clock, Treasury}
use godl_program.Miner.{Miner}
use godl_program.Gold.{GoldVault, MinerExtended}
use godl_program.StakeV2.{StakeV2, deposit, raise_total, weighted_units}
use godl_program.StakeV2.Frame.{update_rewards-SameWeight}
use godl_program.Extended.{load_or_create_miner_extended, sync_gold_rewards}
use godl_program.Staking.{received}
use godl_program.Staking.Deposits.{fresh_stake}
use godl_program.Otc.{OtcTreasury, OtcUser}
use godl_program.Otc.Quotes.{Quote, book_trade}
use godl_program.Otc.Trade.{
  TradeAccounts, open_buyer, open_user, open_stake_tokens, lock_in, add_bonus, pay_bonus, bonus_leg,
}
use godl_program.StakeV2
use godl_program.Miner
use godl_program.Runtime.{Steel, Effect, Seeds, create, transfer, stake_v2}
use godl_program.Runtime.Flows.{
  token_flow, token_flow-++, collected, collected-++, outflow, outflow-++,
}

pub book_trade-eq-ok :
    (total sol_in : ℕ) (o o' : OtcTreasury)
    → book_trade total sol_in o ≡ ok o'
    → (o'.godl_balance + total ≡ o.godl_balance) × (o'.sol_balance ≡ o.sol_balance + sol_in)
unfolding book_trade
book_trade-eq-ok total sol_in o o' h = (ground arith, ground arith)

add_zero : (n : ℕ) → n + 0 ≡ n
add_zero n = omega arith

module _ {A : Type 0} where
  -- neither tokens nor lamports move
  abbrev pub IsStill : List (Effect A) → Type 0
  IsStill es = (token_flow es ≡ 0) × (collected es ≡ 0) × (outflow es ≡ 0)

  -- just these tokens move
  abbrev pub MovesTokens : List (Effect A) → ℕ → Type 0
  MovesTokens es n = (token_flow es ≡ n) × (collected es ≡ 0) × (outflow es ≡ 0)

  pub MovesTokens-++ :
      (xs ys : List (Effect A)) (m n : ℕ)
      → MovesTokens xs m
      → MovesTokens ys n
      → MovesTokens (xs ++ ys) (m + n)
  MovesTokens-++ xs ys m n (a, b, c) (d, e, f) = (
    omega (arith, token_flow-++ xs ys, a, d),
    omega (arith, collected-++ xs ys, b, e),
    omega (arith, outflow-++ xs ys, c, f),
  )

  -- an account is created, its token account opened, and filled
  opening-MovesTokens :
      (account payer from to : A) (seeds : Seeds) (opened es : List (Effect A)) (n out : ℕ)
      → IsStill opened
      → n ≡ out
      → (create account seeds payer ∷ (opened ++ (transfer from to n ∷ []))) ≡ es
      → MovesTokens es out
  opening-MovesTokens account payer from to seeds opened es n out still full w =
      let filled = transfer from to n ∷ [] in
      let (x, y, z) = MovesTokens-++ opened filled 0 n still (omega arith, refl, refl) in
      subst (λ l. MovesTokens l out) w (omega (arith, x), omega (arith, y), omega (arith, z))

module _ {N : Type 0} ⦃num : Numeric N⦄ where
  deposit-balance :
      (c : Clock) (amount n available : ℕ) (s s' : StakeV2 N) (t t' : Treasury N)
      → deposit s amount c t available ≡ ok (n, s', t')
      → (s'.balance ≡ s.balance + n) × (t'.total_unclaimed ≡ t.total_unclaimed)
  unfolding deposit raise_total
  deposit-balance c amount n available s s' t t' h =
      let (s₁, e₁, h₁) = >>=-eq-ok (StakeV2.update_rewards s t) _ h in
      let (u, e₂, h₂) = >>=-eq-ok (weighted_units s₁) _ h₁ in
      let taken = min available amount in
      let (b, e₃, h₃) = >>=-eq-ok (checked_add s₁.balance taken (godl stake_overflow)) _ h₂ in
      let s₂ = record s₁ { balance = b; last_deposit_at = c.unix_timestamp } in
      let (v, e₄, h₄) = >>=-eq-ok (weighted_units s₂) _ h₃ in
      let (t₁, e₅, h₅) = >>=-eq-ok (raise_total u v t) _ h₄ in
      let (p, q, r) = ok-injective_triple _ n s₂ s' t₁ t' h₅ in
      let (same, _, _, _) = update_rewards-SameWeight s s₁ t e₁ in
      let added : b ≡ s₁.balance + taken = ground arith in
      let kept : t₁.total_unclaimed ≡ t.total_unclaimed = ground arith in
      (
        omega (arith, added, same, p, sym (ap (λ x. x.balance) q)),
        sym (ap (λ x. x.total_unclaimed) r) ∙ kept,
      )

module _ {N A : Type 0} ⦃num : Numeric N⦄ (steel : Steel N A) where
  pub open_buyer-IsStill :
      (a : TradeAccounts steel) (m : Miner N) (es : List (Effect A))
      → open_buyer steel a ≡ ok (m, es)
      → IsStill es
  unfolding open_buyer
  open_buyer-IsStill a m es h = (ground arith, ground arith, ground arith)

  pub open_user-IsStill :
      (a : TradeAccounts steel) (u : OtcUser) (es : List (Effect A))
      → open_user steel a ≡ ok (u, es)
      → IsStill es
  unfolding open_user
  open_user-IsStill a u es h = (ground arith, ground arith, ground arith)

  open_stake_tokens-IsStill :
      (a : TradeAccounts steel) (held : ℕ) (es : List (Effect A))
      → open_stake_tokens steel a ≡ ok (held, es)
      → IsStill es
  unfolding open_stake_tokens
  open_stake_tokens-IsStill a held es h = (ground arith, ground arith, ground arith)

  load_or_create-IsStill :
      (info payer : A) (vault : GoldVault N) (authority : ℕ) (creates : Bool)
      (o : Option (MinerExtended N)) (es : List (Effect A))
      → load_or_create_miner_extended steel info vault authority payer creates ≡ ok (o, es)
      → IsStill es
  unfolding load_or_create_miner_extended
  load_or_create-IsStill info payer vault authority creates o es h =
      (ground arith, ground arith, ground arith)

  -- the position gets the quote's GODL in full, and just that moves
  pub lock_in-eq-ok :
      (a : TradeAccounts steel) (c : Clock) (q : Quote) (available held : ℕ) (s : StakeV2 N)
      (t t' : Treasury N) (es : List (Effect A))
      → lock_in steel a c q available t ≡ ok (s, t', held, es)
      → MovesTokens es q.godl_out
        × (s.balance ≡ q.godl_out)
        × (t'.total_unclaimed ≡ t.total_unclaimed)
  unfolding lock_in
  lock_in-eq-ok a c q available held s t t' es h =
      let buyer = steel.key a.buyer_info in
      let s₀ = fresh_stake buyer buyer c q.stake_id q.lock_duration t in
      let (s₁, e₁, h₁) = >>=-eq-ok (StakeV2.update_rewards s₀ t) _ h in
      let ((had, opened), e₂, h₂) = >>=-eq-ok (open_stake_tokens steel a) _ h₁ in
      let ((n, s₂, t₂), e₃, h₃) = >>=-eq-ok (deposit s₁ q.godl_out c t available) _ h₂ in
      let (_, e₄, h₄) =
        >>=-eq-ok (require (n == q.godl_out) (godl insufficient_otc_godl_balance)) _ h₃ in
      let (v, e₅, h₅) = >>=-eq-ok (received had n) _ h₄ in
      let (p, r, _, w) = ok-injective_quad s₂ s t₂ t' v held _ es h₅ in
      let full : n ≡ q.godl_out = ground arith in
      let (same, _, _, _) = update_rewards-SameWeight s₀ s₁ t e₁ in
      let (grown, kept) = deposit-balance c q.godl_out n available s₁ s₂ t t₂ e₃ in
      (
        opening-MovesTokens a.stake_info a.buyer_info a.otc_treasury_tokens_info a.stake_tokens_info
            (stake_v2 buyer q.stake_id) opened es n q.godl_out
            (open_stake_tokens-IsStill a had opened e₂) full w,
        sym (ap (λ x. x.balance) p) ∙ omega (arith, grown, same, full),
        sym (ap (λ x. x.total_unclaimed) r) ∙ kept,
      )

  pay_bonus-eq-ok :
      (a : TradeAccounts steel) (bonus : ℕ) (vault : GoldVault N) (m m' : Miner N)
      (t t' : Treasury N) (o : Option (MinerExtended N)) (es : List (Effect A))
      → pay_bonus steel a bonus vault m t ≡ ok (m', t', o, es)
      → MovesTokens es bonus × (t'.total_unclaimed ≡ t.total_unclaimed + bonus)
  unfolding pay_bonus add_bonus
  pay_bonus-eq-ok a bonus vault m m' t t' o es h =
      let ((x, created), e₁, h₁) =
        >>=-eq-ok
          (load_or_create_miner_extended steel a.miner_extended_info vault (steel.key a.buyer_info)
            a.buyer_info true)
          _ h in
      let (settled, e₂, h₂) = >>=-eq-ok (Miner.update_rewards m t) _ h₁ in
      let (x', e₃, h₃) = >>=-eq-ok (sync_gold_rewards x vault settled) _ h₂ in
      let ((m₁, t₁), e₄, h₄) = >>=-eq-ok (add_bonus steel bonus settled t) _ h₃ in
      let (_, r, _, w) = ok-injective_quad m₁ m' t₁ t' x' o _ es h₄ in
      let still =
        load_or_create-IsStill a.miner_extended_info a.buyer_info vault (steel.key a.buyer_info)
          true x created e₁ in
      let grown : t₁.total_unclaimed ≡ t.total_unclaimed + bonus = ground arith in
      let first = transfer a.otc_treasury_tokens_info a.treasury_tokens_info bonus ∷ [] in
      let moved : MovesTokens (first ++ created) (bonus + 0) =
        MovesTokens-++ first created bonus 0 (omega arith, refl, refl) still in
      (
        subst (λ z. MovesTokens z bonus) w (rw (add_zero bonus) at moved),
        sym (ap (λ x. x.total_unclaimed) r) ∙ grown,
      )

  pub bonus_leg-eq-ok :
      (a : TradeAccounts steel) (bonus : ℕ) (vault : GoldVault N) (m m' : Miner N)
      (t t' : Treasury N) (o : Option (MinerExtended N)) (es : List (Effect A))
      → bonus_leg steel a bonus vault m t ≡ ok (m', t', o, es)
      → MovesTokens es bonus × (t'.total_unclaimed ≡ t.total_unclaimed + bonus)
  unfolding bonus_leg
  bonus_leg-eq-ok a zero vault m m' t t' o es h =
      let (_, r, _, w) = ok-injective_quad m m' t t' none o [] es h in
      (
        subst (λ z. MovesTokens z 0) w (refl, refl, refl),
        omega (arith, sym (ap (λ x. x.total_unclaimed) r)),
      )
  bonus_leg-eq-ok a (suc n) vault m m' t t' o es h =
      let some_bonus : ltb 0 (suc n) ≡ true = ground arith in
      pay_bonus-eq-ok a (suc n) vault m m' t t' o es (rw some_bonus at h)
