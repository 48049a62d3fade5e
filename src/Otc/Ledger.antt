-- ===== src/Otc/Ledger.antt =====
-- Trades as a whole, and the history of the desk.
use godl_program.Base.{
  ℕ, ◌+◌, ◌≤◌, ◌≡◌, sym, ap, List, ◌∷◌, ◌++◌, ok, arith, godl, panic, arithmetic_overflow,
  insufficient_otc_godl_balance, stake_already_exists, >>=-eq-ok, ok-injective, ok-functional,
  checked_add, require, leb,
}
use mathlib.Core.Path.{subst}
use godl_program.Numeric.{Numeric}
use godl_program.Treasury.{Clock, Treasury}
use godl_program.Gold.{GoldVault}
use godl_program.Otc.{OtcTreasury}
use godl_program.Otc.Desk.{
  DeskAccounts, process_initialize_otc_treasury, load_to_fund, load_to_drain, fund,
  process_fund_godl_otc, drain, process_withdraw_sol_otc,
}
use godl_program.Otc.Quotes.{Quote, check_quote, book_trade, record_trade}
use godl_program.Otc.Trade.{
  TradeAccounts, Traded, check_trade, open_buyer, open_user, lock_in, bonus_leg, fill_trade, trade,
  process_execute_otc_trade,
}
use godl_program.Otc.Books.{
  IsStill, MovesTokens, MovesTokens-++, book_trade-eq-ok, open_buyer-IsStill, open_user-IsStill,
  lock_in-eq-ok, bonus_leg-eq-ok,
}
use godl_program.Runtime.{Steel, Effect, collect}
use godl_program.Runtime.Flows.{token_flow, collected, outflow}

plus_after : (x y z n : ℕ) → x ≡ y + n → y ≡ z → x ≡ z + n
plus_after x y z n p q = omega (arith, p, q)

module _ {N A : Type 0} ⦃num : Numeric N⦄ (steel : Steel N A) where
  -- the quote is filled with the desk's tokens and the treasury's books
  abbrev pub Filled : Quote → Treasury N → Traded steel → Type 0
  Filled q t r =
      (token_flow r.effects ≡ q.godl_out + q.godl_bonus)
      × (collected r.effects ≡ q.sol_in)
      × (outflow r.effects ≡ 0)
      × (r.stake_after.balance ≡ q.godl_out)
      × (q.godl_out ≤ r.vault)
      × (r.treasury_after.total_unclaimed ≡ t.total_unclaimed + q.godl_bonus)

  collecting :
      (a : TradeAccounts steel) (n m : ℕ) (es : List (Effect A))
      → MovesTokens es m
      → let all = collect a.otc_treasury_info n a.buyer_info ∷ es in
        (token_flow all ≡ m) × (collected all ≡ n) × (outflow all ≡ 0)
  collecting a n m es (x, y, z) = (omega (arith, x), omega (arith, y), omega (arith, z))

  trade_effects :
      (xs ys zs ws : List (Effect A)) (n m : ℕ)
      → IsStill xs
      → IsStill ys
      → MovesTokens zs n
      → MovesTokens ws m
      → MovesTokens (xs ++ (ys ++ (zs ++ ws))) (n + m)
  trade_effects xs ys zs ws n m p q r s =
      let last = MovesTokens-++ zs ws n m r s in
      let (x, y, z) =
        MovesTokens-++ xs (ys ++ (zs ++ ws)) 0 (0 + (n + m)) p
          (MovesTokens-++ ys (zs ++ ws) 0 (n + m) q last) in
      (omega (arith, x), y, z)

  fill_trade-Filled :
      (a : TradeAccounts steel) (c : Clock) (q : Quote) (available : ℕ) (vault : GoldVault N)
      (o : OtcTreasury) (r : Traded steel)
      → fill_trade steel a c q available vault o ≡ ok r
      → (r.desk_after ≡ o)
        × ((t : Treasury N) × (steel.as_treasury a.treasury_info ≡ ok t) × Filled q t r)
  unfolding fill_trade
  fill_trade-Filled a c q available vault o r h =
      let ((m, created), e₁, h₁) = >>=-eq-ok (open_buyer steel a) _ h in
      let ((u, created_user), e₂, h₂) = >>=-eq-ok (open_user steel a) _ h₁ in
      let (t, e₃, h₃) = >>=-eq-ok (steel.as_treasury a.treasury_info) _ h₂ in
      let ((s, t₁, held, locked), e₄, h₄) = >>=-eq-ok (lock_in steel a c q available t) _ h₃ in
      let ((m', t₂, x, paid), e₅, h₅) =
        >>=-eq-ok (bonus_leg steel a q.godl_bonus vault m t₁) _ h₄ in
      let (u', e₆, h₆) = >>=-eq-ok (record_trade q u) _ h₅ in
      let (_, e₇, h₇) = >>=-eq-ok (require (leb s.balance held) panic) _ h₆ in
      let (moved, balance, kept) = lock_in-eq-ok steel a c q available held s t t₁ locked e₄ in
      let (bonus, unclaimed) = bonus_leg-eq-ok steel a q.godl_bonus vault m m' t₁ t₂ x paid e₅ in
      let backed : s.balance ≤ held = ground arith in
      let all =
        trade_effects created created_user locked paid q.godl_out q.godl_bonus
          (open_buyer-IsStill steel a m created e₁) (open_user-IsStill steel a u created_user e₂)
          moved bonus in
      let (tokens, sol, out) = collecting a q.sol_in _ _ all in
      let same = ok-injective _ r h₇ in
      (
        ap (λ z. z.desk_after) (sym same),
        (
          t,
          e₃,
          subst (λ z. Filled q t z) same
              (
                omega (arith, tokens),
                sol,
                out,
                balance,
                subst (λ z. z ≤ held) balance backed,
                plus_after _ _ _ _ unclaimed kept,
              ),
        ),
      )

  trade_books :
      (o o₁ o₂ : OtcTreasury) (n : ℕ) (q : Quote) (t : Treasury N) (r : Traded steel)
      → o ≡ o₁
      → r.desk_after ≡ o₂
      → book_trade n q.sol_in o₁ ≡ ok o₂
      → n ≡ q.godl_out + q.godl_bonus
      → Filled q t r
      → (r.desk_after.godl_balance + token_flow r.effects ≡ o.godl_balance)
        × (r.desk_after.sol_balance ≡ o.sol_balance + collected r.effects)
        × Filled q t r
  trade_books o o₁ o₂ n q t r same after booked exact filled =
      let (left, sol) = book_trade-eq-ok n q.sol_in o₁ o₂ booked in
      let (tokens, collects, _, _, _, _) = filled in
      let godl_after = ap (λ z. z.godl_balance) after in
      let godl_before = ap (λ z. z.godl_balance) same in
      let sol_after = ap (λ z. z.sol_balance) after in
      let sol_before = ap (λ z. z.sol_balance) same in
      (
        omega (arith, godl_after, godl_before, left, tokens, exact),
        omega (arith, sol_after, sol_before, sol, collects),
        filled,
      )

  -- A trade that goes through takes the quote's GODL and its bonus off the desk's balance, and moves
  -- just these tokens; it adds the quote's SOL to the desk's balance, and collects just that. The new
  -- position's balance is the quote's GODL, which its token account holds, and the bonus is added to
  -- the treasury's unclaimed GODL.
  pub trade_settles :
      (a : TradeAccounts steel) (c : Clock) (q : Quote) (o : OtcTreasury) (t : Treasury N)
      (r : Traded steel)
      → steel.as_otc_treasury a.otc_treasury_info ≡ ok o
      → steel.as_treasury a.treasury_info ≡ ok t
      → process_execute_otc_trade steel a c q ≡ ok r
      → (r.desk_after.godl_balance + token_flow r.effects ≡ o.godl_balance)
        × (r.desk_after.sol_balance ≡ o.sol_balance + collected r.effects)
        × Filled q t r
  unfolding process_execute_otc_trade trade
  trade_settles a c q o t r d e h =
      let ((available, vault), e₁, h₁) = >>=-eq-ok (check_trade steel a q.stake_id) _ h in
      let (_, e₂, h₂) = >>=-eq-ok (check_quote c q) _ h₁ in
      let (_, e₃, h₃) =
        >>=-eq-ok (require (steel.data_is_empty a.stake_info) (godl stake_already_exists)) _ h₂ in
      let (n, e₄, h₄) = >>=-eq-ok (checked_add q.godl_out q.godl_bonus arithmetic_overflow) _ h₃ in
      let (_, e₅, h₅) =
        >>=-eq-ok (require (leb n available) (godl insufficient_otc_godl_balance)) _ h₄ in
      let (o₁, e₆, h₆) = >>=-eq-ok (steel.as_otc_treasury a.otc_treasury_info) _ h₅ in
      let (o₂, e₇, h₇) = >>=-eq-ok (book_trade n q.sol_in o₁) _ h₆ in
      let (after, (t₁, loaded, filled)) = fill_trade-Filled a c q available vault o₂ r h₇ in
      let exact : n ≡ q.godl_out + q.godl_bonus = ground arith in
      trade_books o o₁ o₂ n q t r (ok-functional _ o o₁ d e₆) after e₇ exact
        (subst (λ z. Filled q z r) (ok-functional _ t₁ t loaded e) filled)

module _ (N A : Type 0) ⦃num : Numeric N⦄ where
  -- The desk and, since it was opened, the GODL that it got and gave, and the SOL that it got and
  -- gave: what the instructions moved. Each instruction runs on its own accounts.
  pub data Dealt : OtcTreasury → ℕ → ℕ → ℕ → ℕ → Type 0 where
    opens :
        (steel : Steel N A) (a : DeskAccounts steel) (o : OtcTreasury) (es : List (Effect A))
        → process_initialize_otc_treasury steel a ≡ ok (o, es)
        → Dealt o 0 0 0 0
    funds :
        (steel : Steel N A) (a : DeskAccounts steel) (amount : ℕ) (o o' : OtcTreasury)
        (es : List (Effect A)) (got gave earned paid : ℕ)
        → steel.as_otc_treasury a.otc_treasury_info ≡ ok o
        → process_fund_godl_otc steel a amount ≡ ok (o', es)
        → Dealt o got gave earned paid
        → Dealt o' (got + token_flow es) gave earned paid
    trades :
        (steel : Steel N A) (a : TradeAccounts steel) (c : Clock) (q : Quote) (o : OtcTreasury)
        (t : Treasury N) (r : Traded steel) (got gave earned paid : ℕ)
        → steel.as_otc_treasury a.otc_treasury_info ≡ ok o
        → steel.as_treasury a.treasury_info ≡ ok t
        → process_execute_otc_trade steel a c q ≡ ok r
        → Dealt o got gave earned paid
        → Dealt r.desk_after got (gave + token_flow r.effects) (earned + collected r.effects) paid
    drains :
        (steel : Steel N A) (a : DeskAccounts steel) (o o' : OtcTreasury) (es : List (Effect A))
        (got gave earned paid : ℕ)
        → steel.as_otc_treasury a.otc_treasury_info ≡ ok o
        → process_withdraw_sol_otc steel a ≡ ok (o', es)
        → Dealt o got gave earned paid
        → Dealt o' got gave earned (paid + outflow es)

  desk_opens :
      (steel : Steel N A) (a : DeskAccounts steel) (o : OtcTreasury) (es : List (Effect A))
      → process_initialize_otc_treasury steel a ≡ ok (o, es)
      → (o.godl_balance ≡ 0) × (o.sol_balance ≡ 0)
  unfolding process_initialize_otc_treasury
  desk_opens steel a o es h = (ground arith, ground arith)

  fund-eq-ok :
      (steel : Steel N A) (a : DeskAccounts steel) (amount : ℕ) (o o' : OtcTreasury)
      (es : List (Effect A))
      → fund steel a amount o ≡ ok (o', es)
      → (o'.godl_balance ≡ o.godl_balance + token_flow es) × (o'.sol_balance ≡ o.sol_balance)
  unfolding fund
  fund-eq-ok steel a amount o o' es h = (ground arith, ground arith)

  drain-eq-ok :
      (steel : Steel N A) (a : DeskAccounts steel) (o o' : OtcTreasury) (es : List (Effect A))
      → ok (drain steel a o) ≡ ok (o', es)
      → (o'.godl_balance ≡ o.godl_balance) × (o'.sol_balance + outflow es ≡ o.sol_balance)
  unfolding drain
  drain-eq-ok steel a o o' es h = (ground arith, ground arith)

  load_to_fund-eq-ok :
      (steel : Steel N A) (a : DeskAccounts steel) (o : OtcTreasury)
      → load_to_fund steel a ≡ ok o
      → steel.as_otc_treasury a.otc_treasury_info ≡ ok o
  unfolding load_to_fund
  load_to_fund-eq-ok steel a o h = ground arith

  load_to_drain-eq-ok :
      (steel : Steel N A) (a : DeskAccounts steel) (o : OtcTreasury)
      → load_to_drain steel a ≡ ok o
      → steel.as_otc_treasury a.otc_treasury_info ≡ ok o
  unfolding load_to_drain
  load_to_drain-eq-ok steel a o h = ground arith

  process_fund-eq-ok :
      (steel : Steel N A) (a : DeskAccounts steel) (amount : ℕ) (o o' : OtcTreasury)
      (es : List (Effect A))
      → steel.as_otc_treasury a.otc_treasury_info ≡ ok o
      → process_fund_godl_otc steel a amount ≡ ok (o', es)
      → (o'.godl_balance ≡ o.godl_balance + token_flow es) × (o'.sol_balance ≡ o.sol_balance)
  unfolding process_fund_godl_otc
  process_fund-eq-ok steel a amount o o' es d h =
      let (o₁, e, rest) = >>=-eq-ok (load_to_fund steel a) _ h in
      let same = ok-functional _ o₁ o (load_to_fund-eq-ok steel a o₁ e) d in
      fund-eq-ok steel a amount o o' es (subst (λ z. fund steel a amount z ≡ ok (o', es)) same rest)

  process_withdraw-eq-ok :
      (steel : Steel N A) (a : DeskAccounts steel) (o o' : OtcTreasury) (es : List (Effect A))
      → steel.as_otc_treasury a.otc_treasury_info ≡ ok o
      → process_withdraw_sol_otc steel a ≡ ok (o', es)
      → (o'.godl_balance ≡ o.godl_balance) × (o'.sol_balance + outflow es ≡ o.sol_balance)
  unfolding process_withdraw_sol_otc
  process_withdraw-eq-ok steel a o o' es d h =
      let (o₁, e, rest) = >>=-eq-ok (load_to_drain steel a) _ h in
      let same = ok-functional _ o₁ o (load_to_drain-eq-ok steel a o₁ e) d in
      drain-eq-ok steel a o o' es (subst (λ z. ok (drain steel a z) ≡ ok (o', es)) same rest)

  -- However the desk has been used since it was opened, its GODL balance is what it got less what it
  -- gave, and its SOL balance what it earned less what it paid out, as the instructions moved them.
  pub Dealt-books :
      (o : OtcTreasury) (got gave earned paid : ℕ)
      → Dealt o got gave earned paid
      → (o.godl_balance + gave ≡ got) × (o.sol_balance + paid ≡ earned)
  Dealt-books _ _ _ _ _ (opens steel a o es h) =
      let (g, s) = desk_opens steel a o es h in (omega (arith, g), omega (arith, s))
  Dealt-books _ _ _ _ _ (funds steel a amount o o' es got gave earned paid d h p) =
      let (g, s) = process_fund-eq-ok steel a amount o o' es d h in
      let (x, y) = Dealt-books o got gave earned paid p in
      (omega (arith, g, x), omega (arith, s, y))
  Dealt-books _ _ _ _ _ (trades steel a c q o t r got gave earned paid d e h p) =
      let (g, s, _) = trade_settles steel a c q o t r d e h in
      let (x, y) = Dealt-books o got gave earned paid p in
      (omega (arith, g, x), omega (arith, s, y))
  Dealt-books _ _ _ _ _ (drains steel a o o' es got gave earned paid d h p) =
      let (g, s) = process_withdraw-eq-ok steel a o o' es d h in
      let (x, y) = Dealt-books o got gave earned paid p in
      (omega (arith, g, x), omega (arith, s, y))
