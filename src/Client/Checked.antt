-- ===== src/Client/Checked.antt =====
-- What a client sends, as the program takes it.
use godl_program.Base.{ℕ, ◌^◌, ◌<◌, ◌≡◌, ap, List, [], ◌∷◌, Result, ok, arith, ◌>>=◌}
use godl_program.Base.Int.{ℤ, pos, negsuc}
use godl_program.Consts.{mint_address}
use godl_program.Numeric.{Numeric}
use godl_program.Gold.{GoldVault}
use godl_program.Runtime.{Steel, Seeds}
use godl_program.Otc.Quotes.{Quote, i64_of_bits, quote_of}
use godl_program.Otc.Trade.{trade_accounts, check_trade}
use godl_program.Client.{Instruction, Addresses, i64_bits, otc_treasury_tokens}
use godl_program.Client.Desk.{execute_otc_trade}
use godl_program.Client.Onchain.{onchain}

-- the numbers that an `i64` holds
abbrev pub IsI64 : ℤ → Type 0
IsI64 (pos n) = n < 2 ^ 63
IsI64 (negsuc n) = n < 2 ^ 63

i64_of_bits-i64_bits : (z : ℤ) → IsI64 z → i64_of_bits (i64_bits z) ≡ z
unfolding i64_of_bits i64_bits
i64_of_bits-i64_bits (pos n) h = ground arith
i64_of_bits-i64_bits (negsuc n) h = ground arith

abbrev pub quote_fields : Quote → List ℕ
quote_fields q =
    q.stake_id
    ∷ q.sol_in
    ∷ q.godl_out
    ∷ q.godl_bonus
    ∷ q.expiry_slot
    ∷ i64_bits q.lock_duration
    ∷ []

quote_of-fields : (q : Quote) → IsI64 q.lock_duration → quote_of (quote_fields q) ≡ ok q
unfolding quote_of
quote_of-fields q h =
    ap (λ z. ok (record q { lock_duration = z })) (i64_of_bits-i64_bits q.lock_duration h)

module _ {N : Type 0} ⦃num : Numeric N⦄ (addresses : Addresses) (chain : Steel N ℕ) where
  -- the handler's checks of the accounts that it is given
  abbrev pub trade_checks : Instruction → ℕ → Result (ℕ × GoldVault N)
  trade_checks ix stake_id = do
    a ← trade_accounts (onchain addresses chain) ix.accounts
    check_trade (onchain addresses chain) a stake_id

  -- the client's instruction for a quote
  abbrev pub trade_of : ℕ → Quote → Instruction
  trade_of buyer q =
      execute_otc_trade addresses buyer q.stake_id q.sol_in q.godl_out q.godl_bonus q.expiry_slot
        q.lock_duration

  -- the quote in an instruction's data
  abbrev pub read_quote : Instruction → Result Quote
  read_quote ix = quote_of ix.call.fields

  trade_of-checked :
      (buyer supply available held : ℕ) (q : Quote) (vault : GoldVault N)
      → chain.as_mint mint_address ≡ ok supply
      → chain.as_tokens (otc_treasury_tokens addresses) (addresses.pda Seeds.otc_treasury)
        ≡ ok available
      → chain.as_tokens
          (addresses.token_address (addresses.pda Seeds.treasury) mint_address)
          (addresses.pda Seeds.treasury)
        ≡ ok held
      → chain.as_gold_vault (addresses.pda Seeds.gold_vault) ≡ ok vault
      → trade_checks (trade_of buyer q) q.stake_id ≡ ok (available, vault)
  unfolding trade_accounts check_trade execute_otc_trade
  trade_of-checked buyer supply available held q vault m o t g = ground arith

  trade_of-read :
      (buyer : ℕ) (q : Quote) → IsI64 q.lock_duration → read_quote (trade_of buyer q) ≡ ok q
  unfolding execute_otc_trade
  trade_of-read buyer q fits = quote_of-fields q fits

  -- The accounts that a client names for a trade are the handler's, in its order, and pass
  -- `check_trade`: the signers, the writable accounts, the addresses and the programs are those that
  -- it asks for, and it loads the mint, the desk's and the treasury's token accounts and the gold
  -- vault, if these are there. The handler reads from the client's data the quote that was written,
  -- if the lock duration is an `i64`. What the handler checks later, of the quote and of what its
  -- accounts hold, is not part of this.
  pub client_trade_checked :
      (buyer supply available held : ℕ) (q : Quote) (vault : GoldVault N)
      → chain.as_mint mint_address ≡ ok supply
      → chain.as_tokens (otc_treasury_tokens addresses) (addresses.pda Seeds.otc_treasury)
        ≡ ok available
      → chain.as_tokens
          (addresses.token_address (addresses.pda Seeds.treasury) mint_address)
          (addresses.pda Seeds.treasury)
        ≡ ok held
      → chain.as_gold_vault (addresses.pda Seeds.gold_vault) ≡ ok vault
      → IsI64 q.lock_duration
      → (trade_checks (trade_of buyer q) q.stake_id ≡ ok (available, vault))
        × (read_quote (trade_of buyer q) ≡ ok q)
  client_trade_checked buyer supply available held q vault m o t g fits =
      (trade_of-checked buyer supply available held q vault m o t g, trade_of-read buyer q fits)
