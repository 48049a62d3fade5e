-- ===== src/Otc/Desk.antt =====
-- program/src/otc/initialize_otc_treasury.rs, fund_godl_otc.rs and withdraw_sol_otc.rs: the desk is
-- opened, gets GODL from anyone, and gives its SOL to the chest.
use godl_program.Base.{
  ℕ, List, [], ◌∷◌, Result, ok, godl, amount_too_small, arithmetic_overflow, ◌>>=◌, ◌>>◌, reject,
  ◌==◌, if◌then◌else◌, checked_add, replicate,
}
use godl_program.Consts.{mint_address, chest_address, otc_oracle_signer}
use godl_program.Otc.{OtcTreasury}
use godl_program.Runtime.{Steel, Effect, create, transfer, send, open_tokens, otc_treasury}

module _ {N A : Type 0} (steel : Steel N A) where
  open steel use {
    key, data_is_empty, is_signer, is_writable, is_empty, has_address, has_seeds, is_system_program,
    is_token_program, is_associated_token_program, as_mint, as_tokens, as_otc_treasury,
  }

  -- each instruction is given some of these
  pub record DeskAccounts : Type 0 where
    pub signer_info : A
    pub mint_info : A
    pub signer_tokens_info : A
    pub otc_treasury_info : A
    pub otc_treasury_tokens_info : A
    pub chest_info : A
    pub system_program : A
    pub token_program : A
    pub associated_token_program : A

  abbrev pub opened_desk : OtcTreasury
  opened_desk = record { sol_balance = 0; godl_balance = 0; buffer = replicate 32 0 }

  unfoldable pub open_desk_tokens : DeskAccounts → Result (List (Effect A))
  open_desk_tokens a =
      if data_is_empty a.otc_treasury_tokens_info
      then ok (open_tokens a.otc_treasury_tokens_info a.otc_treasury_info ∷ [])
      else (do _ ← as_tokens a.otc_treasury_tokens_info (key a.otc_treasury_info); ok [])

  unfoldable pub process_initialize_otc_treasury :
      DeskAccounts → Result (OtcTreasury × List (Effect A))
  process_initialize_otc_treasury a = do
    is_signer a.signer_info
    has_address a.signer_info otc_oracle_signer
    has_address a.mint_info mint_address
    _ ← as_mint a.mint_info
    is_empty a.otc_treasury_info
    is_writable a.otc_treasury_info
    has_seeds a.otc_treasury_info otc_treasury
    is_writable a.otc_treasury_tokens_info
    is_system_program a.system_program
    is_token_program a.token_program
    is_associated_token_program a.associated_token_program
    opened ← open_desk_tokens a
    ok (opened_desk, create a.otc_treasury_info otc_treasury a.signer_info ∷ opened)

  -- anyone's GODL goes to the loaded desk
  unfoldable pub fund : DeskAccounts → ℕ → OtcTreasury → Result (OtcTreasury × List (Effect A))
  fund a amount o = do
    reject (amount == 0) (godl amount_too_small)
    balance ← checked_add o.godl_balance amount arithmetic_overflow
    ok (
      record o { godl_balance = balance },
      transfer a.signer_tokens_info a.otc_treasury_tokens_info amount ∷ [],
    )

  unfoldable pub load_to_fund : DeskAccounts → Result OtcTreasury
  load_to_fund a = do
    is_signer a.signer_info
    has_address a.mint_info mint_address
    _ ← as_mint a.mint_info
    is_writable a.signer_tokens_info
    _ ← as_tokens a.signer_tokens_info (key a.signer_info)
    is_writable a.otc_treasury_info
    has_seeds a.otc_treasury_info otc_treasury
    o ← as_otc_treasury a.otc_treasury_info
    is_writable a.otc_treasury_tokens_info
    _ ← as_tokens a.otc_treasury_tokens_info (key a.otc_treasury_info)
    is_token_program a.token_program
    ok o

  unfoldable pub process_fund_godl_otc : DeskAccounts → ℕ → Result (OtcTreasury × List (Effect A))
  process_fund_godl_otc a amount = do o ← load_to_fund a; fund a amount o

  unfoldable pub drain : DeskAccounts → OtcTreasury → OtcTreasury × List (Effect A)
  drain a o =
      if o.sol_balance == 0
      then (o, [])
      else (record o { sol_balance = 0 }, send a.otc_treasury_info o.sol_balance a.chest_info ∷ [])

  unfoldable pub load_to_drain : DeskAccounts → Result OtcTreasury
  load_to_drain a = do
    is_signer a.signer_info
    is_writable a.otc_treasury_info
    has_seeds a.otc_treasury_info otc_treasury
    o ← as_otc_treasury a.otc_treasury_info
    is_writable a.chest_info
    has_address a.chest_info chest_address
    is_system_program a.system_program
    ok o

  unfoldable pub process_withdraw_sol_otc : DeskAccounts → Result (OtcTreasury × List (Effect A))
  process_withdraw_sol_otc a = do o ← load_to_drain a; ok (drain a o)
