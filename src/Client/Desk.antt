-- ===== src/Client/Desk.antt =====
-- api/src/sdk.rs: the instructions that clients of the over-the-counter desk build.
use godl_program.Base.{ℕ, true, false, [], ◌∷◌}
use godl_program.Base.Int.{ℤ}
use godl_program.Consts.{mint_address, chest_address, otc_oracle_signer}
use godl_program.Runtime.{Seeds}
use godl_program.Instruction.{GodlInstruction}
use godl_program.Client.{
  Instruction, Addresses, writable, readonly, instruction, otc_treasury_tokens, i64_bits,
}

module _ (addresses : Addresses) where
  open addresses use {pda, token_address, system_program, token_program, associated_token_program}

  unfoldable pub initialize_otc_treasury : ℕ → Instruction
  initialize_otc_treasury signer =
      instruction GodlInstruction.initialize_otc_treasury
        (writable signer true
          ∷ readonly mint_address false
          ∷ writable (pda Seeds.otc_treasury) false
          ∷ writable (otc_treasury_tokens addresses) false
          ∷ readonly system_program false
          ∷ readonly token_program false
          ∷ readonly associated_token_program false
          ∷ [])
        [] []

  unfoldable pub fund_godl_otc : ℕ → ℕ → Instruction
  fund_godl_otc signer amount =
      instruction GodlInstruction.fund_godl_otc
        (writable signer true
          ∷ readonly mint_address false
          ∷ writable (token_address signer mint_address) false
          ∷ writable (pda Seeds.otc_treasury) false
          ∷ writable (otc_treasury_tokens addresses) false
          ∷ readonly token_program false
          ∷ [])
        (amount ∷ []) []

  unfoldable pub execute_otc_trade : ℕ → ℕ → ℕ → ℕ → ℕ → ℕ → ℤ → Instruction
  execute_otc_trade buyer stake_id sol_in godl_out godl_bonus expiry_slot lock_duration =
      instruction GodlInstruction.execute_otc_trade
        (writable buyer true
          ∷ readonly otc_oracle_signer true
          ∷ readonly mint_address false
          ∷ writable (pda (Seeds.miner buyer)) false
          ∷ writable (pda (Seeds.otc_user buyer)) false
          ∷ writable (pda Seeds.otc_treasury) false
          ∷ writable (otc_treasury_tokens addresses) false
          ∷ writable (pda Seeds.treasury) false
          ∷ writable (token_address (pda Seeds.treasury) mint_address) false
          ∷ writable (pda (Seeds.stake_v2 buyer stake_id)) false
          ∷ writable (token_address (pda (Seeds.stake_v2 buyer stake_id)) mint_address) false
          ∷ readonly system_program false
          ∷ readonly token_program false
          ∷ readonly associated_token_program false
          ∷ readonly (pda Seeds.gold_vault) false
          ∷ writable (pda (Seeds.miner_extended buyer)) false
          ∷ [])
        (stake_id ∷ sol_in ∷ godl_out ∷ godl_bonus ∷ expiry_slot ∷ i64_bits lock_duration ∷ []) []

  unfoldable pub withdraw_sol_otc : ℕ → Instruction
  withdraw_sol_otc signer =
      instruction GodlInstruction.withdraw_sol_otc
        (writable signer true
          ∷ writable (pda Seeds.otc_treasury) false
          ∷ writable chest_address false
          ∷ readonly system_program false
          ∷ [])
        [] []
