-- ===== src/Client/Vault.antt =====
-- api/src/sdk.rs: the instructions that clients of the gold vault build.
use godl_program.Base.{ℕ, true, false, List, [], ◌∷◌}
use godl_program.Consts.{sol_mint, xaut_mint, rush_sol_vault}
use godl_program.Runtime.{Seeds}
use godl_program.Instruction.{GodlInstruction}
use godl_program.Client.{
  AccountMeta, Instruction, Addresses, writable, readonly, instruction, unsigned, gold_vault_sol,
  gold_vault_xaut,
}

module _ (addresses : Addresses) where
  open addresses use {
    pda, token_address, program_id, system_program, token_program, associated_token_program,
  }

  unfoldable pub initialize_gold_vault : ℕ → Instruction
  initialize_gold_vault signer =
      instruction GodlInstruction.initialize_gold_vault
        (writable signer true
          ∷ writable (pda Seeds.gold_vault) false
          ∷ writable (gold_vault_sol addresses) false
          ∷ writable (gold_vault_xaut addresses) false
          ∷ readonly sol_mint false
          ∷ readonly xaut_mint false
          ∷ readonly system_program false
          ∷ readonly token_program false
          ∷ readonly associated_token_program false
          ∷ [])
        [] []

  unfoldable pub create_miner_extended : ℕ → ℕ → Instruction
  create_miner_extended signer authority =
      instruction GodlInstruction.create_miner_extended
        (writable signer true
          ∷ readonly (pda (Seeds.miner authority)) false
          ∷ writable (pda (Seeds.miner_extended authority)) false
          ∷ readonly (pda Seeds.gold_vault) false
          ∷ readonly system_program false
          ∷ [])
        [] []

  unfoldable pub pre_buy_gold : ℕ → ℕ → Instruction
  pre_buy_gold signer amount =
      instruction GodlInstruction.pre_buy_gold
        (writable signer true
          ∷ readonly (pda Seeds.config) false
          ∷ writable (pda Seeds.sol_motherlode) false
          ∷ readonly (pda Seeds.gold_vault) false
          ∷ writable (gold_vault_sol addresses) false
          ∷ readonly system_program false
          ∷ writable rush_sol_vault false
          ∷ [])
        (amount ∷ []) []

  unfoldable pub buy_gold : ℕ → ℕ → List AccountMeta → List ℕ → Instruction
  buy_gold signer min_xaut_out swap_accounts swap_data =
      instruction GodlInstruction.buy_gold
        (writable signer true
          ∷ writable (pda Seeds.board) false
          ∷ readonly (pda Seeds.config) false
          ∷ readonly (pda Seeds.treasury) false
          ∷ writable (pda Seeds.gold_vault) false
          ∷ writable (gold_vault_sol addresses) false
          ∷ writable (gold_vault_xaut addresses) false
          ∷ readonly xaut_mint false
          ∷ readonly token_program false
          ∷ readonly program_id false
          ∷ unsigned swap_accounts)
        (min_xaut_out ∷ []) swap_data

  unfoldable pub deposit_gold : ℕ → ℕ → Instruction
  deposit_gold signer amount =
      instruction GodlInstruction.deposit_gold
        (writable signer true
          ∷ writable (pda Seeds.board) false
          ∷ readonly (pda Seeds.config) false
          ∷ readonly (pda Seeds.treasury) false
          ∷ writable (pda Seeds.gold_vault) false
          ∷ writable (token_address signer xaut_mint) false
          ∷ writable (gold_vault_xaut addresses) false
          ∷ readonly xaut_mint false
          ∷ readonly token_program false
          ∷ readonly program_id false
          ∷ [])
        (amount ∷ []) []

  unfoldable pub claim_gold : ℕ → Instruction
  claim_gold signer =
      instruction GodlInstruction.claim_gold
        (writable signer true
          ∷ readonly (pda (Seeds.miner signer)) false
          ∷ writable (pda (Seeds.miner_extended signer)) false
          ∷ writable (pda Seeds.gold_vault) false
          ∷ writable (gold_vault_xaut addresses) false
          ∷ writable (token_address signer xaut_mint) false
          ∷ readonly xaut_mint false
          ∷ readonly system_program false
          ∷ readonly token_program false
          ∷ readonly associated_token_program false
          ∷ [])
        [] []
