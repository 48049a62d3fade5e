-- ===== src/Client/Rounds.antt =====
-- api/src/sdk.rs: the instructions that clients of rounds build.
use godl_program.Base.{ℕ, ◌+◌, ◌*◌, ◌-◌, Bool, true, false, List, [], ◌∷◌, ◌++◌, length, take, drop}
use godl_program.Consts.{mint_address, rush_sol_vault}
use godl_program.Automation.{flag}
use godl_program.Runtime.{Seeds}
use godl_program.Instruction.{GodlInstruction}
use godl_program.Client.{
  AccountMeta, Instruction, Addresses, writable, readonly, instruction, call_of,
}

module _ (addresses : Addresses) where
  open addresses use {
    pda, token_address, mint_authority, program_id, system_program, token_program, entropy_program,
    mint_program, slot_hashes,
  }

  unfoldable pub log : ℕ → List ℕ → Instruction
  log signer msg = instruction GodlInstruction.log (writable signer true ∷ []) [] msg

  -- bit `i` is set where square `i` is chosen
  unfoldable pub squares_mask : List Bool → ℕ
  squares_mask [] = 0
  squares_mask (b ∷ squares) = flag b + 2 * squares_mask squares

  unfoldable pub build_deploy : ℕ → ℕ → ℕ → ℕ → ℕ → List Bool → Bool → Instruction
  build_deploy signer authority var_address amount round_id squares is_pooled =
      instruction GodlInstruction.deploy
        (writable signer true
          ∷ writable authority false
          ∷ writable (pda (Seeds.automation_v2 authority)) false
          ∷ writable (pda Seeds.board) false
          ∷ writable (pda (Seeds.miner authority)) false
          ∷ writable (pda (Seeds.round round_id)) false
          ∷ writable (pda (Seeds.pool_round round_id)) false
          ∷ writable (pda (Seeds.pool_member authority)) false
          ∷ writable (pda Seeds.config) false
          ∷ readonly system_program false
          ∷ writable var_address false
          ∷ readonly entropy_program false
          ∷ [])
        (amount ∷ squares_mask squares ∷ flag is_pooled ∷ []) []

  unfoldable pub deploy_with_pool : ℕ → ℕ → ℕ → ℕ → ℕ → List Bool → Bool → Instruction
  deploy_with_pool signer authority var_address amount round_id squares is_pooled =
      build_deploy signer authority var_address amount round_id squares is_pooled

  unfoldable pub deploy : ℕ → ℕ → ℕ → ℕ → ℕ → List Bool → Bool → Instruction
  deploy signer authority var_address amount round_id squares is_pooled =
      deploy_with_pool signer authority var_address amount round_id squares is_pooled

  -- the gold accounts go right before the last two
  abbrev gold_accounts : ℕ → List AccountMeta
  gold_accounts authority =
      readonly (pda Seeds.gold_vault) false
      ∷ writable (pda (Seeds.miner_extended authority)) false
      ∷ []

  unfoldable pub deploy_with_miner_extended : ℕ → ℕ → ℕ → ℕ → ℕ → List Bool → Bool → Instruction
  deploy_with_miner_extended signer authority var_address amount round_id squares is_pooled =
      let ix = build_deploy signer authority var_address amount round_id squares is_pooled in
      let split = length ix.accounts - 2 in
      record {
        accounts = take split ix.accounts ++ (gold_accounts authority ++ drop split ix.accounts);
        call =
            call_of GodlInstruction.deploy_with_miner_extended
              (amount ∷ squares_mask squares ∷ flag is_pooled ∷ []) [];
      }

  unfoldable pub reset : ℕ → ℕ → ℕ → ℕ → ℕ → Instruction
  reset signer fee_collector round_id top_miner var_address =
      instruction GodlInstruction.reset
        (writable signer true
          ∷ writable (pda Seeds.board) false
          ∷ writable (pda Seeds.config) false
          ∷ writable fee_collector false
          ∷ writable mint_address false
          ∷ writable (pda (Seeds.round round_id)) false
          ∷ writable (pda (Seeds.round (round_id + 1))) false
          ∷ writable (pda (Seeds.pool_round (round_id + 1))) false
          ∷ writable (pda (Seeds.miner top_miner)) false
          ∷ writable (pda (Seeds.pool_member top_miner)) false
          ∷ writable (pda Seeds.sol_motherlode) false
          ∷ writable rush_sol_vault false
          ∷ writable (pda Seeds.treasury) false
          ∷ writable (token_address (pda Seeds.treasury) mint_address) false
          ∷ readonly system_program false
          ∷ readonly token_program false
          ∷ readonly program_id false
          ∷ readonly slot_hashes false
          ∷ writable var_address false
          ∷ readonly entropy_program false
          ∷ writable mint_authority false
          ∷ readonly mint_program false
          ∷ [])
        [] []

  unfoldable pub reset_permissionless : ℕ → ℕ → ℕ → ℕ → ℕ → Instruction
  reset_permissionless signer fee_collector round_id top_miner var_address =
      instruction GodlInstruction.reset_permissionless
        (writable signer true
          ∷ writable (pda Seeds.board) false
          ∷ writable (pda Seeds.config) false
          ∷ writable fee_collector false
          ∷ writable mint_address false
          ∷ writable (pda (Seeds.round round_id)) false
          ∷ writable (pda (Seeds.round (round_id + 1))) false
          ∷ writable (pda (Seeds.pool_round (round_id + 1))) false
          ∷ writable (pda (Seeds.miner top_miner)) false
          ∷ writable (pda (Seeds.pool_member top_miner)) false
          ∷ writable (pda Seeds.sol_motherlode) false
          ∷ writable rush_sol_vault false
          ∷ writable (pda Seeds.treasury) false
          ∷ writable (token_address (pda Seeds.treasury) mint_address) false
          ∷ readonly system_program false
          ∷ readonly token_program false
          ∷ readonly program_id false
          ∷ readonly slot_hashes false
          ∷ writable var_address false
          ∷ readonly entropy_program false
          ∷ writable mint_authority false
          ∷ readonly mint_program false
          ∷ [])
        [] []

  unfoldable pub close : ℕ → ℕ → ℕ → Instruction
  close signer round_id rent_payer =
      instruction GodlInstruction.close
        (writable signer true
          ∷ writable (pda Seeds.board) false
          ∷ writable rent_payer false
          ∷ writable (pda (Seeds.round round_id)) false
          ∷ writable (pda (Seeds.pool_round round_id)) false
          ∷ writable (pda Seeds.treasury) false
          ∷ readonly system_program false
          ∷ [])
        [] []
