-- ===== src/Client/Admins.antt =====
-- api/src/sdk.rs: the instructions that clients of the admin and the bury authority build.
use godl_program.Base.{ℕ, Bool, true, false, List, [], ◌∷◌, if◌then◌else◌}
use godl_program.Consts.{mint_address, sol_mint, chest_address, admin_godl_fee}
use godl_program.Miner.{default_key}
use godl_program.Runtime.{Seeds}
use godl_program.Instruction.{GodlInstruction}
use godl_program.Client.{
  AccountMeta, Instruction, Addresses, writable, readonly, instruction, unsigned,
}

module _ (addresses : Addresses) where
  open addresses use {
    pda, token_address, var_pda, mint_authority, program_id, system_program, token_program,
    entropy_program,
  }

  -- the chest takes what is not burnt
  abbrev warchest : Bool → AccountMeta
  warchest no_burn = readonly (if no_burn then chest_address else default_key) false

  abbrev warchest_tokens : Bool → AccountMeta
  warchest_tokens true = writable (token_address chest_address mint_address) false
  warchest_tokens false = readonly default_key false

  unfoldable pub bury_tokens : ℕ → ℕ → Bool → Instruction
  bury_tokens signer amount no_burn =
      instruction GodlInstruction.bury_tokens
        (writable signer true
          ∷ writable (pda Seeds.board) false
          ∷ readonly (pda Seeds.config) false
          ∷ writable mint_address false
          ∷ writable (pda Seeds.treasury) false
          ∷ writable (token_address (pda Seeds.treasury) mint_address) false
          ∷ writable admin_godl_fee false
          ∷ writable (token_address admin_godl_fee mint_address) false
          ∷ warchest no_burn
          ∷ warchest_tokens no_burn
          ∷ readonly token_program false
          ∷ readonly program_id false
          ∷ [])
        (amount ∷ []) []

  unfoldable pub bury : ℕ → List AccountMeta → List ℕ → Bool → Instruction
  bury signer swap_accounts swap_data no_burn =
      instruction GodlInstruction.bury
        (writable signer true
          ∷ writable (pda Seeds.board) false
          ∷ readonly (pda Seeds.config) false
          ∷ writable mint_address false
          ∷ writable (pda Seeds.treasury) false
          ∷ writable (token_address (pda Seeds.treasury) mint_address) false
          ∷ writable (token_address (pda Seeds.treasury) sol_mint) false
          ∷ writable admin_godl_fee false
          ∷ writable (token_address admin_godl_fee mint_address) false
          ∷ warchest no_burn
          ∷ warchest_tokens no_burn
          ∷ readonly token_program false
          ∷ readonly program_id false
          ∷ unsigned swap_accounts)
        [] swap_data

  unfoldable pub pre_bury : ℕ → ℕ → ℕ → ℕ → Instruction
  pre_bury signer bury_amount chest_amount admin_amount =
      instruction GodlInstruction.pre_bury
        (writable signer true
          ∷ readonly (pda Seeds.config) false
          ∷ writable (pda Seeds.treasury) false
          ∷ writable (token_address (pda Seeds.treasury) sol_mint) false
          ∷ writable chest_address false
          ∷ writable admin_godl_fee false
          ∷ readonly system_program false
          ∷ [])
        (bury_amount ∷ chest_amount ∷ admin_amount ∷ []) []

  unfoldable pub withdraw_vault : ℕ → ℕ → Instruction
  withdraw_vault signer amount =
      instruction GodlInstruction.withdraw_vault
        (writable signer true
          ∷ readonly (pda Seeds.config) false
          ∷ writable (pda Seeds.treasury) false
          ∷ readonly system_program false
          ∷ [])
        (amount ∷ []) []

  unfoldable pub inject_unrefined_rewards : ℕ → ℕ → ℕ → Instruction
  inject_unrefined_rewards signer miner amount =
      instruction GodlInstruction.inject_unrefined_rewards
        (writable signer true
          ∷ readonly (pda Seeds.config) false
          ∷ writable (pda (Seeds.miner miner)) false
          ∷ writable (pda Seeds.treasury) false
          ∷ writable (token_address signer mint_address) false
          ∷ writable (token_address (pda Seeds.treasury) mint_address) false
          ∷ readonly token_program false
          ∷ readonly (pda Seeds.gold_vault) false
          ∷ writable (pda (Seeds.miner_extended miner)) false
          ∷ readonly system_program false
          ∷ [])
        (amount ∷ []) []

  unfoldable pub set_admin : ℕ → ℕ → Instruction
  set_admin signer admin =
      instruction GodlInstruction.set_admin
        (writable signer true
          ∷ writable (pda Seeds.config) false
          ∷ readonly system_program false
          ∷ [])
        (admin ∷ []) []

  unfoldable pub set_motherlode_denominator : ℕ → ℕ → Instruction
  set_motherlode_denominator signer motherlode_denominator =
      instruction GodlInstruction.set_motherlode_denominator
        (writable signer true
          ∷ writable (pda Seeds.config) false
          ∷ readonly system_program false
          ∷ [])
        (motherlode_denominator ∷ []) []

  unfoldable pub set_godl_per_round : ℕ → ℕ → Instruction
  set_godl_per_round signer godl_per_round =
      instruction GodlInstruction.set_godl_per_round
        (writable signer true
          ∷ writable (pda Seeds.config) false
          ∷ readonly system_program false
          ∷ [])
        (godl_per_round ∷ []) []

  unfoldable pub update_protocol_config : ℕ → ℕ → ℕ → Instruction
  update_protocol_config signer round_slots intermission_slots =
      instruction GodlInstruction.update_protocol_config
        (writable signer true
          ∷ writable (pda Seeds.config) false
          ∷ readonly system_program false
          ∷ [])
        (round_slots ∷ intermission_slots ∷ []) []

  unfoldable pub set_fee_collector : ℕ → ℕ → Instruction
  set_fee_collector signer fee_collector =
      instruction GodlInstruction.set_fee_collector
        (writable signer true
          ∷ writable (pda Seeds.config) false
          ∷ readonly system_program false
          ∷ [])
        (fee_collector ∷ []) []

  unfoldable pub new_var : ℕ → ℕ → ℕ → ℕ → ℕ → Instruction
  new_var signer provider id commit samples =
      instruction GodlInstruction.new_var
        (writable signer true
          ∷ writable (pda Seeds.board) false
          ∷ writable (pda Seeds.config) false
          ∷ writable provider false
          ∷ writable (var_pda (pda Seeds.board) id) false
          ∷ readonly system_program false
          ∷ readonly entropy_program false
          ∷ [])
        (id ∷ commit ∷ samples ∷ []) []

  unfoldable pub set_swap_program : ℕ → ℕ → Instruction
  set_swap_program signer new_program =
      instruction GodlInstruction.set_swap_program
        (writable signer true ∷ writable (pda Seeds.config) false ∷ readonly new_program false ∷ [])
        [] []

  unfoldable pub set_var_address : ℕ → ℕ → Instruction
  set_var_address signer new_var_address =
      instruction GodlInstruction.set_var_address
        (writable signer true
          ∷ writable (pda Seeds.board) false
          ∷ writable (pda Seeds.config) false
          ∷ writable new_var_address false
          ∷ [])
        [] []

  unfoldable pub inject_godl_motherlode : ℕ → ℕ → Instruction
  inject_godl_motherlode signer amount =
      instruction GodlInstruction.inject_godl_motherlode
        (writable signer true
          ∷ writable (pda Seeds.treasury) false
          ∷ writable (token_address signer mint_address) false
          ∷ writable (token_address (pda Seeds.treasury) mint_address) false
          ∷ readonly token_program false
          ∷ [])
        (amount ∷ []) []

  unfoldable pub rebase_total_staked : ℕ → ℕ → ℕ → Instruction
  rebase_total_staked signer expected new_value =
      instruction GodlInstruction.rebase_total_staked
        (writable signer true
          ∷ readonly (pda Seeds.config) false
          ∷ writable (pda Seeds.treasury) false
          ∷ [])
        (expected ∷ new_value ∷ []) []

  unfoldable pub rebase_total_unclaimed : ℕ → ℕ → ℕ → Instruction
  rebase_total_unclaimed signer expected new_value =
      instruction GodlInstruction.rebase_total_unclaimed
        (writable signer true
          ∷ readonly (pda Seeds.config) false
          ∷ writable (pda Seeds.treasury) false
          ∷ [])
        (expected ∷ new_value ∷ []) []

  unfoldable pub initialize_sol_motherlode : ℕ → Instruction
  initialize_sol_motherlode signer =
      instruction GodlInstruction.initialize_sol_motherlode
        (writable signer true
          ∷ writable (pda Seeds.sol_motherlode) false
          ∷ readonly system_program false
          ∷ [])
        [] []

  unfoldable pub transfer_mint_authority : ℕ → Instruction
  transfer_mint_authority signer =
      instruction GodlInstruction.transfer_mint_authority
        (writable signer true
          ∷ readonly (pda Seeds.config) false
          ∷ writable mint_address false
          ∷ writable (pda Seeds.treasury) false
          ∷ readonly mint_authority false
          ∷ readonly token_program false
          ∷ [])
        [] []
