-- ===== src/Client/Stakes.antt =====
-- api/src/sdk.rs: the instructions that clients of stakers build.
use godl_program.Base.{ℕ, true, false, [], ◌∷◌}
use godl_program.Consts.{mint_address, nft_boost_collection, mpl_core_program}
use godl_program.Runtime.{Seeds}
use godl_program.Instruction.{GodlInstruction}
use godl_program.Client.{Instruction, Addresses, writable, readonly, instruction}

module _ (addresses : Addresses) where
  open addresses use {pda, token_address, system_program, token_program, associated_token_program}

  unfoldable pub deposit : ℕ → ℕ → Instruction
  deposit signer amount =
      instruction GodlInstruction.deposit
        (writable signer true
          ∷ writable mint_address false
          ∷ writable (token_address signer mint_address) false
          ∷ writable (pda (Seeds.stake signer)) false
          ∷ writable (token_address (pda (Seeds.stake signer)) mint_address) false
          ∷ writable (pda Seeds.treasury) false
          ∷ readonly system_program false
          ∷ readonly token_program false
          ∷ readonly associated_token_program false
          ∷ [])
        (amount ∷ []) []

  unfoldable pub withdraw : ℕ → ℕ → Instruction
  withdraw signer amount =
      instruction GodlInstruction.withdraw
        (writable signer true
          ∷ writable mint_address false
          ∷ writable (token_address signer mint_address) false
          ∷ writable (pda (Seeds.stake signer)) false
          ∷ writable (token_address (pda (Seeds.stake signer)) mint_address) false
          ∷ writable (pda Seeds.treasury) false
          ∷ readonly system_program false
          ∷ readonly token_program false
          ∷ readonly associated_token_program false
          ∷ [])
        (amount ∷ []) []

  unfoldable pub claim_yield : ℕ → ℕ → Instruction
  claim_yield signer amount =
      instruction GodlInstruction.claim_yield
        (writable signer true
          ∷ writable mint_address false
          ∷ writable (token_address signer mint_address) false
          ∷ writable (pda (Seeds.stake signer)) false
          ∷ writable (pda Seeds.treasury) false
          ∷ writable (token_address (pda Seeds.treasury) mint_address) false
          ∷ readonly system_program false
          ∷ readonly token_program false
          ∷ readonly associated_token_program false
          ∷ [])
        (amount ∷ []) []

  unfoldable pub set_stake_executor_v2 : ℕ → ℕ → ℕ → Instruction
  set_stake_executor_v2 signer id executor =
      instruction GodlInstruction.set_stake_executor_v2
        (writable signer true ∷ writable (pda (Seeds.stake_v2 signer id)) false ∷ [])
        (id ∷ executor ∷ []) []

  unfoldable pub reconcile_stake_v2 : ℕ → ℕ → Instruction
  reconcile_stake_v2 signer stake_address =
      instruction GodlInstruction.reconcile_stake_v2
        (writable signer true
          ∷ readonly (pda Seeds.config) false
          ∷ writable stake_address false
          ∷ readonly (token_address stake_address mint_address) false
          ∷ readonly mint_address false
          ∷ writable (pda Seeds.treasury) false
          ∷ [])
        [] []

  unfoldable pub migrate_stake_weight : ℕ → ℕ → Instruction
  migrate_stake_weight signer stake_address =
      instruction GodlInstruction.migrate_stake_weight
        (writable signer true
          ∷ writable stake_address false
          ∷ writable (pda Seeds.treasury) false
          ∷ [])
        [] []

  unfoldable pub compound_yield_v2 : ℕ → ℕ → ℕ → Instruction
  compound_yield_v2 signer authority id =
      instruction GodlInstruction.compound_yield_v2
        (writable signer true
          ∷ writable mint_address false
          ∷ writable (pda (Seeds.stake_v2 authority id)) false
          ∷ writable (token_address (pda (Seeds.stake_v2 authority id)) mint_address) false
          ∷ writable (pda Seeds.treasury) false
          ∷ writable (token_address (pda Seeds.treasury) mint_address) false
          ∷ readonly system_program false
          ∷ readonly token_program false
          ∷ readonly associated_token_program false
          ∷ [])
        (id ∷ []) []

  unfoldable pub close_stake_v2 : ℕ → ℕ → Instruction
  close_stake_v2 signer id =
      instruction GodlInstruction.close_stake_v2
        (writable signer true
          ∷ readonly mint_address false
          ∷ writable (token_address signer mint_address) false
          ∷ writable (pda (Seeds.stake_v2 signer id)) false
          ∷ writable (token_address (pda (Seeds.stake_v2 signer id)) mint_address) false
          ∷ readonly (pda Seeds.treasury) false
          ∷ writable (token_address (pda Seeds.treasury) mint_address) false
          ∷ readonly system_program false
          ∷ readonly token_program false
          ∷ readonly associated_token_program false
          ∷ [])
        (id ∷ []) []

  unfoldable pub close_phantom_stake_v2 : ℕ → ℕ → Instruction
  close_phantom_stake_v2 signer stake_address =
      instruction GodlInstruction.close_phantom_stake_v2
        (writable signer true
          ∷ readonly (pda Seeds.config) false
          ∷ writable stake_address false
          ∷ writable (pda Seeds.treasury) false
          ∷ [])
        [] []

  unfoldable pub top_up_stake_v2 : ℕ → ℕ → ℕ → Instruction
  top_up_stake_v2 signer id amount =
      instruction GodlInstruction.top_up_stake_v2
        (writable signer true
          ∷ readonly mint_address false
          ∷ writable (token_address signer mint_address) false
          ∷ writable (pda (Seeds.stake_v2 signer id)) false
          ∷ writable (token_address (pda (Seeds.stake_v2 signer id)) mint_address) false
          ∷ writable (pda Seeds.treasury) false
          ∷ readonly system_program false
          ∷ readonly token_program false
          ∷ readonly associated_token_program false
          ∷ [])
        (id ∷ amount ∷ []) []

  unfoldable pub merge_stake_v2 : ℕ → ℕ → ℕ → Instruction
  merge_stake_v2 signer target_id source_id =
      instruction GodlInstruction.merge_stake_v2
        (writable signer true
          ∷ readonly mint_address false
          ∷ writable (pda (Seeds.stake_v2 signer target_id)) false
          ∷ writable (token_address (pda (Seeds.stake_v2 signer target_id)) mint_address) false
          ∷ writable (pda (Seeds.stake_v2 signer source_id)) false
          ∷ writable (token_address (pda (Seeds.stake_v2 signer source_id)) mint_address) false
          ∷ writable (pda Seeds.treasury) false
          ∷ readonly system_program false
          ∷ readonly token_program false
          ∷ readonly associated_token_program false
          ∷ [])
        (target_id ∷ source_id ∷ []) []

  unfoldable pub stake_nft : ℕ → ℕ → ℕ → Instruction
  stake_nft signer id asset =
      instruction GodlInstruction.stake_nft
        (writable signer true
          ∷ writable asset false
          ∷ readonly nft_boost_collection false
          ∷ writable (pda (Seeds.stake_v2 signer id)) false
          ∷ writable (pda Seeds.treasury) false
          ∷ readonly mpl_core_program false
          ∷ readonly system_program false
          ∷ [])
        (id ∷ []) []

  unfoldable pub unstake_nft : ℕ → ℕ → ℕ → Instruction
  unstake_nft signer id asset =
      instruction GodlInstruction.unstake_nft
        (writable signer true
          ∷ writable asset false
          ∷ readonly nft_boost_collection false
          ∷ writable (pda (Seeds.stake_v2 signer id)) false
          ∷ writable (pda Seeds.treasury) false
          ∷ readonly mpl_core_program false
          ∷ readonly system_program false
          ∷ [])
        (id ∷ []) []
