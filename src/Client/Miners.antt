-- ===== src/Client/Miners.antt =====
-- api/src/sdk.rs: the instructions that clients of miners and referrers build.
use godl_program.Base.{ℕ, Bool, true, false, Option, some, none, List, [], ◌∷◌, ◌++◌}
use godl_program.Consts.{mint_address}
use godl_program.Miner.{default_key}
use godl_program.Automation.{flag}
use godl_program.Runtime.{Seeds}
use godl_program.Instruction.{GodlInstruction}
use godl_program.Client.{
  AccountMeta, Instruction, Addresses, writable, readonly, instruction, call_of,
}

module _ (addresses : Addresses) where
  open addresses use {pda, token_address, system_program, token_program, associated_token_program}

  -- `unwrap_or_default`
  abbrev unwrap_or_default : Option ℕ → ℕ
  unwrap_or_default none = default_key
  unwrap_or_default (some k) = k

  -- the referrer's account, if there is one
  abbrev pushed : Option ℕ → List AccountMeta
  pushed none = []
  pushed (some k) = writable k false ∷ []

  abbrev with_tokens : Option ℕ → List AccountMeta
  with_tokens none = []
  with_tokens (some k) = writable k false ∷ writable (token_address k mint_address) false ∷ []

  unfoldable pub initialize : ℕ → ℕ → ℕ → ℕ → ℕ → Instruction
  initialize signer admin bury_authority fee_collector godl_per_round =
      instruction GodlInstruction.initialize
        (writable signer true
          ∷ writable (pda Seeds.config) false
          ∷ writable (pda Seeds.treasury) false
          ∷ writable (pda Seeds.board) false
          ∷ writable (pda (Seeds.round 0)) false
          ∷ readonly system_program false
          ∷ [])
        (admin ∷ bury_authority ∷ fee_collector ∷ godl_per_round ∷ []) []

  unfoldable pub automate : ℕ → ℕ → ℕ → ℕ → ℕ → ℕ → ℕ → Bool → Bool → Instruction
  automate signer amount deposit executor fee mask strategy claim_and_fund is_pooled =
      instruction GodlInstruction.automate
        (writable signer true
          ∷ writable (pda (Seeds.automation_v2 signer)) false
          ∷ writable executor false
          ∷ writable (pda (Seeds.miner signer)) false
          ∷ writable (pda (Seeds.pool_member signer)) false
          ∷ readonly system_program false
          ∷ [])
        (amount ∷ deposit ∷ fee ∷ mask ∷ strategy ∷ flag claim_and_fund ∷ flag is_pooled ∷ []) []

  unfoldable pub fund_automation : ℕ → ℕ → Instruction
  fund_automation signer amount =
      instruction GodlInstruction.fund_automation
        (writable signer true
          ∷ writable (pda (Seeds.automation_v2 signer)) false
          ∷ readonly system_program false
          ∷ [])
        (amount ∷ []) []

  unfoldable pub initialize_referrer : ℕ → Instruction
  initialize_referrer signer =
      instruction GodlInstruction.initialize_referrer
        (writable signer true
          ∷ writable (pda (Seeds.referrer signer)) false
          ∷ writable (token_address (pda (Seeds.referrer signer)) mint_address) false
          ∷ writable mint_address false
          ∷ readonly system_program false
          ∷ readonly token_program false
          ∷ readonly associated_token_program false
          ∷ [])
        [] []

  unfoldable pub set_referrer : ℕ → Option ℕ → Instruction
  set_referrer signer referrer =
      instruction GodlInstruction.set_referrer
        (writable signer true ∷ writable (pda (Seeds.miner signer)) false ∷ pushed referrer)
        ((unwrap_or_default referrer) ∷ []) []

  unfoldable pub claim_sol_with_referrer : ℕ → Option ℕ → Instruction
  claim_sol_with_referrer signer referrer =
      instruction GodlInstruction.claim_sol
        (writable signer true
          ∷ writable (pda (Seeds.miner signer)) false
          ∷ readonly system_program false
          ∷ pushed referrer)
        [] []

  unfoldable pub claim_sol : ℕ → Instruction
  claim_sol signer = claim_sol_with_referrer signer none

  unfoldable pub claim_sol_and_fund_automation_with_referrer : ℕ → ℕ → Option ℕ → Instruction
  claim_sol_and_fund_automation_with_referrer signer miner referrer =
      instruction GodlInstruction.claim_sol_and_fund_automation
        (writable signer true
          ∷ writable (pda (Seeds.miner miner)) false
          ∷ writable (pda (Seeds.automation_v2 miner)) false
          ∷ readonly system_program false
          ∷ pushed referrer)
        [] []

  unfoldable pub claim_sol_and_fund_automation : ℕ → ℕ → Option ℕ → Instruction
  claim_sol_and_fund_automation signer miner referrer =
      claim_sol_and_fund_automation_with_referrer signer miner referrer

  unfoldable pub claim_godl_with_referrer : ℕ → Option ℕ → Instruction
  claim_godl_with_referrer signer referrer =
      instruction GodlInstruction.claim_godl
        (writable signer true
          ∷ readonly (pda Seeds.config) false
          ∷ writable (pda (Seeds.miner signer)) false
          ∷ writable mint_address false
          ∷ writable (token_address signer mint_address) false
          ∷ writable (pda Seeds.treasury) false
          ∷ writable (token_address (pda Seeds.treasury) mint_address) false
          ∷ readonly system_program false
          ∷ readonly token_program false
          ∷ readonly associated_token_program false
          ∷ readonly (pda Seeds.gold_vault) false
          ∷ writable (pda (Seeds.miner_extended signer)) false
          ∷ with_tokens referrer)
        [] []

  unfoldable pub claim_godl : ℕ → Instruction
  claim_godl signer = claim_godl_with_referrer signer none

  unfoldable pub claim_referral : ℕ → Instruction
  claim_referral signer =
      instruction GodlInstruction.claim_referral
        (writable signer true
          ∷ writable (pda (Seeds.referrer signer)) false
          ∷ writable (token_address (pda (Seeds.referrer signer)) mint_address) false
          ∷ writable (token_address signer mint_address) false
          ∷ writable mint_address false
          ∷ readonly system_program false
          ∷ readonly token_program false
          ∷ readonly associated_token_program false
          ∷ [])
        [] []

  unfoldable pub checkpoint : ℕ → ℕ → ℕ → Instruction
  checkpoint signer authority round_id =
      instruction GodlInstruction.checkpoint
        (writable signer true
          ∷ writable (pda Seeds.board) false
          ∷ writable (pda (Seeds.miner authority)) false
          ∷ writable (pda (Seeds.round round_id)) false
          ∷ writable (pda Seeds.treasury) false
          ∷ writable (pda (Seeds.pool_round round_id)) false
          ∷ writable (pda (Seeds.pool_member authority)) false
          ∷ readonly system_program false
          ∷ [])
        [] []

  unfoldable pub checkpoint_with_miner_extended : ℕ → ℕ → ℕ → Instruction
  checkpoint_with_miner_extended signer authority round_id = record {
    accounts =
        (checkpoint signer authority round_id).accounts
        ++ (readonly (pda Seeds.gold_vault) false
            ∷ writable (pda (Seeds.miner_extended authority)) false
            ∷ []);
    call = call_of GodlInstruction.checkpoint_with_miner_extended [] [];
  }
