-- ===== src/Instruction.antt =====
-- api/src/instruction.rs: the instructions and their discriminants, and an instruction's data. How the
-- `steel` library writes and reads the bytes of a struct is not modelled: the data is the numbers that
-- the struct's fields hold, in order, and the bytes that a client appends.
use godl_program.Base.{ℕ, List}

pub data GodlInstruction : Type 0 where
  initialize claim_sol claim_godl inject_unrefined_rewards log deposit : GodlInstruction
  withdraw claim_yield bury pre_bury set_admin set_fee_collector : GodlInstruction
  set_swap_program set_var_address new_var set_motherlode_denominator : GodlInstruction
  set_godl_per_round withdraw_vault initialize_referrer set_referrer : GodlInstruction
  claim_referral claim_sol_and_fund_automation fund_automation bury_tokens : GodlInstruction
  initialize_sol_motherlode deploy checkpoint reset close automate deposit_v2 : GodlInstruction
  withdraw_v2 claim_yield_v2 compound_yield_v2 set_stake_executor_v2 : GodlInstruction
  reconcile_stake_v2 inject_godl_motherlode stake_nft unstake_nft : GodlInstruction
  initialize_otc_treasury fund_godl_otc execute_otc_trade withdraw_sol_otc : GodlInstruction
  reset_permissionless transfer_mint_authority migrate_stake_weight : GodlInstruction
  rebase_total_staked close_stake_v2 close_phantom_stake_v2 top_up_stake_v2 : GodlInstruction
  merge_stake_v2 initialize_gold_vault create_miner_extended buy_gold : GodlInstruction
  deposit_gold claim_gold rebase_total_unclaimed : GodlInstruction
  checkpoint_with_miner_extended pre_buy_gold deploy_with_miner_extended : GodlInstruction
  update_protocol_config : GodlInstruction

unfoldable pub discriminant : GodlInstruction → ℕ
discriminant initialize = 1
discriminant claim_sol = 3
discriminant claim_godl = 4
discriminant inject_unrefined_rewards = 41
discriminant log = 8
discriminant deposit = 10
discriminant withdraw = 11
discriminant claim_yield = 12
discriminant bury = 13
discriminant pre_bury = 14
discriminant set_admin = 15
discriminant set_fee_collector = 16
discriminant set_swap_program = 17
discriminant set_var_address = 18
discriminant new_var = 19
discriminant set_motherlode_denominator = 20
discriminant set_godl_per_round = 21
discriminant withdraw_vault = 25
discriminant initialize_referrer = 22
discriminant set_referrer = 23
discriminant claim_referral = 24
discriminant claim_sol_and_fund_automation = 27
discriminant fund_automation = 29
discriminant bury_tokens = 30
discriminant initialize_sol_motherlode = 32
discriminant deploy = 33
discriminant checkpoint = 34
discriminant reset = 35
discriminant close = 36
discriminant automate = 37
discriminant deposit_v2 = 38
discriminant withdraw_v2 = 39
discriminant claim_yield_v2 = 40
discriminant compound_yield_v2 = 42
discriminant set_stake_executor_v2 = 43
discriminant reconcile_stake_v2 = 53
discriminant inject_godl_motherlode = 44
discriminant stake_nft = 45
discriminant unstake_nft = 46
discriminant initialize_otc_treasury = 47
discriminant fund_godl_otc = 48
discriminant execute_otc_trade = 49
discriminant withdraw_sol_otc = 50
discriminant reset_permissionless = 51
discriminant transfer_mint_authority = 52
discriminant migrate_stake_weight = 54
discriminant rebase_total_staked = 55
discriminant close_stake_v2 = 56
discriminant close_phantom_stake_v2 = 57
discriminant top_up_stake_v2 = 58
discriminant merge_stake_v2 = 59
discriminant initialize_gold_vault = 60
discriminant create_miner_extended = 61
discriminant buy_gold = 62
discriminant deposit_gold = 63
discriminant claim_gold = 64
discriminant rebase_total_unclaimed = 65
discriminant checkpoint_with_miner_extended = 66
discriminant pre_buy_gold = 67
discriminant deploy_with_miner_extended = 68
discriminant update_protocol_config = 69

-- an instruction, its fields as numbers, and the bytes behind its struct
pub record Call : Type 0 where
  pub kind : GodlInstruction
  pub fields : List ℕ
  pub rest : List ℕ
