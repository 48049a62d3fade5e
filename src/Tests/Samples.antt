-- ===== src/Tests/Samples.antt =====
-- Sample states. Fixed-point numbers are numbers of units.
use godl_program.Base.{ℕ, ◌+◌, ◌*◌, ok, err, some, [], ◌∷◌, replicate, external, ◌==◌}
use godl_program.Base.Int.{pos}
use godl_program.Consts.{split_address}
use godl_program.Numeric.{one}
use godl_program.Numeric.Fixed.{units}
use godl_program.Treasury.{Clock, Treasury}
use godl_program.StakeV2.{StakeV2}
use godl_program.Miner.{Miner}
use godl_program.Gold.{GoldVault}
use godl_program.Round.{Board, Config, Round}
use godl_program.Referrer.{Referrer}
use godl_program.Otc.{OtcTreasury}
use godl_program.Runtime.{Steel}
use godl_program.Reset
use godl_program.Checkpoint

abbrev pub clock : Clock
clock = record { slot = 1000; unix_timestamp = pos 500 }

abbrev pub treasury : Treasury ℕ
treasury = record {
  balance = 70;
  motherlode = 200;
  miner_rewards_factor = 3 * one;
  stake_rewards_factor = 2 * one;
  total_staked = 0;
  total_unclaimed = 60;
  total_refined = 100;
}

-- a linear position of 1000 at 2x
abbrev pub position : StakeV2 ℕ
position = record {
  id = 1;
  authority = 5;
  balance = 1000;
  last_claim_at = pos 0;
  last_deposit_at = pos 0;
  last_withdraw_at = pos 0;
  rewards_factor = one;
  rewards = 10;
  lifetime_rewards = 10;
  multiplier = 2000000000;
  lock_duration = pos 0;
  executor = 0;
  created_at = pos 0;
  is_nft_staked = 0;
  weight_version = 0;
  buffer = [];
}

abbrev pub miner : Miner ℕ
miner = record {
  authority = 9;
  referrer = 0;
  deployed = 100 ∷ replicate 24 0;
  cumulative = replicate 25 0;
  checkpoint_fee = 10;
  checkpoint_id = 6;
  last_claim_godl_at = pos 0;
  last_claim_sol_at = pos 0;
  rewards_factor = 2 * one;
  rewards_sol = 0;
  rewards_godl = 20;
  refined_godl = 5;
  round_id = 7;
  lifetime_deployed = 100;
  lifetime_rewards_sol = 0;
  lifetime_rewards_godl = 20;
}

abbrev pub other_miner : Miner ℕ
other_miner = record miner { authority = 10; rewards_godl = 40; refined_godl = 0 }

abbrev pub vault : GoldVault ℕ
vault = record {
  xaut_rewards_factor = 0;
  pending_xaut = 4;
  total_xaut_distributed = 50;
  total_xaut_claimed = 20;
  total_sol_swapped = 0;
  buffer = [];
}

-- 100 on the first square and 100 on the second
abbrev pub sample_round : Round
sample_round = record {
  id = 7;
  deployed = 100 ∷ 100 ∷ replicate 23 0;
  slot_hash = 25 ∷ replicate 31 0;
  count = 1 ∷ 1 ∷ replicate 23 0;
  expires_at = 1000000;
  motherlode = 0;
  rent_payer = 3;
  top_miner = 0;
  top_miner_reward = 0;
  total_deployed = 200;
  total_vaulted = 0;
  total_winnings = 0;
}

-- closed: the first square has won, the reward is split, and the motherlode is hit
abbrev pub closed_round : Round
closed_round = record sample_round {
  motherlode = 180;
  top_miner = split_address;
  top_miner_reward = 1000;
  total_vaulted = 9;
  total_winnings = 90;
}

abbrev pub sample_referrer : Referrer
sample_referrer = record {
  authority = 44;
  rewards_sol = 3;
  rewards_godl = 0;
  cumulative_rewards_sol = 30;
  cumulative_rewards_godl = 0;
  referrer_count = 1;
}

abbrev pub otc_desk : OtcTreasury
otc_desk = record { sol_balance = 0; godl_balance = 900; buffer = replicate 32 0 }

abbrev pub board : Board
board = record { round_id = 8; start_slot = 900; end_slot = 950 }

abbrev pub config : Config
config = record {
  admin = 1;
  godl_per_round = 1000;
  bury_authority = 1;
  fee_collector = 2;
  swap_program = 3;
  var_address = 4;
  motherlode_denominator = 5;
  round_slots = 0;
  intermission_slots = 0;
  buffer = [];
}

-- accounts are numbers; every check passes
abbrev pub runtime : Steel ℕ ℕ
runtime = record {
  key = λ a. a;
  data_is_empty = λ a. a == 99;
  lamports = λ a. 1000;
  is_signer = λ a. ok tt;
  is_writable = λ a. ok tt;
  is_empty = λ a. ok tt;
  has_address = λ a k. ok tt;
  has_seeds = λ a s. ok tt;
  is_system_program = λ a. ok tt;
  is_token_program = λ a. ok tt;
  is_associated_token_program = λ a. ok tt;
  is_godl_program = λ a. ok tt;
  is_entropy_program = λ a. ok tt;
  is_executable = λ a. ok tt;
  has_owner = λ a. ok tt;
  data_len = λ a. 232;
  is_mint_program = λ a. ok tt;
  is_slot_hashes = λ a. ok tt;
  as_board = λ a. ok board;
  as_config = λ a. ok config;
  as_grown_config = λ a. ok config;
  as_treasury = λ a. ok treasury;
  as_miner = λ a. ok miner;
  as_miner_extended = λ a. err external;
  as_gold_vault = λ a. ok vault;
  as_sol_motherlode = λ a. ok (record { amount = 30 });
  as_round = λ a. ok closed_round;
  as_pool_member = λ a. err external;
  as_pool_round = λ a. err external;
  as_var = λ a. err external;
  as_referrer = λ a. ok sample_referrer;
  as_automation = λ a. err external;
  as_otc_treasury = λ a. ok otc_desk;
  as_otc_user = λ a. err external;
  hashv = λ k n. replicate 32 100;
  as_stake = λ a. err external;
  as_stake_v2 = λ a. ok position;
  is_mint_authority = λ a. ok tt;
  as_mint = λ a. ok 0;
  as_tokens = λ a o. ok 0;
  as_xaut = λ a o. ok 100;
  as_wsol = λ a o. ok 50;
  stake_v2_pda = λ a n. a + n;
  associated_token_address = λ a. a + 100;
  miner_rent = 500;
  treasury_struct_rent = 600;
  round_rent = 400;
  pool_round_rent = 300;
  config_rent = 700;
  sol_motherlode_rent = 200;
}

abbrev pub reset_accounts : Reset.Accounts runtime
reset_accounts = record {
  signer_info = 1;
  board_info = 2;
  config_info = 3;
  fee_collector_info = 4;
  mint_info = 5;
  round_info = 6;
  round_next_info = 7;
  pool_round_next_info = 8;
  top_miner_info = 99;
  top_miner_pool_member_info = 99;
  sol_motherlode_info = 11;
  rush_sol_vault_info = 12;
  treasury_info = 13;
  treasury_tokens_info = 14;
  system_program = 15;
  token_program = 16;
  godl_program = 17;
  slot_hashes_sysvar = 18;
  var_info = 19;
  entropy_program = 20;
  mint_accounts = some (21, 22);
}

abbrev pub checkpoint_accounts : Checkpoint.Accounts runtime
checkpoint_accounts = record {
  signer_info = 1;
  board_info = 2;
  miner_info = 3;
  round_info = 4;
  treasury_info = 5;
  pool_round_info = 99;
  pool_member_info = 99;
  system_program = 8;
  gold_vault_info = 9;
  miner_extended_info = 99;
}
