-- ===== src/Setup/Genesis.antt =====
-- program/src/initialize.rs and program/src/admin/initialize_sol_motherlode.rs: the program's first
-- accounts.
use godl_program.Base.{ℕ, List, [], ◌∷◌, Result, ok, panic, ◌>>◌, require, leb, replicate, u64_max}
use godl_program.Consts.{
  max_godl_per_round, deployer_address, default_round_slots, default_intermission_slots,
}
use godl_program.Numeric.{Numeric}
use godl_program.Treasury.{Treasury}
use godl_program.Gold.{SolMotherlode}
use godl_program.Miner.{default_key}
use godl_program.Round.{Board, Config, Round}
use godl_program.Runtime.{
  Steel, Effect, Seeds, create, config, treasury, board, round, sol_motherlode,
}

pub record InitializeArgs : Type 0 where
  pub admin : ℕ
  pub bury_authority : ℕ
  pub fee_collector : ℕ
  pub godl_per_round : ℕ

-- the account is zeroed when it is created
abbrev pub first_config : InitializeArgs → Config
first_config args = record {
  admin = args.admin;
  godl_per_round = args.godl_per_round;
  bury_authority = args.bury_authority;
  fee_collector = args.fee_collector;
  swap_program = default_key;
  var_address = default_key;
  motherlode_denominator = 5;
  round_slots = default_round_slots;
  intermission_slots = default_intermission_slots;
  buffer = replicate 32 0;
}

abbrev pub first_board : Board
first_board = record { round_id = 0; start_slot = 0; end_slot = u64_max }

abbrev pub first_round : ℕ → Round
first_round rent_payer = record {
  id = 0;
  deployed = replicate 25 0;
  slot_hash = replicate 32 0;
  count = replicate 25 0;
  expires_at = u64_max;
  motherlode = 0;
  rent_payer = rent_payer;
  top_miner = default_key;
  top_miner_reward = 0;
  total_deployed = 0;
  total_vaulted = 0;
  total_winnings = 0;
}

module _ {N A : Type 0} ⦃num : Numeric N⦄ (steel : Steel N A) where
  open steel use {key, is_signer, is_writable, is_empty, has_address, has_seeds, is_system_program}

  -- each instruction is given some of these
  pub record Accounts : Type 0 where
    pub signer_info : A
    pub config_info : A
    pub treasury_info : A
    pub board_info : A
    pub round_info : A
    pub sol_motherlode_info : A
    pub system_program : A

  abbrev pub first_treasury : Treasury N
  first_treasury = record {
    balance = 0;
    motherlode = 0;
    miner_rewards_factor = num.nought;
    stake_rewards_factor = num.nought;
    total_staked = 0;
    total_unclaimed = 0;
    total_refined = 0;
  }

  pub record Initialized : Type 0 where
    pub config_after : Config
    pub treasury_after : Treasury N
    pub board_after : Board
    pub round_after : Round
    pub effects : List (Effect A)

  unfoldable pub check_new : A → Seeds → Result (Unit {0})
  check_new info seeds = do is_empty info; is_writable info; has_seeds info seeds

  unfoldable pub process_initialize : Accounts → InitializeArgs → Result Initialized
  process_initialize a args = do
    require (leb args.godl_per_round max_godl_per_round) panic
    is_signer a.signer_info
    has_address a.signer_info deployer_address
    is_system_program a.system_program
    check_new a.config_info config
    check_new a.treasury_info treasury
    check_new a.board_info board
    check_new a.round_info (round 0)
    ok (record {
      config_after = first_config args;
      treasury_after = first_treasury;
      board_after = first_board;
      round_after = first_round (key a.signer_info);
      effects =
          create a.config_info config a.signer_info
          ∷ create a.treasury_info treasury a.signer_info
          ∷ create a.board_info board a.signer_info
          ∷ create a.round_info (round 0) a.signer_info
          ∷ [];
    })

  unfoldable pub process_initialize_sol_motherlode :
      Accounts → Result (SolMotherlode × List (Effect A))
  process_initialize_sol_motherlode a = do
    is_signer a.signer_info
    has_address a.signer_info deployer_address
    is_system_program a.system_program
    check_new a.sol_motherlode_info sol_motherlode
    ok (record { amount = 0 }, create a.sol_motherlode_info sol_motherlode a.signer_info ∷ [])
