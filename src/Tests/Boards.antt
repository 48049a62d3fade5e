-- ===== src/Tests/Boards.antt =====
-- The first deploy of a round, and the board.
use godl_program.Base.{ℕ, ◌+◌, ◌≡◌, ◌<◌, refl, arith, ok, some, none, [], ◌∷◌, replicate, u64_max}
use godl_program.Numeric.Fixed.{units}
use godl_program.Round.{Board, Round, round_slots}
use godl_program.Pool.{PoolRound}
use godl_program.Round.Phases.{Steps, waiting, running, game, at_rest, deploys, Ran-refines}
use godl_program.Squares.{
  mask_squares, squares_to_deploy, deploy_squares, visit, deploy_square, enter_square,
  enter_if_pooled, tally, stops,
}
use godl_program.Deploy.{
  Accounts, DeployArgs, Deployed, opened_miner, deploy, load_open, start_round, var_of, play,
  load_automation, choose, pooled, open_miner, open_gold, reset_miner, place_if_funded, can_fund,
  place, top_up, check_pool, pay_deploy,
}
use godl_program.Runtime.{Steel, next_var, create, collect, miner}
use godl_program.Tests.Samples.{runtime, sample_round, clock, config}

abbrev next_board : Board
next_board = record { round_id = 8; start_slot = 900; end_slot = u64_max }

abbrev next_round : Round
next_round = record sample_round {
  id = 8;
  deployed = replicate 25 0;
  count = replicate 25 0;
  total_deployed = 0;
}

abbrev next_pool : PoolRound
next_pool = record {
  id = 8;
  deployed = replicate 25 0;
  count = replicate 25 0;
  total_deployed = 0;
  rent_payer = 3;
}

abbrev waiting_runtime : Steel ℕ ℕ
waiting_runtime = record runtime {
  as_board = λ a. ok next_board;
  as_round = λ a. ok next_round;
  as_pool_round = λ a. ok next_pool;
  as_var = λ a. ok (record { authority = 4; samples = 1; slot_hash = []; seed = []; value = [] });
}

abbrev accounts : Accounts waiting_runtime
accounts = record {
  signer_info = 9;
  authority_info = 9;
  automation_v2_info = 99;
  board_info = 4;
  miner_info = 99;
  round_info = 6;
  pool_round_info = 7;
  pool_member_info = 8;
  config_info = 10;
  system_program = 11;
  gold_vault_info = 12;
  miner_extended_info = 13;
  entropy_accounts = some (20, 21);
}

-- 50 on each of the first two squares
abbrev args : DeployArgs
args = record { amount = 50; squares = 3; is_pooled = 0 }

abbrev started : Deployed waiting_runtime
started = record {
  board = record { round_id = 8; start_slot = 1000; end_slot = 1150 };
  round_after = record next_round {
    deployed = 50 ∷ 50 ∷ replicate 23 0;
    count = 1 ∷ 1 ∷ replicate 23 0;
    total_deployed = 100;
    expires_at = 217150;
  };
  pool_round = next_pool;
  pool_member = none;
  miner = record (opened_miner waiting_runtime 9) {
    deployed = 50 ∷ 50 ∷ replicate 23 0;
    round_id = 8;
    lifetime_deployed = 100;
    checkpoint_fee = 10000;
  };
  automation = none;
  extended = none;
  effects = next_var 4 20 1150 ∷ create 99 (miner 9) 9 ∷ collect 99 10000 9 ∷ collect 6 100 9 ∷ [];
}

first_deploy : deploy waiting_runtime accounts clock args (ok none) ≡ ok started
unfolding deploy load_open start_round var_of round_slots play load_automation choose pooled
    mask_squares open_miner open_gold reset_miner place_if_funded can_fund squares_to_deploy place
    deploy_squares visit deploy_square enter_square enter_if_pooled tally stops top_up check_pool
    pay_deploy
first_deploy = refl

short : 1000 + round_slots config < u64_max
unfolding round_slots
short = omega arith

Ran-refines_example : Steps (game 8 waiting) (game 8 (running 1150))
Ran-refines_example = Ran-refines ℕ ℕ next_board started.board (
    deploys waiting_runtime accounts clock args (ok none) config next_board next_board started
      (at_rest next_board) refl refl short first_deploy)
