-- ===== src/Tests/Plays.antt =====
-- Plays of a round: squares, ranges, and the winner among them; an automation's settings and funds.
use godl_program.Base.{
  ℕ, zero, suc, ◌<◌, ◌≡◌, ◌*◌, ◌+◌, ◌/◌, ◌^◌, ◌⊎◌, ok, refl, arith, List, [], ◌∷◌, some, none, sum,
  true, false, length, replicate, sum_by, Bool, All, external, err,
}
use godl_program.Numeric.Fixed.{units}
use godl_program.Miner.{Miner}
use godl_program.Round.{Round}
use godl_program.Automation.{
  AutomationV2, AutomationV2Strategy, get_strategy, set_strategy, get_claim_and_fund,
  set_claim_and_fund, get_is_pooled, set_is_pooled,
}
use godl_program.Automation.Bytes.{settings_roundtrip}
use godl_program.Squares.{
  Bet, Deployment, deploy_squares, visit, deploy_square, enter_square, enter_if_pooled, tally,
  generate_random_mask, stops, squares_to_deploy,
}
use godl_program.Squares.Choice.{chosen, random_mask_exact}
use godl_program.Squares.History.{Played, fresh_round, play, Tiles, Played-Tiles, Played-totals}
use godl_program.Checkpoint.Winner.{solo_rewards, solo_paid_once}
use godl_program.Deploy.{Accounts, place_if_funded, can_fund, place, top_up, check_pool, pay_deploy}
use godl_program.Deploy.Funds.{left}
use godl_program.Deploy.Funded.{Debited, all_or_nothing}
use godl_program.Runtime.{send, close}
use godl_program.Tests.Samples.{sample_round, miner, runtime}

abbrev automation : AutomationV2
automation = record {
  amount = 50;
  authority = 9;
  balance = 1000;
  executor = 1;
  fee = 5;
  config = 7;
  mask = 3;
}

settings_roundtrip_example :
    let b =
      set_is_pooled
        (set_claim_and_fund (set_strategy automation AutomationV2Strategy.preferred) true)
        false in
    (get_strategy b ≡ ok AutomationV2Strategy.preferred)
    × (get_claim_and_fund b ≡ true)
    × (get_is_pooled b ≡ false)
    × (b.config / 2 ^ 24 ≡ automation.config / 2 ^ 24)
settings_roundtrip_example = settings_roundtrip automation AutomationV2Strategy.preferred true false

small_bytes : (n : ℕ) → All (λ b. b < 256) (replicate n 100)
small_bytes zero = tt
small_bytes (suc n) = (omega arith, small_bytes n)

random_mask_exact_example :
    (chosen (generate_random_mask 3 (replicate 32 100)) ≡ 3)
    × (length (generate_random_mask 3 (replicate 32 100)) ≡ 25)
random_mask_exact_example =
    random_mask_exact 3 (replicate 32 100) (omega arith) (omega arith) (small_bytes 32)

abbrev empty_round : Round
empty_round = record sample_round {
  deployed = replicate 25 0;
  count = replicate 25 0;
  total_deployed = 0;
}

abbrev first_bet : Bet ℕ
first_bet = record { amount = 100; is_pooled = false; automation = none; member = err external }

abbrev two_squares : List Bool
two_squares = true ∷ true ∷ replicate 23 false

abbrev before : Deployment ℕ ℕ
before = record {
  miner = record miner { deployed = replicate 25 0 };
  round = empty_round;
  pool_round = record {
    id = 7;
    deployed = replicate 25 0;
    count = replicate 25 0;
    total_deployed = 0;
    rent_payer = 3;
  };
  pool_member = none;
  total_amount = 0;
  total_squares = 0;
  effects = [];
}

abbrev after : Deployment ℕ ℕ
after = record before {
  miner = record miner { deployed = 100 ∷ 100 ∷ replicate 23 0 };
  round = record empty_round {
    deployed = 100 ∷ 100 ∷ replicate 23 0;
    count = 1 ∷ 1 ∷ replicate 23 0;
    total_deployed = 200;
  };
  total_amount = 200;
  total_squares = 2;
}

first_run : deploy_squares first_bet 0 two_squares before ≡ ok after
unfolding deploy_squares visit deploy_square enter_square enter_if_pooled tally stops
first_run = refl

-- a second miner, on the first square
abbrev second_bet : Bet ℕ
second_bet = record first_bet { amount = 50 }

abbrev one_square : List Bool
one_square = true ∷ replicate 24 false

abbrev later : Deployment ℕ ℕ
later = record after {
  miner = record miner {
    authority = 10;
    deployed = replicate 25 0;
    cumulative = 100 ∷ 100 ∷ replicate 23 0;
  };
  total_amount = 0;
  total_squares = 0;
}

abbrev last : Deployment ℕ ℕ
last = record later {
  miner = record later.miner { deployed = 50 ∷ replicate 24 0 };
  round = record after.round {
    deployed = 150 ∷ 100 ∷ replicate 23 0;
    count = 2 ∷ 1 ∷ replicate 23 0;
    total_deployed = 250;
  };
  total_amount = 50;
  total_squares = 1;
}

second_run : deploy_squares second_bet 0 one_square later ≡ ok last
unfolding deploy_squares visit deploy_square enter_square enter_if_pooled tally stops
second_run = refl

abbrev players : List (Miner ℕ)
players = last.miner ∷ after.miner ∷ []

two_plays : Played ℕ last.round players
two_plays =
    play second_bet one_square later last (after.miner ∷ []) refl refl refl (λ k. omega arith)
      second_run
      (play first_bet two_squares before after [] refl refl refl (λ k. omega arith) first_run
        (fresh_round empty_round refl refl))

Played-Tiles_example : Tiles 0 players 150
Played-Tiles_example = Played-Tiles 0 last.round players (omega arith) two_plays

Played-totals_example :
    (length last.round.deployed ≡ 25)
    × (sum last.round.deployed ≡ 250)
    × (sum_by (λ m. sum m.deployed) players ≡ 250)
Played-totals_example = Played-totals last.round players two_plays

solo_paid_once_example :
    solo_rewards runtime players (record last.round { top_miner_reward = 1000 }) 77 0 ≡ ok 1000
solo_paid_once_example =
    solo_paid_once runtime players last.round (record last.round { top_miner_reward = 1000 }) 77 0
      two_plays refl (omega arith) (omega arith) (omega arith)

abbrev deploy_accounts : Accounts runtime
deploy_accounts = record {
  signer_info = 1;
  authority_info = 9;
  automation_v2_info = 3;
  board_info = 4;
  miner_info = 5;
  round_info = 6;
  pool_round_info = 7;
  pool_member_info = 8;
  config_info = 10;
  system_program = 11;
  gold_vault_info = 12;
  miner_extended_info = 13;
  entropy_accounts = none;
}

abbrev automated : Deployment ℕ ℕ
automated = record before {
  miner = record miner { deployed = 50 ∷ 50 ∷ replicate 23 0; lifetime_deployed = 200 };
  round = record empty_round {
    deployed = 50 ∷ 50 ∷ replicate 23 0;
    count = 1 ∷ 1 ∷ replicate 23 0;
    total_deployed = 100;
  };
  total_amount = 100;
  total_squares = 2;
  effects = send 3 100 6 ∷ send 3 5 1 ∷ [];
}

automated_run :
    place_if_funded runtime deploy_accounts (some automation) false 50 two_squares before
    ≡ ok (automated, some (record automation { balance = 895 }))
unfolding place_if_funded can_fund squares_to_deploy place deploy_squares visit deploy_square
    enter_square enter_if_pooled tally stops top_up check_pool pay_deploy
automated_run = refl

all_or_nothing_example :
    ((automated ≡ record before { effects = close 3 9 ∷ [] })
      × (some (record automation { balance = 895 }) ≡ some automation))
    ⊎ ((2 ≡ 0 + left before 0 two_squares)
        × (100 ≡ 0 + 50 * left before 0 two_squares)
        × Debited
            (some automation)
            (some (record automation { balance = 895 }))
            (50 * left before 0 two_squares))
all_or_nothing_example =
    all_or_nothing runtime deploy_accounts (some automation)
      (some (record automation { balance = 895 })) false 50 two_squares before automated refl
      (omega arith) (omega arith) automated_run
