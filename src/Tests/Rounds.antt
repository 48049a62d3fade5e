-- ===== src/Tests/Rounds.antt =====
-- Rounds: the draw, closing a round, and checkpoints.
use godl_program.Base.{
  ℕ, ◌≤◌, ◌≡◌, ◌*◌, ◌+◌, ◌/◌, ok, refl, arith, List, [], ◌∷◌, some, none, get_or, sum, Option,
  Result,
}
use godl_program.Consts.{max_supply}
use godl_program.Numeric.{one}
use godl_program.Numeric.Fixed.{units}
use godl_program.Treasury.{Treasury}
use godl_program.Miner.{Miner, update_rewards, accrue, credit_settled}
use godl_program.Gold.{SolMotherlode, MinerExtended}
use godl_program.Round.{
  winning_square, calculate_total_winnings, winnings_from, did_hit_motherlode, is_split_reward, rng,
}
use godl_program.Round.Draw.{total_winnings_exact}
use godl_program.Runtime.{Effect, send, mint_godl}
use godl_program.Checkpoint.{
  finish_round, Finish, unchanged, paid, pro_rata, deployment_fee, sol_reward, pay,
  load_pool_member, take_bot_fee, round_rewards, winner_rewards, godl_reward, motherlode_reward,
  pay_out,
}
use godl_program.Checkpoint.Payout.{sol_rewards}
use godl_program.Checkpoint.Once.{checkpoint_once}
use godl_program.Reset.{
  resolve, bps_of, pay_winners, divide_round, divide, mint_amounts, name_top, pay_motherlode,
  pay_division, mint_new, mint_pair, fees_lenient, top_miner_lenient,
}
use godl_program.Runtime.Flows.{outflow}
use godl_program.Reset.Outflow.{fees_lenient-PaysFee, top_miner_lenient-NamesOnly}
use godl_program.Reset.Coverage.{round_covered}
use godl_program.Reset.Shares.{mint_amounts_capped}
use godl_program.Tests.Samples.{
  closed_round, sample_round, treasury, config, runtime, reset_accounts, checkpoint_accounts, clock,
  board, miner,
}

total_winnings_exact_example :
    (losing : ℕ) × (calculate_total_winnings sample_round (winning_square 51) ≡ ok losing)
    × (losing + get_or sample_round.deployed (winning_square 51) 0 ≡ sum sample_round.deployed)
total_winnings_exact_example = total_winnings_exact sample_round 51 refl (omega arith)

mint_amounts_run : mint_amounts config 5000 ≡ ok (1000, 200)
unfolding mint_amounts
mint_amounts_run = refl

mint_amounts_capped_example :
    (5000 + 1000 + 200 ≤ max_supply)
    × (1000 ≤ config.godl_per_round)
    × (200 ≤ config.godl_per_round / config.motherlode_denominator)
mint_amounts_capped_example =
    mint_amounts_capped config 5000 1000 200 (omega arith) mint_amounts_run

abbrev lode_account : SolMotherlode
lode_account = record { amount = 30 }

abbrev closed_treasury : Treasury ℕ
closed_treasury = record treasury { balance = 79; motherlode = 220 }

abbrev closed_sends : List (Effect ℕ)
closed_sends = mint_godl 1200 ∷ send 6 2 11 ∷ send 6 1 4 ∷ send 6 9 13 ∷ []

resolve_run :
    resolve runtime reset_accounts config 0
      (fees_lenient runtime reset_accounts)
      (top_miner_lenient runtime reset_accounts)
      sample_round
      treasury
      lode_account
      (some 0)
    ≡ ok (closed_round, closed_treasury, record { amount = 32 }, closed_sends)
unfolding resolve bps_of winning_square pay_winners divide_round calculate_total_winnings
    winnings_from divide mint_amounts name_top is_split_reward pay_division pay_motherlode
    did_hit_motherlode mint_new mint_pair fees_lenient
resolve_run = refl

payout_run : sol_rewards (100 ∷ []) 100 90 ≡ ok 189
unfolding sol_rewards sol_reward deployment_fee pro_rata
payout_run = refl

-- The bound is reached: 12 are sent and 189 credited, of 200 deployed.
round_covered_example : outflow closed_sends + 189 ≤ 200 + 1
unfolding winning_square
round_covered_example =
    round_covered runtime reset_accounts config 0 (fees_lenient runtime reset_accounts)
      (top_miner_lenient runtime reset_accounts) sample_round closed_round treasury closed_treasury
      lode_account (record { amount = 32 }) 0 189 closed_sends (100 ∷ [])
      (fees_lenient-PaysFee runtime reset_accounts)
      (top_miner_lenient-NamesOnly runtime reset_accounts) refl refl (omega arith) (omega arith)
      (omega arith) resolve_run payout_run

-- the third square wins
abbrev unwon_sends : List (Effect ℕ)
unwon_sends = send 6 1 4 ∷ send 6 2 11 ∷ send 6 197 13 ∷ []

abbrev no_gold : Miner ℕ → ℕ → Result (Option (MinerExtended ℕ))
no_gold m n = ok none

abbrev paid_miner : Miner ℕ
paid_miner = record miner {
  checkpoint_id = 7;
  rewards_factor = 3 * one;
  refined_godl = 25;
  rewards_godl = 1200;
  rewards_sol = 189;
  lifetime_rewards_sol = 189;
  lifetime_rewards_godl = 1220;
}

abbrev finished : Finish runtime
finished = paid (record {
  miner = paid_miner;
  round_after = closed_round;
  treasury = record treasury { total_unclaimed = 1240 };
  extended = none;
  effects = send 4 189 3 ∷ [];
})

checkpoint_run :
    finish_round runtime checkpoint_accounts clock board miner treasury no_gold ≡ ok finished
unfolding finish_round pay load_pool_member take_bot_fee round_rewards rng winning_square
    winner_rewards sol_reward deployment_fee pro_rata godl_reward motherlode_reward update_rewards
    accrue credit_settled pay_out
checkpoint_run = refl

checkpoint_once_example :
    finish_round runtime checkpoint_accounts
      (record clock { slot = 2000 })
      board
      paid_miner
      treasury
      no_gold
    ≡ ok unchanged
checkpoint_once_example =
    checkpoint_once runtime checkpoint_accounts checkpoint_accounts clock
      (record clock { slot = 2000 }) board board miner paid_miner treasury treasury no_gold no_gold
      finished checkpoint_run refl
