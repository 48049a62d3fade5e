-- ===== src/Tests/Stakes.antt =====
-- The staking instructions: two deposits, their merge, and its lock.
use godl_program.Base.{
  ℕ, ◌+◌, ◌-◌, ◌*◌, ◌≡◌, ◌≤◌, ◌<◌, refl, arith, List, [], ◌∷◌, ok, err, godl, stake_locked,
}
use godl_program.Base.Int.{pos}
use godl_program.Consts.{max_lock_duration, max_stake_multiplier, stake_multiplier_scale}
use godl_program.Isqrt.{isqrt_u128, newton_from, bit_length}
use godl_program.Numeric.Fixed.{units}
use godl_program.Treasury.{Clock, Treasury}
use godl_program.StakeV2.{
  StakeV2, update_rewards, deposit, weighted_units, apply_multiplier, applied_multiplier,
  effective_multiplier, raise_total, lower_total, withdraw, migrate_weight,
}
use godl_program.Stake.{Stake}
use godl_program.Stake
use godl_program.Numeric.{one}
use godl_program.Staking.First.{withdraw_first}
use godl_program.Staking.Totals.{balances, WeightsSum}
use godl_program.Runtime.{create, transfer, open_tokens, close_tokens, close, stake_v2}
use godl_program.Staking.{Accounts, Staked, open_recipient}
use godl_program.Staking.Deposits.{
  fill_new_stake, open_vault, put_in, stake_multiplier, saturate, new_stake,
}
use godl_program.Staking.Withdrawals.{take_out, withdraw_loaded}
use godl_program.Staking.Merge.{
  MergeAccounts, Merged, merge, merge_loaded, settle_both, join, fold_in,
}
use godl_program.Staking.Lifecycle.{
  no_stakes, deposits, merges, withdraws_first, Reachable-IsBalanced,
}
use godl_program.Staking.Locks.{merged_locked}
use godl_program.Staking.Terms.{stake_multiplier_linear}
use godl_program.Staking.Backing.{take_out_backed, merge_backed}
use godl_program.Tests.Samples.{clock, treasury, runtime}

abbrev accounts : Accounts runtime
accounts = record {
  signer_info = 5;
  config_info = 2;
  mint_info = 3;
  sender_info = 4;
  recipient_info = 99;
  stake_info = 6;
  stake_tokens_info = 99;
  treasury_info = 7;
  treasury_tokens_info = 8;
  executor_info = 9;
  system_program = 10;
  token_program = 11;
  associated_token_program = 12;
}

abbrev deposited : StakeV2 ℕ
deposited = record (new_stake runtime accounts clock 1 (pos 0) treasury) {
  balance = 500;
  last_deposit_at = pos 500;
}

abbrev first : Staked runtime
first = record {
  stake_after = deposited;
  treasury_after = record treasury { total_staked = 500 };
  vault = 500;
  effects = create 6 (stake_v2 5 1) 5 ∷ open_tokens 99 6 ∷ transfer 4 99 500 ∷ [];
}

first_run : fill_new_stake runtime accounts clock 1 500 (pos 0) 600 treasury ≡ ok first
unfolding fill_new_stake update_rewards open_vault put_in deposit weighted_units apply_multiplier
    applied_multiplier effective_multiplier isqrt_u128 newton_from bit_length raise_total
    stake_multiplier saturate
first_run = refl

-- a second position, at the longest lock
abbrev locked : StakeV2 ℕ
locked = record (new_stake runtime accounts clock 2 (pos max_lock_duration) treasury) {
  balance = 1000;
  last_deposit_at = pos 500;
}

abbrev second : Staked runtime
second = record {
  stake_after = locked;
  treasury_after = record treasury { total_staked = 4972 };
  vault = 1000;
  effects = create 6 (stake_v2 5 2) 5 ∷ open_tokens 99 6 ∷ transfer 4 99 1000 ∷ [];
}

second_run :
    fill_new_stake runtime accounts clock 2 1000 (pos max_lock_duration) 1000 first.treasury_after
    ≡ ok second
unfolding fill_new_stake update_rewards open_vault put_in deposit weighted_units apply_multiplier
    applied_multiplier effective_multiplier isqrt_u128 newton_from bit_length raise_total
    stake_multiplier saturate
second_run = refl

abbrev merge_accounts : MergeAccounts runtime
merge_accounts = record {
  signer_info = 5;
  mint_info = 3;
  target_stake_info = 6;
  target_tokens_info = 16;
  source_stake_info = 7;
  source_tokens_info = 17;
  treasury_info = 8;
  system_program = 10;
  token_program = 11;
  associated_token_program = 12;
}

abbrev merged : StakeV2 ℕ
merged = record locked { balance = 1500 }

abbrev merged_treasury : Treasury ℕ
merged_treasury = record treasury { total_staked = 6708 }

merge_run : merge clock locked deposited second.treasury_after ≡ ok (merged, merged_treasury)
unfolding merge settle_both join fold_in migrate_weight update_rewards weighted_units
    apply_multiplier applied_multiplier effective_multiplier isqrt_u128 newton_from bit_length
    raise_total stake_multiplier saturate
merge_run = refl

abbrev outcome : Merged runtime
outcome = record {
  target_after = merged;
  treasury_after = merged_treasury;
  vault = 1500;
  effects = transfer 17 16 500 ∷ close_tokens 17 5 ∷ close 7 5 ∷ [];
}

merge_loaded_run :
    merge_loaded runtime merge_accounts clock locked deposited 1000 500 second.treasury_after
    ≡ ok outcome
unfolding merge_loaded
merge_loaded_run = rw merge_run refl

-- a position of the first kind, and what a withdrawal of it all leaves
abbrev old : Stake ℕ
old = record {
  authority = 5;
  balance = 100;
  last_claim_at = pos 0;
  last_deposit_at = pos 0;
  last_withdraw_at = pos 0;
  rewards_factor = 2 * one;
  rewards = 0;
  lifetime_rewards = 0;
  is_seeker = 0;
}

abbrev old_rest : Stake ℕ
old_rest = record old { balance = 0; last_withdraw_at = pos 500 }

abbrev start : Treasury ℕ
start = record treasury { total_staked = 100 }

first_withdraw_run :
    withdraw_first runtime accounts clock 100 100 old start
    ≡ ok (old_rest, treasury, open_tokens 99 5 ∷ transfer 99 99 100 ∷ [])
unfolding withdraw_first open_recipient Stake.withdraw Stake.update_rewards
first_withdraw_run = refl

abbrev olds : List (Stake ℕ)
olds = old_rest ∷ []

Reachable-IsBalanced_example : WeightsSum (balances olds) (merged ∷ []) 6708
Reachable-IsBalanced_example = Reachable-IsBalanced runtime olds (merged ∷ []) merged_treasury (
    merges olds merge_accounts clock locked deposited 1000 500 [] second.treasury_after outcome
      merge_loaded_run
      (deposits olds accounts clock 2 1000 1000 (pos max_lock_duration) (deposited ∷ [])
        first.treasury_after second second_run
        (deposits olds accounts clock 1 500 600 (pos 0) [] treasury first first_run (
          withdraws_first accounts clock 100 100 old old_rest [] [] start treasury
            (open_tokens 99 5 ∷ transfer 99 99 100 ∷ []) first_withdraw_run
            (no_stakes (old ∷ []) start refl)))))

-- a year later the merged position is still locked
abbrev year_later : Clock
year_later = record { slot = 2000; unix_timestamp = pos 31536000 }

merged_locked_example :
    withdraw_loaded runtime accounts year_later 10 1500 merged merged_treasury
    ≡ err (godl stake_locked)
merged_locked_example =
    merged_locked runtime accounts clock year_later 10 1500 locked deposited merged
      second.treasury_after merged_treasury merged_treasury merge_run refl

merge_backed_example :
    (r : Merged runtime) × (merge_loaded runtime merge_accounts clock locked deposited 1000 500
        second.treasury_after
      ≡ ok r)
    × (r.target_after ≡ merged)
    × (r.treasury_after ≡ merged_treasury)
    × (r.effects ≡ transfer 17 16 500 ∷ close_tokens 17 5 ∷ close 7 5 ∷ [])
    × (r.vault ≡ 1500)
    × (1500 ≤ r.vault)
merge_backed_example =
    merge_backed runtime merge_accounts clock 1000 500 locked deposited merged second.treasury_after
      merged_treasury refl refl (omega arith) (omega arith) (omega arith) merge_run

-- the position without a lock, partly withdrawn
abbrev rest : StakeV2 ℕ
rest = record deposited { balance = 300; last_withdraw_at = pos 500 }

abbrev rest_treasury : Treasury ℕ
rest_treasury = record treasury { total_staked = 300 }

withdraw_run : withdraw deposited 200 clock first.treasury_after ≡ ok (200, rest, rest_treasury)
unfolding withdraw update_rewards weighted_units apply_multiplier applied_multiplier
    effective_multiplier isqrt_u128 newton_from bit_length lower_total stake_multiplier saturate
withdraw_run = refl

open_run : open_recipient runtime accounts ≡ ok (open_tokens 99 5 ∷ [])
unfolding open_recipient
open_run = refl

take_out_backed_example :
    (take_out runtime accounts clock 200 510 deposited first.treasury_after
      ≡ ok (record {
        stake_after = rest;
        treasury_after = rest_treasury;
        vault = 310;
        effects = open_tokens 99 5 ∷ transfer 99 99 200 ∷ [];
      }))
    × (300 ≤ 310)
take_out_backed_example =
    take_out_backed runtime accounts clock 200 510 200 (open_tokens 99 5 ∷ []) deposited rest
      first.treasury_after rest_treasury (omega arith) open_run withdraw_run

stake_multiplier_linear_example :
    let line =
      stake_multiplier_scale * (max_lock_duration + (max_stake_multiplier - 1) * 31536000) in
    (stake_multiplier (pos 31536000) * max_lock_duration ≤ line)
    × (line < (stake_multiplier (pos 31536000) + 1) * max_lock_duration)
    × (stake_multiplier_scale ≤ stake_multiplier (pos 31536000))
    × (stake_multiplier (pos 31536000) ≤ max_stake_multiplier * stake_multiplier_scale)
stake_multiplier_linear_example = stake_multiplier_linear 31536000 (omega arith)
