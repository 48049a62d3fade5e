-- ===== src/Tests/Staking.antt =====
-- Stake positions: the weights' sum, and settlements.
use godl_program.Base.{ℕ, ◌≤◌, ◌≡◌, ◌*◌, ◌+◌, ◌-◌, ok, refl, arith, [], ◌∷◌}
use godl_program.Numeric.{one}
use godl_program.Numeric.Fixed.{units, units-IsFixedPoint}
use godl_program.Treasury.{Treasury}
use godl_program.StakeV2.{
  StakeV2, weighted_units, apply_multiplier, applied_multiplier, update_rewards, accrue,
}
use godl_program.StakeV2.Rewards.{
  update_rewards_exact, settle_all, settle_all_solvent, pending, owed,
}
use godl_program.Tests.Samples.{position, treasury}

weight_run : weighted_units position ≡ ok 2000
unfolding weighted_units apply_multiplier applied_multiplier
weight_run = refl

abbrev staked : Treasury ℕ
staked = record treasury { total_staked = 4000 }

abbrev settled_position : StakeV2 ℕ
settled_position = record position {
  rewards = 2010;
  lifetime_rewards = 2010;
  rewards_factor = 2 * one;
}

settlement_run : update_rewards position treasury ≡ ok settled_position
unfolding update_rewards accrue weighted_units apply_multiplier applied_multiplier
settlement_run = refl

update_rewards_exact_example :
    (settled_position.rewards ≡ position.rewards + owed units-IsFixedPoint position treasury 2000)
    × (settled_position.lifetime_rewards
        ≡ position.lifetime_rewards + owed units-IsFixedPoint position treasury 2000)
    × (settled_position.rewards_factor ≡ treasury.stake_rewards_factor)
update_rewards_exact_example =
    update_rewards_exact units-IsFixedPoint position settled_position treasury 2000 weight_run
      settlement_run

settle_all_run :
    settle_all (position ∷ position ∷ []) treasury ≡ ok (settled_position ∷ settled_position ∷ [])
unfolding settle_all update_rewards accrue weighted_units apply_multiplier applied_multiplier
settle_all_run = refl

settle_all_solvent_example :
    pending units-IsFixedPoint (settled_position ∷ settled_position ∷ []) * one
    ≤ pending units-IsFixedPoint (position ∷ position ∷ []) * one + (2 * one - one) * 4000
unfolding units-IsFixedPoint
settle_all_solvent_example =
    settle_all_solvent units-IsFixedPoint (position ∷ position ∷ [])
      (settled_position ∷ settled_position ∷ []) treasury 4000 one
      (2000, 2000, weight_run, (2000, 0, weight_run, refl, refl), refl)
      (omega arith, (omega arith, tt)) settle_all_run
