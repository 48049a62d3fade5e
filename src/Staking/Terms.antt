-- ===== src/Staking/Terms.antt =====
-- The multiplier that a lock earns.
use godl_program.Base.{ℕ, ◌+◌, ◌-◌, ◌*◌, ◌≤◌, ◌<◌, arith}
use godl_program.Base.Int.{pos}
use godl_program.Consts.{max_lock_duration, max_stake_multiplier, stake_multiplier_scale}
use godl_program.Staking.Deposits.{saturate, stake_multiplier}

-- For a lock of at most the longest duration nothing saturates or is cut off: the multiplier is the
-- one, in billionths and rounded down, on the line from 1x without a lock to 20x for the longest.
pub stake_multiplier_linear :
    (d : ℕ)
    → d ≤ max_lock_duration
    → let line = stake_multiplier_scale * (max_lock_duration + (max_stake_multiplier - 1) * d) in
      (stake_multiplier (pos d) * max_lock_duration ≤ line)
      × (line < (stake_multiplier (pos d) + 1) * max_lock_duration)
      × (stake_multiplier_scale ≤ stake_multiplier (pos d))
      × (stake_multiplier (pos d) ≤ max_stake_multiplier * stake_multiplier_scale)
unfolding stake_multiplier saturate
stake_multiplier_linear d h = (ground arith, ground arith, ground arith, ground arith)
