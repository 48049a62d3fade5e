-- ===== src/Tests/Numbers.antt =====
-- The square root, the weights, and shares of amounts.
use godl_program.Base.{◌≤◌, ◌<◌, ◌≡◌, ◌*◌, ◌+◌, ok, refl, arith, [], ◌∷◌, u64_mod}
use godl_program.Isqrt.{isqrt_u128, newton_from, bit_length, div_ceil_two}
use godl_program.Isqrt.Floor.{isqrt_u128_floor}
use godl_program.StakeV2.{applied_multiplier, effective_multiplier, weighted_units}
use godl_program.StakeV2.Weight.{effective_multiplier_floor, weighted_units_total, exact_units}
use godl_program.Checkpoint.{pro_rata, deployment_fee, sol_reward}
use godl_program.Checkpoint.Payout.{sol_rewards}
use godl_program.Tests.Samples.{position}

isqrt_u128_floor_example :
    let r = isqrt_u128 1000000 in (r * r ≤ 1000000) × (1000000 < (r + 1) * (r + 1))
isqrt_u128_floor_example = isqrt_u128_floor 1000000 (omega arith)

effective_multiplier_floor_example :
    let e = effective_multiplier 4000000000 in
    let n = 4000000000 * 1000000000 in (e < u64_mod) × (e * e ≤ n) × (n < (e + 1) * (e + 1))
effective_multiplier_floor_example = effective_multiplier_floor 4000000000 (omega arith)

weighted_units_total_example : weighted_units position ≡ ok (exact_units position)
unfolding applied_multiplier
weighted_units_total_example =
    weighted_units_total position (omega arith) (omega arith) (omega arith)

sol_rewards_run : sol_rewards (60 ∷ 40 ∷ []) 100 90 ≡ ok 188
unfolding sol_rewards sol_reward deployment_fee pro_rata
sol_rewards_run = refl

-- a 4x multiplier has the weight of 2x on the square-root curve
effective_multiplier_run : effective_multiplier 4000000000 ≡ 2000000000
unfolding effective_multiplier isqrt_u128 newton_from bit_length div_ceil_two
effective_multiplier_run = refl
