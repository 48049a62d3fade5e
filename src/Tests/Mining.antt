-- ===== src/Tests/Mining.antt =====
-- Miners' claims, and the gold vault.
use godl_program.Base.{ℕ, ◌≤◌, ◌≡◌, ◌*◌, ◌-◌, ok, refl, arith, [], ◌∷◌}
use godl_program.Numeric.{one}
use godl_program.Numeric.Fixed.{units, units-IsFixedPoint}
use godl_program.Treasury.{Treasury}
use godl_program.Miner.{Miner, claim_godl, update_rewards, accrue, charge_fee}
use godl_program.Miner.Solvency.{IsSolvent}
use godl_program.Miner.Run.{claims, credits, run, run-IsSolvent, claim_godl_covered}
use godl_program.Gold.{GoldVault, distribute, credit}
use godl_program.Gold.Shares.{distribute_solvent, sum_shares}
use godl_program.Tests.Samples.{miner, other_miner, treasury, vault, clock}

sample-IsSolvent : IsSolvent units-IsFixedPoint (miner ∷ other_miner ∷ []) treasury
unfolding units-IsFixedPoint
sample-IsSolvent = record {
  no_ahead = (omega arith, (omega arith, tt));
  total = refl;
  covered = omega arith;
}

run-IsSolvent_example :
    let (ms, t) =
      run
        (claims 0 clock ∷ credits 1 7 30 5 ∷ claims 1 clock ∷ [])
        (miner ∷ other_miner ∷ [], treasury) in
    IsSolvent units-IsFixedPoint ms t
run-IsSolvent_example =
    run-IsSolvent units-IsFixedPoint (claims 0 clock ∷ credits 1 7 30 5 ∷ claims 1 clock ∷ [])
      (miner ∷ other_miner ∷ []) treasury sample-IsSolvent

abbrev settled_miner : Miner ℕ
settled_miner = record miner {
  refined_godl = 25;
  rewards_factor = 3 * one;
  lifetime_rewards_godl = 40;
}

settled_run : update_rewards miner treasury ≡ ok settled_miner
unfolding update_rewards accrue
settled_run = refl

claim_godl_covered_example :
    claim_godl miner clock treasury
    ≡ charge_fee 45 20
        (record settled_miner {
          refined_godl = 0;
          rewards_godl = 0;
          last_claim_godl_at = clock.unix_timestamp;
        })
        (record treasury { total_unclaimed = 40; total_refined = 75 })
unfolding units-IsFixedPoint
claim_godl_covered_example =
    claim_godl_covered units-IsFixedPoint (miner ∷ other_miner ∷ []) treasury 0 miner settled_miner
      clock sample-IsSolvent refl settled_run (omega arith)

-- a tenth of the 20 is shared among the other 40
abbrev claimed_treasury : Treasury ℕ
claimed_treasury = record treasury {
  total_unclaimed = 40;
  total_refined = 77;
  miner_rewards_factor = 858498678967500;
}

abbrev claimed_miner : Miner ℕ
claimed_miner = record settled_miner {
  refined_godl = 0;
  rewards_godl = 0;
  last_claim_godl_at = clock.unix_timestamp;
  lifetime_rewards_godl = 38;
}

claim_run : claim_godl miner clock treasury ≡ ok (43, claimed_miner, claimed_treasury)
unfolding claim_godl update_rewards accrue charge_fee
claim_run = refl

-- 10 new and 4 pending, shared by 7 grams
abbrev distributed : GoldVault ℕ
distributed = record vault {
  xaut_rewards_factor = 562949953421312000000;
  pending_xaut = 0;
  total_xaut_distributed = 64;
}

distribute_run : distribute vault 10 7 ≡ ok (14, distributed)
unfolding distribute credit
distribute_run = refl

distribute_solvent_example :
    sum_shares units-IsFixedPoint (distributed.xaut_rewards_factor - 0) (3 ∷ 4 ∷ []) ≤ 14
unfolding units-IsFixedPoint
distribute_solvent_example =
    distribute_solvent units-IsFixedPoint vault distributed 10 7 14 (3 ∷ 4 ∷ []) (omega arith)
      (omega arith) distribute_run
