-- ===== src/Miner.antt =====
-- api/src/state/miner.rs: a miner's deployments and rewards. A claim of GODL pays a fee of a tenth,
-- which is shared among the miners who have not claimed yet, by their unclaimed GODL.
pub mod Claims
pub mod Solvency
pub mod Run
use godl_program.Base.{
  ℕ, ◌+◌, ◌-◌, ◌/◌, Bool, ◌||◌, Option, some, none, List, Result, ok, panic, ◌>>=◌, ◌>>◌, reject,
  ltb, ◌==◌, if◌then◌else◌, add_u64, sub_u64, ◌^◌,
}
use godl_program.Base.Int.{ℤ}
use godl_program.Numeric.{Numeric}
use godl_program.Treasury.{Clock, Treasury}

pub record Miner (N : Type 0) : Type 0 where
  pub authority : ℕ
  pub referrer : ℕ
  pub deployed : List ℕ
  pub cumulative : List ℕ
  pub checkpoint_fee : ℕ
  pub checkpoint_id : ℕ
  pub last_claim_godl_at : ℤ
  pub last_claim_sol_at : ℤ
  pub rewards_factor : N
  pub rewards_sol : ℕ
  pub rewards_godl : ℕ
  pub refined_godl : ℕ
  pub round_id : ℕ
  pub lifetime_deployed : ℕ
  pub lifetime_rewards_sol : ℕ
  pub lifetime_rewards_godl : ℕ

-- `Pubkey::default()`, and the sentinel of 32 bytes 0xFF, as 256-bit numbers
abbrev pub default_key : ℕ
default_key = 0

abbrev pub referrer_locked_sentinel : ℕ
referrer_locked_sentinel = 2 ^ 256 - 1

module _ {N : Type 0} where
  unfoldable pub referrer_account : Miner N → Option ℕ
  referrer_account m =
      if m.referrer == default_key || m.referrer == referrer_locked_sentinel
      then none
      else some m.referrer

  unfoldable pub is_locked_without_referrer : Miner N → Bool
  is_locked_without_referrer m = m.referrer == referrer_locked_sentinel

  unfoldable pub claim_sol : Miner N → Clock → ℕ × Miner N
  claim_sol m clock =
      (m.rewards_sol, record m { rewards_sol = 0; last_claim_sol_at = clock.unix_timestamp })

module _ {N : Type 0} ⦃num : Numeric N⦄ where
  unfoldable pub accrue : Miner N → Treasury N → Result (Miner N)
  accrue m t = do
    accumulated ← num.minus t.miner_rewards_factor m.rewards_factor
    reject (num.lt accumulated num.nought) panic
    personal ← num.times accumulated (num.from_u64 m.rewards_godl)
    earned ← num.to_u64 personal
    refined ← add_u64 m.refined_godl earned
    lifetime ← add_u64 m.lifetime_rewards_godl earned
    ok (record m { refined_godl = refined; lifetime_rewards_godl = lifetime })

  unfoldable pub update_rewards : Miner N → Treasury N → Result (Miner N)
  update_rewards m t = do
    m' ← if num.lt m.rewards_factor t.miner_rewards_factor then accrue m t else ok m
    ok (record m' { rewards_factor = t.miner_rewards_factor })

  -- the fee on `rewards_godl`, taken while others have unclaimed GODL
  unfoldable pub charge_fee : ℕ → ℕ → Miner N → Treasury N → Result (ℕ × Miner N × Treasury N)
  charge_fee amount rewards_godl m t = if t.total_unclaimed == 0 then ok (amount, m, t) else do
    let fee = rewards_godl / 10
    left ← sub_u64 amount fee
    fraction ← num.from_fraction fee t.total_unclaimed
    factor ← num.plus t.miner_rewards_factor fraction
    refined ← add_u64 t.total_refined fee
    lifetime ← sub_u64 m.lifetime_rewards_godl fee
    ok (
      left,
      record m { lifetime_rewards_godl = lifetime },
      record t { miner_rewards_factor = factor; total_refined = refined },
    )

  unfoldable pub claim_godl : Miner N → Clock → Treasury N → Result (ℕ × Miner N × Treasury N)
  claim_godl m clock t = do
    m₁ ← update_rewards m t
    amount ← add_u64 m₁.refined_godl m₁.rewards_godl
    unclaimed ← sub_u64 t.total_unclaimed m₁.rewards_godl
    refined ← sub_u64 t.total_refined m₁.refined_godl
    charge_fee amount m₁.rewards_godl
        (record m₁ {
          refined_godl = 0;
          rewards_godl = 0;
          last_claim_godl_at = clock.unix_timestamp;
        })
        (record t { total_unclaimed = unclaimed; total_refined = refined })

  -- the end of `process_checkpoint`: what a round pays is credited to the settled miner
  unfoldable pub credit_settled : Miner N → ℕ → ℕ → ℕ → Treasury N → Result (Miner N × Treasury N)
  credit_settled m₁ round_id godl sol t = do
    rewards_godl ← add_u64 m₁.rewards_godl godl
    lifetime_godl ← add_u64 m₁.lifetime_rewards_godl godl
    rewards_sol ← add_u64 m₁.rewards_sol sol
    lifetime_sol ← add_u64 m₁.lifetime_rewards_sol sol
    unclaimed ← add_u64 t.total_unclaimed godl
    ok (
      record m₁ {
        checkpoint_id = round_id;
        rewards_godl = rewards_godl;
        lifetime_rewards_godl = lifetime_godl;
        rewards_sol = rewards_sol;
        lifetime_rewards_sol = lifetime_sol;
      },
      record t { total_unclaimed = unclaimed },
    )

  unfoldable pub credit_round : Miner N → ℕ → ℕ → ℕ → Treasury N → Result (Miner N × Treasury N)
  credit_round m round_id godl sol t = do
    m₁ ← update_rewards m t
    credit_settled m₁ round_id godl sol t
