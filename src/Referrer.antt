-- ===== src/Referrer.antt =====
-- api/src/state/referrer.rs, and the referral part of a claim of SOL in program/src/miner/claim_sol.rs.
use godl_program.Base.{
  ℕ, ◌/◌, Option, some, none, Result, ok, invalid_instruction_data, ◌>>=◌, checked_add, checked_mul,
}
use godl_program.Consts.{referral_bps, denominator_bps}

pub record Referrer : Type 0 where
  pub authority : ℕ
  pub rewards_sol : ℕ
  pub rewards_godl : ℕ
  pub cumulative_rewards_sol : ℕ
  pub cumulative_rewards_godl : ℕ
  pub referrer_count : ℕ

-- half a percent for a referrer, if there is one
unfoldable pub referral_amount : Option ℕ → ℕ → Result ℕ
referral_amount none amount = ok 0
referral_amount (some referrer) amount = do
  scaled ← checked_mul amount referral_bps invalid_instruction_data
  ok (scaled / denominator_bps)

unfoldable pub credit_sol : Referrer → ℕ → Result Referrer
credit_sol r amount = do
  rewards ← checked_add r.rewards_sol amount invalid_instruction_data
  cumulative ← checked_add r.cumulative_rewards_sol amount invalid_instruction_data
  ok (record r { rewards_sol = rewards; cumulative_rewards_sol = cumulative })

-- the same for GODL, in program/src/miner/claim_godl.rs
unfoldable pub credit_godl : Referrer → ℕ → Result Referrer
credit_godl r amount = do
  rewards ← checked_add r.rewards_godl amount invalid_instruction_data
  cumulative ← checked_add r.cumulative_rewards_godl amount invalid_instruction_data
  ok (record r { rewards_godl = rewards; cumulative_rewards_godl = cumulative })
