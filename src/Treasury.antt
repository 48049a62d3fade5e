-- ===== src/Treasury.antt =====
-- api/src/state/treasury.rs and the clock sysvar: the state that every component shares.
use godl_program.Base.{ℕ}
use godl_program.Base.Int.{ℤ}

-- the sysvar's fields that the program reads
pub record Clock : Type 0 where
  pub slot : ℕ
  pub unix_timestamp : ℤ

pub record Treasury (N : Type 0) : Type 0 where
  pub balance : ℕ
  pub motherlode : ℕ
  pub miner_rewards_factor : N
  pub stake_rewards_factor : N
  pub total_staked : ℕ
  pub total_unclaimed : ℕ
  pub total_refined : ℕ
