-- ===== src/Stake.antt =====
-- api/src/state/stake.rs and program/src/stake/deposit.rs: a position of the first kind, whose weight
-- is its balance.
pub mod Totals
use godl_program.Base.{
  ℕ, ◌+◌, ◌-◌, ◌*◌, min, Result, ok, err, godl, stake_v1_deprecated, panic, ◌>>=◌, ◌>>◌, reject,
  if◌then◌else◌, add_u64, sub_u64,
}
use godl_program.Base.Int.{ℤ}
use godl_program.Numeric.{Numeric}
use godl_program.Treasury.{Clock, Treasury}

pub record Stake (N : Type 0) : Type 0 where
  pub authority : ℕ
  pub balance : ℕ
  pub last_claim_at : ℤ
  pub last_deposit_at : ℤ
  pub last_withdraw_at : ℤ
  pub rewards_factor : N
  pub rewards : ℕ
  pub lifetime_rewards : ℕ
  pub is_seeker : ℕ

module _ {N : Type 0} ⦃num : Numeric N⦄ where
  unfoldable pub accrue : Stake N → Treasury N → Result (Stake N)
  accrue s t = do
    accumulated ← num.minus t.stake_rewards_factor s.rewards_factor
    reject (num.lt accumulated num.nought) panic
    personal ← num.times accumulated (num.from_u64 s.balance)
    earned ← num.to_u64 personal
    rewards ← add_u64 s.rewards earned
    lifetime ← add_u64 s.lifetime_rewards earned
    ok (record s { rewards = rewards; lifetime_rewards = lifetime })

  unfoldable pub update_rewards : Stake N → Treasury N → Result (Stake N)
  update_rewards s t = do
    s' ← if num.lt s.rewards_factor t.stake_rewards_factor then accrue s t else ok s
    ok (record s' { rewards_factor = t.stake_rewards_factor })

  unfoldable pub claim : Stake N → ℕ → Clock → Treasury N → Result (ℕ × Stake N)
  claim s amount clock t = do
    s₁ ← update_rewards s t
    let taken = min s₁.rewards amount
    ok (taken, record s₁ { rewards = s₁.rewards - taken; last_claim_at = clock.unix_timestamp })

  -- the last argument is the amount of the sender's token account
  unfoldable pub deposit : Stake N → ℕ → Clock → Treasury N → ℕ → Result (ℕ × Stake N × Treasury N)
  deposit s amount clock t available = do
    s₁ ← update_rewards s t
    let taken = min available amount
    balance ← add_u64 s₁.balance taken
    total ← add_u64 t.total_staked taken
    ok (
      taken,
      record s₁ { balance = balance; last_deposit_at = clock.unix_timestamp },
      record t { total_staked = total },
    )

  unfoldable pub withdraw : Stake N → ℕ → Clock → Treasury N → Result (ℕ × Stake N × Treasury N)
  withdraw s amount clock t = do
    s₁ ← update_rewards s t
    let taken = min s₁.balance amount
    total ← sub_u64 t.total_staked taken
    ok (
      taken,
      record s₁ { balance = s₁.balance - taken; last_withdraw_at = clock.unix_timestamp },
      record t { total_staked = total },
    )

-- `process_deposit` of the first kind
unfoldable pub process_deposit : Result (Unit {0})
process_deposit = err (godl stake_v1_deprecated)
