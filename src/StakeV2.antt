-- ===== src/StakeV2.antt =====
-- api/src/state/stake_v2.rs: a stake position. Its weight is the balance times a multiplier, on a
-- linear or a square-root curve, with a tenth more for a staked NFT; `treasury.total_staked` adds
-- the weights up, and rewards accrue by weight.
pub mod Weight
pub mod Frame
pub mod Ledger
pub mod Rewards
use godl_program.Base.{
  ℕ, ◌+◌, ◌-◌, ◌*◌, ◌/◌, ◌%◌, min, Bool, ◌||◌, not, List, Result, ok, err, Error, godl, panic,
  stake_overflow, nft_already_staked, nft_not_staked, ◌>>=◌, ◌>>◌, require, reject, ltb, leb, ◌==◌,
  if◌then◌else◌, fit, u64_mod, u128_mod, checked_add, checked_sub, mul_u128,
}
use godl_program.Base.Int.{ℤ}
use godl_program.Consts.{stake_multiplier_scale, nft_boost_numerator, nft_boost_denominator}
use godl_program.Numeric.{Numeric}
use godl_program.Isqrt.{isqrt_u128}
use godl_program.Treasury.{Clock, Treasury}

pub record StakeV2 (N : Type 0) : Type 0 where
  pub id : ℕ
  pub authority : ℕ
  pub balance : ℕ
  pub last_claim_at : ℤ
  pub last_deposit_at : ℤ
  pub last_withdraw_at : ℤ
  pub rewards_factor : N
  pub rewards : ℕ
  pub lifetime_rewards : ℕ
  pub multiplier : ℕ
  pub lock_duration : ℤ
  pub executor : ℕ
  pub created_at : ℤ
  pub is_nft_staked : ℕ
  pub weight_version : ℕ
  pub buffer : List ℕ

-- the free function; the casts of u64 operands to u128 lose nothing, the cast back is written out
unfoldable pub effective_multiplier : ℕ → ℕ
effective_multiplier multiplier = isqrt_u128 (multiplier * stake_multiplier_scale) % u64_mod

-- `checked_mul` at u128, `checked_div` by a constant that is not zero, and the u64 test
unfoldable pub boosted : ℕ → Result ℕ
boosted base = do
  product ← fit u128_mod (godl stake_overflow) (base * nft_boost_numerator)
  fit u64_mod (godl stake_overflow) (product / nft_boost_denominator)

module _ {N : Type 0} where
  -- the method of the same name
  unfoldable pub applied_multiplier : StakeV2 N → ℕ
  applied_multiplier s =
      if s.weight_version == 0 then s.multiplier else effective_multiplier s.multiplier

  unfoldable pub apply_multiplier : StakeV2 N → ℕ → Result ℕ
  apply_multiplier s amount =
      let multiplier = applied_multiplier s in
      if amount == 0 || multiplier == 0 then ok 0 else do
        product ← mul_u128 amount multiplier
        fit u64_mod (godl stake_overflow) (product / stake_multiplier_scale)

  unfoldable pub weighted_units : StakeV2 N → Result ℕ
  weighted_units s = do
    base ← apply_multiplier s s.balance
    if s.is_nft_staked == 0 then ok base else boosted base

  -- The two ways in which the methods carry a change of weight over to `total_staked`.
  unfoldable pub raise_total : ℕ → ℕ → Treasury N → Result (Treasury N)
  raise_total prev_units new_units t = do
    total ←
        if leb prev_units new_units
        then checked_add t.total_staked (new_units - prev_units) (godl stake_overflow)
        else checked_sub t.total_staked (prev_units - new_units) (godl stake_overflow)
    ok (record t { total_staked = total })

  unfoldable pub lower_total : ℕ → ℕ → Treasury N → Result (Treasury N)
  lower_total prev_units new_units t = do
    total ←
        if leb new_units prev_units
        then checked_sub t.total_staked (prev_units - new_units) (godl stake_overflow)
        else checked_add t.total_staked (new_units - prev_units) (godl stake_overflow)
    ok (record t { total_staked = total })

module _ {N : Type 0} ⦃num : Numeric N⦄ where
  unfoldable pub accrue : StakeV2 N → Treasury N → Result (StakeV2 N)
  accrue s t = do
    accumulated ← num.minus t.stake_rewards_factor s.rewards_factor
    reject (num.lt accumulated num.nought) panic
    units ← weighted_units s
    personal ← num.times accumulated (num.from_u64 units)
    earned ← num.to_u64 personal
    rewards ← checked_add s.rewards earned (godl stake_overflow)
    lifetime ← checked_add s.lifetime_rewards earned (godl stake_overflow)
    ok (record s { rewards = rewards; lifetime_rewards = lifetime })

  unfoldable pub update_rewards : StakeV2 N → Treasury N → Result (StakeV2 N)
  update_rewards s t = do
    s' ← if num.lt s.rewards_factor t.stake_rewards_factor then accrue s t else ok s
    ok (record s' { rewards_factor = t.stake_rewards_factor })

  unfoldable pub claim : StakeV2 N → ℕ → Clock → Treasury N → Result (ℕ × StakeV2 N)
  claim s amount clock t = do
    s' ← update_rewards s t
    let paid = min s'.rewards amount
    ok (paid, record s' { rewards = s'.rewards - paid; last_claim_at = clock.unix_timestamp })

  -- `available` is the balance of the sender's token account
  unfoldable pub deposit :
      StakeV2 N → ℕ → Clock → Treasury N → ℕ → Result (ℕ × StakeV2 N × Treasury N)
  deposit s amount clock t available = do
    s₁ ← update_rewards s t
    let taken = min available amount
    prev_units ← weighted_units s₁
    balance ← checked_add s₁.balance taken (godl stake_overflow)
    let s₂ = record s₁ { balance = balance; last_deposit_at = clock.unix_timestamp }
    new_units ← weighted_units s₂
    t' ← raise_total prev_units new_units t
    ok (taken, s₂, t')

  unfoldable pub withdraw : StakeV2 N → ℕ → Clock → Treasury N → Result (ℕ × StakeV2 N × Treasury N)
  withdraw s amount clock t = do
    s₁ ← update_rewards s t
    let taken = min s₁.balance amount
    prev_units ← weighted_units s₁
    let s₂ = record s₁ { balance = s₁.balance - taken; last_withdraw_at = clock.unix_timestamp }
    new_units ← weighted_units s₂
    t' ← lower_total prev_units new_units t
    ok (taken, s₂, t')

  unfoldable pub stake_nft : StakeV2 N → Treasury N → Result (StakeV2 N × Treasury N)
  stake_nft s t = do
    require (s.is_nft_staked == 0) (godl nft_already_staked)
    s₁ ← update_rewards s t
    prev_units ← weighted_units s₁
    let s₂ = record s₁ { is_nft_staked = 1 }
    new_units ← weighted_units s₂
    t' ← raise_total prev_units new_units t
    ok (s₂, t')

  unfoldable pub unstake_nft : StakeV2 N → Treasury N → Result (StakeV2 N × Treasury N)
  unstake_nft s t = do
    reject (s.is_nft_staked == 0) (godl nft_not_staked)
    s₁ ← update_rewards s t
    prev_units ← weighted_units s₁
    let s₂ = record s₁ { is_nft_staked = 0 }
    new_units ← weighted_units s₂
    t' ← lower_total prev_units new_units t
    ok (s₂, t')

  unfoldable pub flip_weight : StakeV2 N → Treasury N → Result (StakeV2 N × Treasury N)
  flip_weight s t = do
    s₁ ← update_rewards s t
    prev_units ← weighted_units s₁
    let s₂ = record s₁ { weight_version = 1 }
    new_units ← weighted_units s₂
    t' ← raise_total prev_units new_units t
    ok (s₂, t')

  unfoldable pub migrate_weight : StakeV2 N → Treasury N → Result (StakeV2 N × Treasury N)
  migrate_weight s t = if s.weight_version == 0 then flip_weight s t else ok (s, t)
