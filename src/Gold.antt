-- ===== src/Gold.antt =====
-- api/src/state/gold_vault.rs, miner_extended.rs and sol_motherlode.rs: gold (XAUt0) is shared among
-- the holders of unrefined GODL by a factor per gram, scaled by 10^6.
pub mod Shares
use godl_program.Base.{
  ℕ, ◌+◌, ◌-◌, ◌/◌, List, Result, ok, panic, arithmetic_overflow, ◌>>=◌, ◌>>◌, reject, ltb, ◌==◌,
  if◌then◌else◌, add_u64, checked_add, checked_mul, Option, some, none, ◌*◌, u64_mod, replicate,
}
use godl_program.Consts.{gold_factor_scale, rush_sol_motherlode_bps, denominator_bps}
use godl_program.Numeric.{Numeric}

pub record GoldVault (N : Type 0) : Type 0 where
  pub xaut_rewards_factor : N
  pub pending_xaut : ℕ
  pub total_xaut_distributed : ℕ
  pub total_xaut_claimed : ℕ
  pub total_sol_swapped : ℕ
  pub buffer : List ℕ

pub record MinerExtended (N : Type 0) : Type 0 where
  pub authority : ℕ
  pub xaut_rewards_factor : N
  pub xaut_rewards : ℕ
  pub lifetime_xaut : ℕ
  pub buffer : List ℕ

pub record SolMotherlode : Type 0 where
  pub amount : ℕ

-- `SolMotherlode::split_payout`
unfoldable pub split_payout : ℕ → Option (ℕ × ℕ)
split_payout amount =
    let scaled = amount * rush_sol_motherlode_bps in
    let rush = scaled / denominator_bps in
    if ltb scaled u64_mod then some (rush, amount - rush) else none

module _ {N : Type 0} where
  -- `MinerExtended::init`, on any account
  unfoldable pub init : ℕ → GoldVault N → MinerExtended N
  init authority vault = record {
    authority = authority;
    xaut_rewards_factor = vault.xaut_rewards_factor;
    xaut_rewards = 0;
    lifetime_xaut = 0;
    buffer = replicate 32 0;
  }

  -- `MinerExtended::claim`
  unfoldable pub claim : MinerExtended N → ℕ × MinerExtended N
  claim m = (m.xaut_rewards, record m { xaut_rewards = 0 })

module _ {N : Type 0} ⦃num : Numeric N⦄ where
  -- the part of `distribute` that credits the factor
  unfoldable pub credit : GoldVault N → ℕ → ℕ → Result (ℕ × GoldVault N)
  credit v amount total_unclaimed = do
    scaled ← checked_mul amount gold_factor_scale arithmetic_overflow
    fraction ← num.from_fraction scaled total_unclaimed
    factor ← num.plus v.xaut_rewards_factor fraction
    total ← checked_add v.total_xaut_distributed amount arithmetic_overflow
    ok (
      amount,
      record v { xaut_rewards_factor = factor; pending_xaut = 0; total_xaut_distributed = total },
    )

  -- `GoldVault::distribute`
  unfoldable pub distribute : GoldVault N → ℕ → ℕ → Result (ℕ × GoldVault N)
  distribute v xaut total_unclaimed = do
    amount ← checked_add v.pending_xaut xaut arithmetic_overflow
    if amount == 0
        then ok (0, v)
        else if total_unclaimed == 0
        then ok (0, record v { pending_xaut = amount })
        else credit v amount total_unclaimed

  unfoldable pub accrue : MinerExtended N → GoldVault N → ℕ → Result (MinerExtended N)
  accrue m v unrefined = do
    accumulated ← num.minus v.xaut_rewards_factor m.xaut_rewards_factor
    reject (num.lt accumulated num.nought) panic
    grams ← num.from_fraction unrefined gold_factor_scale
    product ← num.times accumulated grams
    personal ← num.to_u64 product
    rewards ← add_u64 m.xaut_rewards personal
    lifetime ← add_u64 m.lifetime_xaut personal
    ok (record m { xaut_rewards = rewards; lifetime_xaut = lifetime })

  -- `MinerExtended::update_rewards`
  unfoldable pub update_rewards : MinerExtended N → GoldVault N → ℕ → Result (MinerExtended N)
  update_rewards m v unrefined = do
    m' ← if num.lt m.xaut_rewards_factor v.xaut_rewards_factor then accrue m v unrefined else ok m
    ok (record m' { xaut_rewards_factor = v.xaut_rewards_factor })
