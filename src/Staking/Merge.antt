-- ===== src/Staking/Merge.antt =====
-- program/src/stake_v2/merge_stake_v2.rs: one position is folded into another, whose lock starts
-- again for the longer of the two durations, and is closed.
use godl_program.Base.{
  ℕ, List, [], ◌∷◌, ◌++◌, Result, ok, godl, merge_same_stake, nft_already_staked, stake_overflow,
  invalid_account_data, ◌>>=◌, ◌>>◌, require, reject, ltb, leb, ◌==◌, if◌then◌else◌, checked_add,
}
use godl_program.Base.Int.{max_ℤ}
use godl_program.Numeric.{Numeric}
use godl_program.Treasury.{Clock, Treasury}
use godl_program.StakeV2.{StakeV2, weighted_units, update_rewards, migrate_weight, raise_total}
use godl_program.Runtime.{Steel, Effect, transfer, close, close_tokens, demand, stake_v2}
use godl_program.Staking.{check_mint, received}
use godl_program.Staking.Deposits.{stake_multiplier}

-- the source's amounts are added to the target, on the terms of a new deposit
unfoldable pub fold_in : {N : Type 0} → Clock → StakeV2 N → StakeV2 N → Result (StakeV2 N)
fold_in clock target source = do
  balance ← checked_add target.balance source.balance (godl stake_overflow)
  rewards ← checked_add target.rewards source.rewards (godl stake_overflow)
  lifetime ← checked_add target.lifetime_rewards source.lifetime_rewards (godl stake_overflow)
  let lock = max_ℤ target.lock_duration source.lock_duration
  ok (record target {
    balance = balance;
    rewards = rewards;
    lifetime_rewards = lifetime;
    lock_duration = lock;
    created_at = clock.unix_timestamp;
    multiplier = stake_multiplier lock;
    last_deposit_at = clock.unix_timestamp;
  })

module _ {N : Type 0} ⦃num : Numeric N⦄ where
  -- both positions on the square-root curve, with their rewards settled
  unfoldable pub settle_both :
      StakeV2 N → StakeV2 N → Treasury N → Result (StakeV2 N × StakeV2 N × Treasury N)
  settle_both target source t = do
    (target₁, t₁) ← migrate_weight target t
    (source₁, t₂) ← migrate_weight source t₁
    target₂ ← update_rewards target₁ t₂
    source₂ ← update_rewards source₁ t₂
    ok (target₂, source₂, t₂)

  -- settled positions are merged
  unfoldable pub join : Clock → StakeV2 N → StakeV2 N → Treasury N → Result (StakeV2 N × Treasury N)
  join clock target source t = do
    target_units ← weighted_units target
    source_units ← weighted_units source
    prev_units ← checked_add target_units source_units (godl stake_overflow)
    merged ← fold_in clock target source
    new_units ← weighted_units merged
    t' ← raise_total prev_units new_units t
    ok (merged, t')

  -- the position that two make, with the treasury
  unfoldable pub merge :
      Clock → StakeV2 N → StakeV2 N → Treasury N → Result (StakeV2 N × Treasury N)
  merge clock target source t = do
    (target', source', t') ← settle_both target source t
    join clock target' source' t'

module _ {N A : Type 0} ⦃num : Numeric N⦄ (steel : Steel N A) where
  open steel use {
    key, is_signer, is_writable, has_seeds, is_system_program, is_token_program,
    is_associated_token_program, as_treasury, as_tokens, as_stake_v2,
  }

  pub record MergeAccounts : Type 0 where
    pub signer_info : A
    pub mint_info : A
    pub target_stake_info : A
    pub target_tokens_info : A
    pub source_stake_info : A
    pub source_tokens_info : A
    pub treasury_info : A
    pub system_program : A
    pub token_program : A
    pub associated_token_program : A

  pub record Merged : Type 0 where
    pub target_after : StakeV2 N
    pub treasury_after : Treasury N
    -- what the target's token account holds at the end
    pub vault : ℕ
    pub effects : List (Effect A)

  -- the whole of the source's token account is moved, and the source's accounts are closed
  abbrev pub merge_effects : MergeAccounts → ℕ → List (Effect A)
  merge_effects a source_held =
      (if ltb 0 source_held
        then transfer a.source_tokens_info a.target_tokens_info source_held ∷ []
        else [])
      ++ (close_tokens a.source_tokens_info a.signer_info
          ∷ close a.source_stake_info a.signer_info
          ∷ [])

  -- on positions and amounts that have been loaded
  unfoldable pub merge_loaded :
      MergeAccounts → Clock → StakeV2 N → StakeV2 N → ℕ → ℕ → Treasury N → Result Merged
  merge_loaded a clock target source target_held source_held t = do
    require (target.is_nft_staked == 0) (godl nft_already_staked)
    require (source.is_nft_staked == 0) (godl nft_already_staked)
    require (leb target.balance target_held) invalid_account_data
    require (leb source.balance source_held) invalid_account_data
    (merged, t') ← merge clock target source t
    vault ← received target_held source_held
    require (leb merged.balance vault) invalid_account_data
    ok (record {
      target_after = merged;
      treasury_after = t';
      vault = vault;
      effects = merge_effects a source_held;
    })

  unfoldable pub process_merge_stake_v2 : MergeAccounts → Clock → ℕ → ℕ → Result Merged
  process_merge_stake_v2 a clock target_id source_id = do
    reject (target_id == source_id) (godl merge_same_stake)
    is_signer a.signer_info
    _ ← check_mint steel a.mint_info
    is_writable a.target_stake_info
    has_seeds a.target_stake_info (stake_v2 (key a.signer_info) target_id)
    is_writable a.source_stake_info
    has_seeds a.source_stake_info (stake_v2 (key a.signer_info) source_id)
    target ← as_stake_v2 a.target_stake_info
    demand (target.authority == key a.signer_info)
    demand (target.id == target_id)
    source ← as_stake_v2 a.source_stake_info
    demand (source.authority == key a.signer_info)
    demand (source.id == source_id)
    t ← as_treasury a.treasury_info
    source_held ← as_tokens a.source_tokens_info (key a.source_stake_info)
    target_held ← as_tokens a.target_tokens_info (key a.target_stake_info)
    is_system_program a.system_program
    is_token_program a.token_program
    is_associated_token_program a.associated_token_program
    merge_loaded a clock target source target_held source_held t
