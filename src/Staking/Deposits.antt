-- ===== src/Staking/Deposits.antt =====
-- program/src/stake_v2/deposit_v2.rs, top_up_stake_v2.rs and compound_yield_v2.rs: GODL goes into a
-- position.
use godl_program.Base.{
  ℕ, ◌+◌, ◌-◌, ◌*◌, ◌/◌, ◌%◌, min, ◌||◌, List, [], ◌∷◌, ◌++◌, Result, ok, godl, panic,
  invalid_lock_duration, amount_too_small, stake_already_exists, uninitialized_account,
  invalid_account_data, not_authorized, ◌>>=◌, ◌>>◌, require, reject, ltb, leb, ◌==◌, if◌then◌else◌,
  u64_mod, u128_mod, u64_max, replicate,
}
use godl_program.Base.Int.{ℤ, pos, pos_part, ltb_ℤ, max_ℤ, min_ℤ}
use godl_program.Consts.{
  mint_address, max_lock_duration, max_stake_multiplier, stake_multiplier_scale,
}
use godl_program.Numeric.{Numeric}
use godl_program.Treasury.{Clock, Treasury}
use godl_program.StakeV2.{StakeV2, update_rewards, claim, deposit, migrate_weight}
use godl_program.Runtime.{
  Steel, Effect, create, transfer, burn, open_tokens, demand, stake_v2, treasury,
}
use godl_program.Staking.{Accounts, Staked, check_mint, check_programs, load_stake, received}

-- `saturating_mul` and `saturating_add` at u128
unfoldable pub saturate : ℕ → ℕ
saturate n = min n (u128_mod - 1)

unfoldable pub stake_multiplier : ℤ → ℕ
stake_multiplier lock_duration =
    let d = pos_part (min_ℤ (max_ℤ lock_duration (pos 0)) (pos max_lock_duration)) in
    let extra =
      saturate (saturate ((max_stake_multiplier - 1) * d) * stake_multiplier_scale)
      / max_lock_duration in
    saturate (stake_multiplier_scale + extra) % u64_mod

-- a new position of an authority, with its executor
abbrev pub fresh_stake : {N : Type 0} → ℕ → ℕ → Clock → ℕ → ℤ → Treasury N → StakeV2 N
fresh_stake authority executor clock id lock_duration t = record {
  id = id;
  authority = authority;
  balance = 0;
  last_claim_at = pos 0;
  last_deposit_at = pos 0;
  last_withdraw_at = pos 0;
  rewards_factor = t.stake_rewards_factor;
  rewards = 0;
  lifetime_rewards = 0;
  multiplier = stake_multiplier lock_duration;
  lock_duration = lock_duration;
  executor = executor;
  created_at = clock.unix_timestamp;
  is_nft_staked = 0;
  weight_version = 1;
  buffer = replicate 30 0;
}

module _ {N A : Type 0} ⦃num : Numeric N⦄ (steel : Steel N A) where
  open steel use {
    key, data_is_empty, is_signer, is_writable, has_seeds, as_treasury, as_tokens, as_stake_v2,
  }

  -- the account as `deposit_v2` fills it in
  abbrev pub new_stake : Accounts steel → Clock → ℕ → ℤ → Treasury N → StakeV2 N
  new_stake a = fresh_stake (key a.signer_info) (key a.executor_info)

  -- the position's token account, created or checked: what it holds, and the call
  unfoldable pub open_vault : Accounts steel → Result (ℕ × List (Effect A))
  open_vault a =
      if data_is_empty a.stake_tokens_info
      then ok (0, open_tokens a.stake_tokens_info a.stake_info ∷ [])
      else (do held ← as_tokens a.stake_tokens_info (key a.stake_info); ok (held, []))

  -- the deposit, which must be in full, and what the token account holds after the transfer
  unfoldable pub put_in :
      Accounts steel
      → Clock
      → ℕ
      → ℕ
      → ℕ
      → StakeV2 N
      → Treasury N
      → Result (StakeV2 N × Treasury N × ℕ)
  put_in a clock amount available held s t = do
    (deposited, s', t') ← deposit s amount clock t available
    require (deposited == amount) (godl amount_too_small)
    vault ← received held deposited
    ok (s', t', vault)

  unfoldable pub fill_new_stake :
      Accounts steel → Clock → ℕ → ℕ → ℤ → ℕ → Treasury N → Result (Staked steel)
  fill_new_stake a clock id amount lock_duration available t = do
    s ← update_rewards (new_stake a clock id lock_duration t) t
    (held, opened) ← open_vault a
    (s', t', vault) ← put_in a clock amount available held s t
    require (leb s'.balance vault) panic
    ok (record {
      stake_after = s';
      treasury_after = t';
      vault = vault;
      effects =
          create a.stake_info (stake_v2 (key a.signer_info) id) a.signer_info
          ∷ (opened ++ (transfer a.sender_info a.stake_tokens_info amount ∷ []));
    })

  unfoldable pub process_deposit_v2 : Accounts steel → Clock → ℕ → ℕ → ℤ → Result (Staked steel)
  process_deposit_v2 a clock id amount lock_duration = do
    is_signer a.signer_info
    _ ← check_mint steel a.mint_info
    is_writable a.sender_info
    available ← as_tokens a.sender_info (key a.signer_info)
    is_writable a.stake_info
    t ← as_treasury a.treasury_info
    check_programs steel a
    reject (ltb_ℤ lock_duration (pos 0) || ltb_ℤ (pos max_lock_duration) lock_duration)
        (godl invalid_lock_duration)
    reject (amount == 0) (godl amount_too_small)
    require (data_is_empty a.stake_info) (godl stake_already_exists)
    has_seeds a.stake_info (stake_v2 (key a.signer_info) id)
    fill_new_stake a clock id amount lock_duration available t

  -- the deposit into a position that has been loaded; it restarts the lock
  unfoldable pub top_up :
      Accounts steel → Clock → ℕ → ℕ → StakeV2 N → Treasury N → Result (Staked steel)
  top_up a clock amount available s t = do
    (s₁, t₁) ← migrate_weight s t
    held ← as_tokens a.stake_tokens_info (key a.stake_info)
    (s₂, t₂, vault) ← put_in a clock amount available held s₁ t₁
    require (leb s₂.balance vault) invalid_account_data
    ok (record {
      stake_after = record s₂ { created_at = clock.unix_timestamp };
      treasury_after = t₂;
      vault = vault;
      effects = transfer a.sender_info a.stake_tokens_info amount ∷ [];
    })

  unfoldable pub process_top_up_stake_v2 : Accounts steel → Clock → ℕ → ℕ → Result (Staked steel)
  process_top_up_stake_v2 a clock id amount = do
    is_signer a.signer_info
    _ ← check_mint steel a.mint_info
    is_writable a.sender_info
    available ← as_tokens a.sender_info (key a.signer_info)
    is_writable a.stake_info
    has_seeds a.stake_info (stake_v2 (key a.signer_info) id)
    reject (data_is_empty a.stake_info) uninitialized_account
    s ← load_stake steel a id
    t ← as_treasury a.treasury_info
    check_programs steel a
    reject (amount == 0) (godl amount_too_small)
    top_up a clock amount available s t

  -- All rewards are claimed; a hundredth is burnt, and the rest goes to the position. The treasury's
  -- token account pays both.
  unfoldable pub compound :
      Accounts steel → Clock → ℕ → StakeV2 N → Treasury N → Result (Staked steel)
  compound a clock held s t = do
    (s₁, t₁) ← migrate_weight s t
    (compounded, s₂) ← claim s₁ u64_max clock t₁
    reject (compounded == 0) (godl amount_too_small)
    let fee = compounded / 100
    let amount = compounded - fee
    vault ← received held amount
    (_, s₃, t₃) ← deposit s₂ amount clock t₁ vault
    require (leb s₃.balance vault) invalid_account_data
    ok (record {
      stake_after = s₃;
      treasury_after = t₃;
      vault = vault;
      effects =
          (if ltb 0 fee then burn a.treasury_tokens_info fee ∷ [] else [])
          ++ (transfer a.treasury_tokens_info a.stake_tokens_info amount ∷ []);
    })

  unfoldable pub process_compound_yield_v2 : Accounts steel → Clock → ℕ → Result (Staked steel)
  process_compound_yield_v2 a clock id = do
    is_signer a.signer_info
    is_writable a.stake_info
    is_writable a.stake_tokens_info
    is_writable a.treasury_tokens_info
    steel.has_address a.mint_info mint_address
    is_writable a.mint_info
    _ ← steel.as_mint a.mint_info
    is_writable a.treasury_info
    has_seeds a.treasury_info treasury
    t ← as_treasury a.treasury_info
    check_programs steel a
    s ← as_stake_v2 a.stake_info
    demand (s.id == id)
    require (s.authority == key a.signer_info || s.executor == key a.signer_info)
        (godl not_authorized)
    has_seeds a.stake_info (stake_v2 s.authority id)
    held ← as_tokens a.stake_tokens_info (key a.stake_info)
    _ ← as_tokens a.treasury_tokens_info (key a.treasury_info)
    compound a clock held s t
