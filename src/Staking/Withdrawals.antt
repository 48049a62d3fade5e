-- ===== src/Staking/Withdrawals.antt =====
-- program/src/stake_v2/withdraw_v2.rs, claim_yield_v2.rs and close_stake_v2.rs: GODL comes out of a
-- position.
use godl_program.Base.{
  ℕ, List, [], ◌∷◌, ◌++◌, Result, ok, godl, panic, stake_locked, amount_too_small, stake_not_empty,
  nft_already_staked, stake_overflow, ◌>>=◌, ◌>>◌, require, reject, ltb, leb, ◌==◌, if◌then◌else◌,
  u64_max, checked_add,
}
use godl_program.Base.Int.{ℤ, pos, ltb_ℤ, max_ℤ, saturating_add_i64}
use godl_program.Numeric.{Numeric}
use godl_program.Treasury.{Clock, Treasury}
use godl_program.StakeV2.{StakeV2, claim, withdraw, migrate_weight}
use godl_program.Runtime.{Steel, Effect, transfer, close, close_tokens, stake_v2}
use godl_program.Staking.{
  Accounts, Staked, check_mint, check_programs, load_stake, open_recipient, spent,
}

-- when the lock ends
unfoldable pub unlock_at : {N : Type 0} → StakeV2 N → ℤ
unlock_at s = saturating_add_i64 s.created_at (max_ℤ s.lock_duration (pos 0))

module _ {N A : Type 0} ⦃num : Numeric N⦄ (steel : Steel N A) where
  open steel use {key, is_signer, is_writable, has_seeds, as_treasury, as_tokens}

  -- the end of `withdraw_v2`, on a position that has been migrated
  unfoldable pub take_out :
      Accounts steel → Clock → ℕ → ℕ → StakeV2 N → Treasury N → Result (Staked steel)
  take_out a clock amount held s t = do
    opened ← open_recipient steel a
    (taken, s', t') ← withdraw s amount clock t
    vault ← spent held taken
    require (leb s'.balance vault) panic
    ok (record {
      stake_after = s';
      treasury_after = t';
      vault = vault;
      effects = opened ++ (transfer a.stake_tokens_info a.recipient_info taken ∷ []);
    })

  -- on the position as it is loaded
  unfoldable pub withdraw_loaded :
      Accounts steel → Clock → ℕ → ℕ → StakeV2 N → Treasury N → Result (Staked steel)
  withdraw_loaded a clock amount held s t = do
    (s₁, t₁) ← migrate_weight s t
    reject (ltb_ℤ clock.unix_timestamp (unlock_at s₁)) (godl stake_locked)
    reject (amount == 0) (godl amount_too_small)
    take_out a clock amount held s₁ t₁

  unfoldable pub process_withdraw_v2 : Accounts steel → Clock → ℕ → ℕ → Result (Staked steel)
  process_withdraw_v2 a clock id amount = do
    is_signer a.signer_info
    _ ← check_mint steel a.mint_info
    is_writable a.recipient_info
    has_seeds a.stake_info (stake_v2 (key a.signer_info) id)
    s ← load_stake steel a id
    held ← as_tokens a.stake_tokens_info (key a.stake_info)
    t ← as_treasury a.treasury_info
    check_programs steel a
    withdraw_loaded a clock amount held s t

  unfoldable pub process_claim_yield_v2 :
      Accounts steel → Clock → ℕ → ℕ → Result (StakeV2 N × List (Effect A))
  process_claim_yield_v2 a clock id amount = do
    is_signer a.signer_info
    _ ← check_mint steel a.mint_info
    is_writable a.recipient_info
    has_seeds a.stake_info (stake_v2 (key a.signer_info) id)
    s ← load_stake steel a id
    t ← as_treasury a.treasury_info
    is_writable a.treasury_tokens_info
    _ ← as_tokens a.treasury_tokens_info (key a.treasury_info)
    check_programs steel a
    opened ← open_recipient steel a
    (paid, s') ← claim s amount clock t
    ok (s', opened ++ (transfer a.treasury_tokens_info a.recipient_info paid ∷ []))

  -- the rewards and what is left in the token account are paid, and both accounts are closed
  unfoldable pub close_empty :
      Accounts steel → Clock → StakeV2 N → Treasury N → Result (StakeV2 N × List (Effect A))
  close_empty a clock s t = do
    require (s.balance == 0) (godl stake_not_empty)
    require (s.is_nft_staked == 0) (godl nft_already_staked)
    residual ← as_tokens a.stake_tokens_info (key a.stake_info)
    (rewards, s') ← claim s u64_max clock t
    total_out ← checked_add rewards residual (godl stake_overflow)
    opened ← if ltb 0 total_out then open_recipient steel a else ok []
    ok (
      s',
      opened
          ++ ((if ltb 0 rewards
                then transfer a.treasury_tokens_info a.recipient_info rewards ∷ []
                else [])
              ++ ((if ltb 0 residual
                    then transfer a.stake_tokens_info a.recipient_info residual ∷ []
                    else [])
                  ++ (close_tokens a.stake_tokens_info a.signer_info
                      ∷ close a.stake_info a.signer_info
                      ∷ []))),
    )

  unfoldable pub process_close_stake_v2 :
      Accounts steel → Clock → ℕ → Result (StakeV2 N × List (Effect A))
  process_close_stake_v2 a clock id = do
    is_signer a.signer_info
    _ ← check_mint steel a.mint_info
    is_writable a.recipient_info
    is_writable a.stake_info
    has_seeds a.stake_info (stake_v2 (key a.signer_info) id)
    s ← load_stake steel a id
    t ← as_treasury a.treasury_info
    is_writable a.treasury_tokens_info
    _ ← as_tokens a.treasury_tokens_info (key a.treasury_info)
    check_programs steel a
    close_empty a clock s t
