-- ===== src/Staking/Upkeep.antt =====
-- program/src/stake_v2/reconcile_stake_v2.rs, close_phantom_stake_v2.rs, migrate_stake_weight.rs and
-- set_executor_v2.rs: instructions that move no GODL.
use godl_program.Base.{
  ℕ, ◌-◌, List, [], ◌∷◌, Result, ok, godl, not_authorized, stake_not_empty, stake_not_phantom,
  ◌>>=◌, ◌>>◌, require, reject, ◌==◌, if◌then◌else◌, add_u64,
}
use godl_program.Consts.{mint_address}
use godl_program.Numeric.{Numeric}
use godl_program.Treasury.{Clock, Treasury}
use godl_program.StakeV2.{StakeV2, weighted_units, withdraw, migrate_weight}
use godl_program.Runtime.{Steel, Effect, close, demand, treasury}
use godl_program.Staking.{Accounts}

module _ {N A : Type 0} ⦃num : Numeric N⦄ (steel : Steel N A) where
  open steel use {
    key, data_is_empty, lamports, is_signer, is_writable, has_address, has_seeds, as_config,
    as_treasury, as_tokens, as_stake_v2, stake_v2_pda, associated_token_address,
  }

  -- the admin gate
  unfoldable pub check_admin : Accounts steel → Result (Unit {0})
  check_admin a = do
    c ← as_config a.config_info
    require (c.admin == key a.signer_info) (godl not_authorized)

  -- what the position's token account holds; one that is closed holds nothing
  unfoldable pub vault_balance : Accounts steel → Result ℕ
  vault_balance a = do
    has_address a.stake_tokens_info (associated_token_address (key a.stake_info))
    if data_is_empty a.stake_tokens_info
        then ok 0
        else as_tokens a.stake_tokens_info (key a.stake_info)

  -- withdraw what nothing backs
  unfoldable pub reconcile : Clock → ℕ → StakeV2 N → Treasury N → Result (StakeV2 N × Treasury N)
  reconcile clock held s t = do (_, s', t') ← withdraw s (s.balance - held) clock t; ok (s', t')

  unfoldable pub process_reconcile_stake_v2 :
      Accounts steel → Clock → Result (StakeV2 N × Treasury N)
  process_reconcile_stake_v2 a clock = do
    is_signer a.signer_info
    check_admin a
    has_address a.mint_info mint_address
    is_writable a.stake_info
    s ← as_stake_v2 a.stake_info
    is_writable a.treasury_info
    has_seeds a.treasury_info treasury
    t ← as_treasury a.treasury_info
    held ← vault_balance a
    reconcile clock held s t

  unfoldable pub process_close_phantom_stake_v2 :
      Accounts steel → Result (Treasury N × List (Effect A))
  process_close_phantom_stake_v2 a = do
    is_signer a.signer_info
    check_admin a
    is_writable a.stake_info
    s ← as_stake_v2 a.stake_info
    reject (key a.stake_info == stake_v2_pda s.authority s.id) (godl stake_not_phantom)
    require (s.balance == 0) (godl stake_not_empty)
    is_writable a.treasury_info
    has_seeds a.treasury_info treasury
    t ← as_treasury a.treasury_info
    balance ← add_u64 t.balance (lamports a.stake_info)
    ok (record t { balance = balance }, close a.stake_info a.treasury_info ∷ [])

  -- the weights before and after are for the log, but an error in them is returned
  unfoldable pub process_migrate_stake_weight : Accounts steel → Result (StakeV2 N × Treasury N)
  process_migrate_stake_weight a = do
    is_signer a.signer_info
    is_writable a.stake_info
    s ← as_stake_v2 a.stake_info
    is_writable a.treasury_info
    has_seeds a.treasury_info treasury
    t ← as_treasury a.treasury_info
    if s.weight_version == 0
        then (do
          _ ← weighted_units s
          (s', t') ← migrate_weight s t
          _ ← weighted_units s'
          ok (s', t'))
        else ok (s, t)

  unfoldable pub process_set_stake_executor_v2 : Accounts steel → ℕ → ℕ → Result (StakeV2 N)
  process_set_stake_executor_v2 a id executor = do
    is_signer a.signer_info
    is_writable a.stake_info
    s ← as_stake_v2 a.stake_info
    demand (s.id == id)
    demand (s.authority == key a.signer_info)
    ok (record s { executor = executor })
