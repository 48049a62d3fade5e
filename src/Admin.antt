-- ===== src/Admin.antt =====
-- program/src/admin/pre_bury.rs, withdraw_vault.rs, rebase_total_staked.rs, rebase_total_unclaimed.rs
-- and inject_unrefined_rewards.rs: what the bury authority and the admin do to the treasury.
pub mod Spending
use godl_program.Base.{
  ℕ, ◌-◌, List, [], ◌∷◌, Option, Result, ok, panic, godl, not_authorized, rebase_mismatch, true,
  amount_too_small, invalid_instruction_data, ◌>>=◌, ◌>>◌, require, reject, ltb, leb, ◌==◌, add_u64,
  checked_add,
}
use godl_program.Consts.{chest_address, admin_godl_fee}
use godl_program.Numeric.{Numeric}
use godl_program.Treasury.{Treasury}
use godl_program.Miner.{Miner, update_rewards}
use godl_program.Gold.{MinerExtended}
use godl_program.Extended.{load_or_create_miner_extended, sync_gold_rewards}
use godl_program.Runtime.{Steel, Effect, send, transfer, demand, treasury, miner, gold_vault}

module _ {N A : Type 0} ⦃num : Numeric N⦄ (steel : Steel N A) where
  open steel use {
    key, lamports, is_signer, is_writable, has_address, has_seeds, is_system_program,
    is_token_program, as_config, as_treasury, as_miner, as_tokens, as_wsol, as_gold_vault,
    treasury_struct_rent,
  }

  -- each instruction is given some of these
  pub record Accounts : Type 0 where
    pub signer_info : A
    pub config_info : A
    pub treasury_info : A
    pub treasury_sol_info : A
    pub chest_info : A
    pub admin_info : A
    pub miner_info : A
    pub signer_tokens_info : A
    pub treasury_tokens_info : A
    pub gold_vault_info : A
    pub miner_extended_info : A
    pub token_program : A
    pub system_program : A

  unfoldable pub check_bury_authority : Accounts → Result (Unit {0})
  check_bury_authority a = do
    c ← as_config a.config_info
    demand (c.bury_authority == key a.signer_info)

  -- an amount that the vault has, beyond the minimum balance for the struct's size
  unfoldable pub take_from_vault : Accounts → ℕ → Treasury N → Result (Treasury N)
  take_from_vault a amount t = do
    require (ltb 0 amount) panic
    require (leb amount t.balance) panic
    needed ← add_u64 treasury_struct_rent amount
    require (leb needed (lamports a.treasury_info)) panic
    ok (record t { balance = t.balance - amount })

  unfoldable pub process_pre_bury : Accounts → ℕ → ℕ → ℕ → Result (Treasury N × List (Effect A))
  process_pre_bury a bury_amount chest_amount admin_amount = do
    two ← add_u64 bury_amount chest_amount
    total_amount ← add_u64 two admin_amount
    is_signer a.signer_info
    check_bury_authority a
    t ← as_treasury a.treasury_info
    is_writable a.treasury_sol_info
    _ ← as_wsol a.treasury_sol_info (key a.treasury_info)
    is_system_program a.system_program
    has_address a.chest_info chest_address
    has_address a.admin_info admin_godl_fee
    t' ← take_from_vault a total_amount t
    ok (
      t',
      send a.treasury_info bury_amount a.treasury_sol_info
          ∷ send a.treasury_info chest_amount a.chest_info
          ∷ send a.treasury_info admin_amount a.admin_info
          ∷ [],
    )

  unfoldable pub process_withdraw_vault : Accounts → ℕ → Result (Treasury N × List (Effect A))
  process_withdraw_vault a amount = do
    is_signer a.signer_info
    check_bury_authority a
    t ← as_treasury a.treasury_info
    is_system_program a.system_program
    t' ← take_from_vault a amount t
    ok (t', send a.treasury_info amount a.signer_info ∷ [])

  -- what both rebases load
  unfoldable pub load_for_rebase : Accounts → Result (Treasury N)
  load_for_rebase a = do
    is_signer a.signer_info
    c ← as_config a.config_info
    require (c.admin == key a.signer_info) (godl not_authorized)
    is_writable a.treasury_info
    has_seeds a.treasury_info treasury
    as_treasury a.treasury_info

  unfoldable pub process_rebase_total_staked : Accounts → ℕ → ℕ → Result (Treasury N)
  process_rebase_total_staked a expected new_value = do
    t ← load_for_rebase a
    require (t.total_staked == expected) (godl rebase_mismatch)
    ok (record t { total_staked = new_value })

  unfoldable pub process_rebase_total_unclaimed : Accounts → ℕ → ℕ → Result (Treasury N)
  process_rebase_total_unclaimed a expected new_value = do
    t ← load_for_rebase a
    require (t.total_unclaimed == expected) (godl rebase_mismatch)
    ok (record t { total_unclaimed = new_value })

  -- the amount is credited to the settled miner
  unfoldable pub inject : ℕ → Miner N → Treasury N → Result (Miner N × Treasury N)
  inject amount m t = do
    rewards ← checked_add m.rewards_godl amount invalid_instruction_data
    lifetime ← checked_add m.lifetime_rewards_godl amount invalid_instruction_data
    unclaimed ← checked_add t.total_unclaimed amount invalid_instruction_data
    ok (
      record m { rewards_godl = rewards; lifetime_rewards_godl = lifetime },
      record t { total_unclaimed = unclaimed },
    )

  unfoldable pub process_inject_unrefined_rewards :
      Accounts → ℕ → Result (Miner N × Treasury N × Option (MinerExtended N) × List (Effect A))
  process_inject_unrefined_rewards a amount = do
    is_signer a.signer_info
    check_bury_authority a
    is_writable a.miner_info
    m ← as_miner a.miner_info
    has_seeds a.miner_info (miner m.authority)
    is_writable a.treasury_info
    has_seeds a.treasury_info treasury
    t ← as_treasury a.treasury_info
    is_writable a.signer_tokens_info
    _ ← as_tokens a.signer_tokens_info (key a.signer_info)
    is_writable a.treasury_tokens_info
    _ ← as_tokens a.treasury_tokens_info (key a.treasury_info)
    is_token_program a.token_program
    has_seeds a.gold_vault_info gold_vault
    vault ← as_gold_vault a.gold_vault_info
    is_system_program a.system_program
    reject (amount == 0) (godl amount_too_small)
    (extended, created) ←
        load_or_create_miner_extended steel a.miner_extended_info vault m.authority a.signer_info
          true
    settled ← update_rewards m t
    extended' ← sync_gold_rewards extended vault settled
    (m', t') ← inject amount settled t
    ok (m', t', extended', transfer a.signer_tokens_info a.treasury_tokens_info amount ∷ created)
