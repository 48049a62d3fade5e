-- ===== src/Claim/Gold.antt =====
-- program/src/gold/claim_gold.rs, deposit_gold.rs and buy_gold.rs: XAUt0 comes into the gold vault, by
-- a deposit or a swap, and is claimed by the miners.
use godl_program.Base.{
  ℕ, ◌-◌, ◌++◌, ◌||◌, List, [], ◌∷◌, Result, ok, godl, panic, invalid_account_data,
  amount_too_small, gold_distribution_locked, gold_slippage_exceeded, arithmetic_overflow, ◌>>=◌,
  ◌>>◌, require, reject, ltb, leb, ◌==◌, if◌then◌else◌, checked_add, true, ok_or,
}
use godl_program.Base.Int.{pos, ltb_ℤ}
use godl_program.Consts.{xaut_mint, legacy_instruction_expiry_ts}
use godl_program.Numeric.{Numeric}
use godl_program.Treasury.{Clock}
use godl_program.Gold.{GoldVault, MinerExtended, update_rewards, claim, distribute}
use godl_program.Extended.{load_or_create_miner_extended}
use godl_program.Runtime.{
  Steel, Effect, transfer, open_tokens, sync_native, swap, demand, miner, gold_vault,
}

-- what the swap leaves: the token accounts' amounts and the vault's lamports
pub record AfterSwap : Type 0 where
  pub sol : ℕ
  pub xaut : ℕ
  pub lamports : ℕ

module _ {N A : Type 0} ⦃num : Numeric N⦄ (steel : Steel N A) where
  open steel use {
    key, data_is_empty, lamports, is_signer, is_writable, has_address, has_seeds, is_system_program,
    is_token_program, is_associated_token_program, is_godl_program, as_board, as_config, as_miner,
    as_mint, as_xaut, as_wsol, as_treasury, as_gold_vault,
  }

  -- each instruction is given some of these
  pub record GoldAccounts : Type 0 where
    pub signer_info : A
    pub board_info : A
    pub config_info : A
    pub treasury_info : A
    pub miner_info : A
    pub miner_extended_info : A
    pub gold_vault_info : A
    pub gold_vault_sol_info : A
    pub gold_vault_xaut_info : A
    pub signer_xaut_info : A
    pub recipient_info : A
    pub xaut_mint_info : A
    pub system_program : A
    pub token_program : A
    pub associated_token_program : A
    pub godl_program : A

  unfoldable pub load_vault : GoldAccounts → Result (GoldVault N)
  load_vault a = do
    is_writable a.gold_vault_info
    has_seeds a.gold_vault_info gold_vault
    as_gold_vault a.gold_vault_info

  unfoldable pub check_xaut_mint : GoldAccounts → Result ℕ
  check_xaut_mint a = do has_address a.xaut_mint_info xaut_mint; as_mint a.xaut_mint_info

  unfoldable pub pay_gold : GoldAccounts → ℕ → Result (List (Effect A))
  pay_gold a amount = if amount == 0 then ok [] else do
    opened ←
        if data_is_empty a.recipient_info
        then ok (open_tokens a.recipient_info a.signer_info ∷ [])
        else (do _ ← as_xaut a.recipient_info (key a.signer_info); ok [])
    ok (opened ++ (transfer a.gold_vault_xaut_info a.recipient_info amount ∷ []))

  -- the settlement and the claim, on an account that has been loaded
  unfoldable pub settle_and_claim :
      GoldAccounts
      → MinerExtended N
      → GoldVault N
      → ℕ
      → Result (MinerExtended N × GoldVault N × List (Effect A))
  settle_and_claim a extended vault rewards_godl = do
    settled ← update_rewards extended vault rewards_godl
    let (amount, emptied) = claim settled
    claimed ← checked_add vault.total_xaut_claimed amount arithmetic_overflow
    paid ← pay_gold a amount
    ok (emptied, record vault { total_xaut_claimed = claimed }, paid)

  unfoldable pub process_claim_gold :
      GoldAccounts → Result (MinerExtended N × GoldVault N × List (Effect A))
  process_claim_gold a = do
    is_signer a.signer_info
    m ← as_miner a.miner_info
    demand (m.authority == key a.signer_info)
    has_seeds a.miner_info (miner m.authority)
    vault ← load_vault a
    is_writable a.gold_vault_xaut_info
    _ ← as_xaut a.gold_vault_xaut_info (key a.gold_vault_info)
    is_writable a.recipient_info
    _ ← check_xaut_mint a
    is_system_program a.system_program
    is_token_program a.token_program
    is_associated_token_program a.associated_token_program
    (loaded, created) ←
        load_or_create_miner_extended steel a.miner_extended_info vault m.authority a.signer_info
          true
    extended ← ok_or loaded invalid_account_data
    (extended', vault', paid) ← settle_and_claim a extended vault m.rewards_godl
    ok (extended', vault', created ++ paid)

  unfoldable pub process_deposit_gold :
      GoldAccounts → Clock → ℕ → Result (ℕ × GoldVault N × List (Effect A))
  process_deposit_gold a clock amount = do
    reject (ltb_ℤ clock.unix_timestamp (pos legacy_instruction_expiry_ts))
        (godl gold_distribution_locked)
    is_signer a.signer_info
    _ ← as_board a.board_info
    c ← as_config a.config_info
    demand (c.bury_authority == key a.signer_info)
    t ← as_treasury a.treasury_info
    vault ← load_vault a
    is_writable a.signer_xaut_info
    _ ← as_xaut a.signer_xaut_info (key a.signer_info)
    is_writable a.gold_vault_xaut_info
    _ ← as_xaut a.gold_vault_xaut_info (key a.gold_vault_info)
    _ ← check_xaut_mint a
    is_token_program a.token_program
    is_godl_program a.godl_program
    reject (amount == 0) (godl amount_too_small)
    (distributed, vault') ← distribute vault amount t.total_unclaimed
    ok (distributed, vault', transfer a.signer_xaut_info a.gold_vault_xaut_info amount ∷ [])

  -- the end of `buy_gold`, after the swap: `sol`, `xaut` and `rent` are what there was before
  unfoldable pub distribute_bought :
      AfterSwap → ℕ → ℕ → ℕ → ℕ → ℕ → GoldVault N → Result (ℕ × GoldVault N)
  distribute_bought after min_xaut_out sol xaut rent total_unclaimed vault = do
    require (after.lamports == rent) panic
    require (after.sol == 0) panic
    require (leb xaut after.xaut) panic
    let bought = after.xaut - xaut
    reject (ltb bought min_xaut_out || bought == 0) (godl gold_slippage_exceeded)
    (distributed, vault') ← distribute vault bought total_unclaimed
    swapped ← checked_add vault'.total_sol_swapped sol arithmetic_overflow
    ok (distributed, record vault' { total_sol_swapped = swapped })

  -- `after` is what the swap program does
  unfoldable pub process_buy_gold :
      GoldAccounts → Clock → ℕ → AfterSwap → Result (ℕ × GoldVault N × List (Effect A))
  process_buy_gold a clock min_xaut_out after = do
    reject (ltb_ℤ clock.unix_timestamp (pos legacy_instruction_expiry_ts))
        (godl gold_distribution_locked)
    is_signer a.signer_info
    _ ← as_board a.board_info
    c ← as_config a.config_info
    demand (c.bury_authority == key a.signer_info)
    t ← as_treasury a.treasury_info
    vault ← load_vault a
    is_writable a.gold_vault_sol_info
    sol ← as_wsol a.gold_vault_sol_info (key a.gold_vault_info)
    is_writable a.gold_vault_xaut_info
    xaut ← as_xaut a.gold_vault_xaut_info (key a.gold_vault_info)
    _ ← check_xaut_mint a
    is_token_program a.token_program
    is_godl_program a.godl_program
    require (ltb 0 sol) panic
    (distributed, vault') ←
        distribute_bought after min_xaut_out sol xaut (lamports a.gold_vault_info) t.total_unclaimed
          vault
    ok (
      distributed,
      vault',
      sync_native a.gold_vault_sol_info ∷ swap c.swap_program a.gold_vault_info ∷ [],
    )
