-- ===== src/Setup/Vaults.antt =====
-- program/src/gold/initialize_gold_vault.rs, create_miner_extended.rs and pre_buy_gold.rs: the gold
-- vault and the miners' extended accounts are opened, and SOL is moved ahead of a purchase.
use godl_program.Base.{
  ℕ, ◌-◌, ◌++◌, List, [], ◌∷◌, Option, Result, ok, godl, amount_too_small, gold_distribution_locked,
  insufficient_motherlode_balance, arithmetic_overflow, ◌>>=◌, ◌>>◌, reject, ltb, ◌==◌,
  if◌then◌else◌, add_u64, ok_or, replicate, true,
}
use godl_program.Base.Int.{pos, ltb_ℤ}
use godl_program.Consts.{
  deployer_address, sol_mint, xaut_mint, rush_sol_vault, legacy_instruction_expiry_ts,
}
use godl_program.Numeric.{Numeric}
use godl_program.Treasury.{Clock}
use godl_program.Gold.{GoldVault, MinerExtended, SolMotherlode, split_payout}
use godl_program.Extended.{load_or_create_miner_extended}
use godl_program.Runtime.{
  Steel, Effect, create, send, open_tokens, demand, miner, gold_vault, sol_motherlode,
}

module _ {N A : Type 0} ⦃num : Numeric N⦄ (steel : Steel N A) where
  open steel use {
    key, data_is_empty, lamports, is_signer, is_writable, is_empty, has_address, has_seeds,
    is_system_program, is_token_program, is_associated_token_program, as_mint, as_xaut, as_wsol,
    as_config, as_miner, as_gold_vault, as_sol_motherlode, sol_motherlode_rent,
  }

  -- each instruction is given some of these
  pub record VaultAccounts : Type 0 where
    pub signer_info : A
    pub config_info : A
    pub miner_info : A
    pub miner_extended_info : A
    pub sol_motherlode_info : A
    pub gold_vault_info : A
    pub gold_vault_sol_info : A
    pub gold_vault_xaut_info : A
    pub sol_mint_info : A
    pub xaut_mint_info : A
    pub rush_sol_vault_info : A
    pub system_program : A
    pub token_program : A
    pub associated_token_program : A

  abbrev pub first_vault : GoldVault N
  first_vault = record {
    xaut_rewards_factor = num.nought;
    pending_xaut = 0;
    total_xaut_distributed = 0;
    total_xaut_claimed = 0;
    total_sol_swapped = 0;
    buffer = replicate 32 0;
  }

  -- one of the vault's token accounts, at the mint that `load` checks
  unfoldable pub open_vault_tokens :
      VaultAccounts → A → (A → ℕ → Result ℕ) → Result (List (Effect A))
  open_vault_tokens a tokens_info load =
      if data_is_empty tokens_info
      then ok (open_tokens tokens_info a.gold_vault_info ∷ [])
      else (do _ ← load tokens_info (key a.gold_vault_info); ok [])

  unfoldable pub process_initialize_gold_vault :
      VaultAccounts → Result (GoldVault N × List (Effect A))
  process_initialize_gold_vault a = do
    is_signer a.signer_info
    has_address a.signer_info deployer_address
    is_empty a.gold_vault_info
    is_writable a.gold_vault_info
    has_seeds a.gold_vault_info gold_vault
    is_writable a.gold_vault_sol_info
    is_writable a.gold_vault_xaut_info
    has_address a.sol_mint_info sol_mint
    _ ← as_mint a.sol_mint_info
    has_address a.xaut_mint_info xaut_mint
    _ ← as_mint a.xaut_mint_info
    is_system_program a.system_program
    is_token_program a.token_program
    is_associated_token_program a.associated_token_program
    sol ← open_vault_tokens a a.gold_vault_sol_info as_wsol
    xaut ← open_vault_tokens a a.gold_vault_xaut_info as_xaut
    ok (first_vault, create a.gold_vault_info gold_vault a.signer_info ∷ (sol ++ xaut))

  -- anyone may pay for a miner's extended account; one that exists is left as it is
  unfoldable pub process_create_miner_extended :
      VaultAccounts → Result (Option (MinerExtended N) × List (Effect A))
  process_create_miner_extended a = do
    is_signer a.signer_info
    m ← as_miner a.miner_info
    has_seeds a.miner_info (miner m.authority)
    has_seeds a.gold_vault_info gold_vault
    vault ← as_gold_vault a.gold_vault_info
    is_system_program a.system_program
    load_or_create_miner_extended steel a.miner_extended_info vault m.authority a.signer_info true

  -- a tenth goes to the rush vault, the rest to the gold vault
  unfoldable pub move_motherlode :
      VaultAccounts → ℕ → SolMotherlode → Result (SolMotherlode × List (Effect A))
  move_motherlode a amount l = do
    reject (amount == 0) (godl amount_too_small)
    reject (ltb l.amount amount) (godl insufficient_motherlode_balance)
    needed ← add_u64 sol_motherlode_rent amount
    reject (ltb (lamports a.sol_motherlode_info) needed) (godl insufficient_motherlode_balance)
    (rush, gold) ← ok_or (split_payout amount) arithmetic_overflow
    ok (
      record l { amount = l.amount - amount },
      send a.sol_motherlode_info rush a.rush_sol_vault_info
          ∷ send a.sol_motherlode_info gold a.gold_vault_sol_info
          ∷ [],
    )

  unfoldable pub process_pre_buy_gold :
      VaultAccounts → Clock → ℕ → Result (SolMotherlode × List (Effect A))
  process_pre_buy_gold a clock amount = do
    reject (ltb_ℤ clock.unix_timestamp (pos legacy_instruction_expiry_ts))
        (godl gold_distribution_locked)
    is_signer a.signer_info
    c ← as_config a.config_info
    demand (c.bury_authority == key a.signer_info)
    is_writable a.sol_motherlode_info
    has_seeds a.sol_motherlode_info sol_motherlode
    l ← as_sol_motherlode a.sol_motherlode_info
    has_seeds a.gold_vault_info gold_vault
    _ ← as_gold_vault a.gold_vault_info
    is_writable a.gold_vault_sol_info
    _ ← as_wsol a.gold_vault_sol_info (key a.gold_vault_info)
    is_system_program a.system_program
    is_writable a.rush_sol_vault_info
    has_address a.rush_sol_vault_info rush_sol_vault
    move_motherlode a amount l
