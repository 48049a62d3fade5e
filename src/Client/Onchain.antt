-- ===== src/Client/Onchain.antt =====
-- The accounts that a client names, as the program meets them: steel's checks compare keys and flags,
-- and an account's state is looked up by its key.
use godl_program.Base.{◌==◌, ℕ}
use godl_program.Client.{AccountMeta, Addresses}
use godl_program.Runtime.{Steel, demand}

module _ {N : Type 0} (addresses : Addresses) (chain : Steel N ℕ) where
  abbrev pub onchain : Steel N AccountMeta
  onchain = record {
    key = λ a. a.pubkey;
    data_is_empty = λ a. chain.data_is_empty a.pubkey;
    lamports = λ a. chain.lamports a.pubkey;
    is_signer = λ a. demand a.is_signer;
    is_writable = λ a. demand a.is_writable;
    is_empty = λ a. chain.is_empty a.pubkey;
    has_address = λ a k. demand (a.pubkey == k);
    has_seeds = λ a s. demand (a.pubkey == addresses.pda s);
    is_system_program = λ a. demand (a.pubkey == addresses.system_program);
    is_token_program = λ a. demand (a.pubkey == addresses.token_program);
    is_associated_token_program = λ a. demand (a.pubkey == addresses.associated_token_program);
    is_godl_program = λ a. demand (a.pubkey == addresses.program_id);
    is_entropy_program = λ a. demand (a.pubkey == addresses.entropy_program);
    is_executable = λ a. chain.is_executable a.pubkey;
    has_owner = λ a. chain.has_owner a.pubkey;
    data_len = λ a. chain.data_len a.pubkey;
    is_mint_program = λ a. demand (a.pubkey == addresses.mint_program);
    is_slot_hashes = λ a. demand (a.pubkey == addresses.slot_hashes);
    as_board = λ a. chain.as_board a.pubkey;
    as_config = λ a. chain.as_config a.pubkey;
    as_grown_config = λ a. chain.as_grown_config a.pubkey;
    as_treasury = λ a. chain.as_treasury a.pubkey;
    as_miner = λ a. chain.as_miner a.pubkey;
    as_miner_extended = λ a. chain.as_miner_extended a.pubkey;
    as_gold_vault = λ a. chain.as_gold_vault a.pubkey;
    as_sol_motherlode = λ a. chain.as_sol_motherlode a.pubkey;
    as_round = λ a. chain.as_round a.pubkey;
    as_pool_member = λ a. chain.as_pool_member a.pubkey;
    as_pool_round = λ a. chain.as_pool_round a.pubkey;
    as_var = λ a. chain.as_var a.pubkey;
    as_referrer = λ a. chain.as_referrer a.pubkey;
    as_automation = λ a. chain.as_automation a.pubkey;
    as_otc_treasury = λ a. chain.as_otc_treasury a.pubkey;
    as_otc_user = λ a. chain.as_otc_user a.pubkey;
    as_stake = λ a. chain.as_stake a.pubkey;
    as_stake_v2 = λ a. chain.as_stake_v2 a.pubkey;
    is_mint_authority = λ a. demand (a.pubkey == addresses.mint_authority);
    hashv = chain.hashv;
    as_mint = λ a. chain.as_mint a.pubkey;
    as_tokens = λ a k. chain.as_tokens a.pubkey k;
    as_xaut = λ a k. chain.as_xaut a.pubkey k;
    as_wsol = λ a k. chain.as_wsol a.pubkey k;
    stake_v2_pda = chain.stake_v2_pda;
    associated_token_address = chain.associated_token_address;
    miner_rent = chain.miner_rent;
    treasury_struct_rent = chain.treasury_struct_rent;
    round_rent = chain.round_rent;
    pool_round_rent = chain.pool_round_rent;
    config_rent = chain.config_rent;
    sol_motherlode_rent = chain.sol_motherlode_rent;
  }
