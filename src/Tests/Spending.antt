-- ===== src/Tests/Spending.antt =====
-- SOL that the bury authority takes out of the treasury and of the motherlode.
use godl_program.Base.{ℕ, ◌+◌, ◌≡◌, ◌≤◌, refl, List, [], ◌∷◌, ok}
use godl_program.Base.Int.{pos}
use godl_program.Consts.{legacy_instruction_expiry_ts}
use godl_program.Numeric.Fixed.{units}
use godl_program.Treasury.{Clock}
use godl_program.Gold.{split_payout}
use godl_program.Runtime.{Effect, send}
use godl_program.Runtime.Flows.{outflow}
use godl_program.Admin.{Accounts, check_bury_authority, take_from_vault, process_pre_bury}
use godl_program.Admin.Spending.{pre_buries, Spends-exact}
use godl_program.Setup.Vaults.{VaultAccounts, move_motherlode, process_pre_buy_gold}
use godl_program.Setup.Purchase.{pre_buy_exact}
use godl_program.Tests.Samples.{runtime, treasury, config}

abbrev accounts : Accounts runtime
accounts = record {
  signer_info = 1;
  config_info = 2;
  treasury_info = 3;
  treasury_sol_info = 4;
  chest_info = 5;
  admin_info = 6;
  miner_info = 7;
  signer_tokens_info = 8;
  treasury_tokens_info = 9;
  gold_vault_info = 10;
  miner_extended_info = 11;
  token_program = 12;
  system_program = 13;
}

abbrev buried : List (Effect ℕ)
buried = send 3 30 4 ∷ send 3 5 5 ∷ send 3 5 6 ∷ []

pre_bury_run :
    process_pre_bury runtime accounts 30 5 5 ≡ ok (record treasury { balance = 30 }, buried)
unfolding process_pre_bury check_bury_authority take_from_vault
pre_bury_run = refl

Spends-exact_example :
    (config.bury_authority ≡ 1)
    × (30 + outflow buried ≡ 70)
    × (600 + outflow buried ≤ 1000)
    × (record treasury { balance = 30 } ≡ record treasury { balance = 30 })
Spends-exact_example =
    Spends-exact runtime accounts config treasury refl refl (record treasury { balance = 30 })
      buried (pre_buries 30 5 5 (record treasury { balance = 30 }) buried pre_bury_run)

abbrev vault_accounts : VaultAccounts runtime
vault_accounts = record {
  signer_info = 1;
  config_info = 2;
  miner_info = 3;
  miner_extended_info = 4;
  sol_motherlode_info = 5;
  gold_vault_info = 6;
  gold_vault_sol_info = 7;
  gold_vault_xaut_info = 8;
  sol_mint_info = 9;
  xaut_mint_info = 10;
  rush_sol_vault_info = 11;
  system_program = 12;
  token_program = 13;
  associated_token_program = 14;
}

abbrev later : Clock
later = record { slot = 1000; unix_timestamp = pos legacy_instruction_expiry_ts }

abbrev prepared : List (Effect ℕ)
prepared = send 5 2 11 ∷ send 5 23 7 ∷ []

pre_buy_run :
    process_pre_buy_gold runtime vault_accounts later 25 ≡ ok (record { amount = 5 }, prepared)
unfolding process_pre_buy_gold move_motherlode split_payout
pre_buy_run = refl

pre_buy_exact_example :
    (config.bury_authority ≡ 1)
    × (prepared ≡ prepared)
    × (outflow prepared ≡ 25)
    × (5 + outflow prepared ≡ 30)
    × (200 + outflow prepared ≤ 1000)
pre_buy_exact_example =
    pre_buy_exact runtime vault_accounts later 25 config (record { amount = 30 })
      (record { amount = 5 }) prepared refl refl pre_buy_run
