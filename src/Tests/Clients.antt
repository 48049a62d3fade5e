-- ===== src/Tests/Clients.antt =====
-- The config's settings, the instructions' bytes, and a client's trade.
use godl_program.Base.{ℕ, ◌+◌, ◌≡◌, refl, arith, [], ◌∷◌, ok}
use godl_program.Base.Int.{pos}
use godl_program.Consts.{one_month}
use godl_program.Numeric.Fixed.{units}
use godl_program.Round.{Config, round_slots, intermission_slots}
use godl_program.Runtime.{Steel, Seeds, create}
use godl_program.Setup.Genesis.{
  InitializeArgs, Initialized, first_config, first_board, first_round, first_treasury, check_new,
  process_initialize,
}
use godl_program.Setup.Settings.{set_timing, grow_config, process_update_protocol_config}
use godl_program.Setup.Valid.{
  Configured, initializes, sets, protocol_config, Configured-IsValid, IsValid,
}
use godl_program.Setup.Genesis
use godl_program.Setup.Settings
use godl_program.Otc.Quotes.{Quote}
use godl_program.Client.{Addresses}
use godl_program.Client.Checked.{trade_checks, trade_of, read_quote, client_trade_checked}
use godl_program.Tests.Samples.{runtime, vault}

abbrev genesis_accounts : Genesis.Accounts runtime
genesis_accounts = record {
  signer_info = 1;
  config_info = 2;
  treasury_info = 3;
  board_info = 4;
  round_info = 5;
  sol_motherlode_info = 6;
  system_program = 7;
}

abbrev genesis_args : InitializeArgs
genesis_args = record { admin = 1; bury_authority = 2; fee_collector = 3; godl_per_round = 1000 }

abbrev initialized : Initialized runtime
initialized = record {
  config_after = first_config genesis_args;
  treasury_after = first_treasury runtime;
  board_after = first_board;
  round_after = first_round 1;
  effects =
      create 2 Seeds.config 1
      ∷ create 3 Seeds.treasury 1
      ∷ create 4 Seeds.board 1
      ∷ create 5 (Seeds.round 0) 1
      ∷ [];
}

is_initialized : Configured ℕ ℕ (first_config genesis_args)
unfolding process_initialize check_new
is_initialized = initializes runtime genesis_accounts genesis_args initialized refl

abbrev configured_runtime : Steel ℕ ℕ
configured_runtime = record runtime { as_config = λ a. ok (first_config genesis_args) }

abbrev settings_accounts : Settings.Accounts configured_runtime
settings_accounts = record {
  signer_info = 1;
  board_info = 4;
  config_info = 2;
  new_swap_program_info = 8;
  new_var_address_info = 9;
  provider_info = 10;
  mint_info = 11;
  treasury_info = 3;
  godl_mint_authority_info = 12;
  system_program = 7;
  token_program = 13;
  entropy_program = 14;
}

abbrev timed : Config
timed = record (first_config genesis_args) { round_slots = 300; intermission_slots = 50 }

is_timed : Configured ℕ ℕ timed
unfolding process_update_protocol_config grow_config set_timing
is_timed =
    sets configured_runtime settings_accounts (protocol_config 300 50) (first_config genesis_args)
      timed refl refl refl is_initialized

Configured-IsValid_example :
    IsValid timed × (round_slots timed ≡ 300) × (intermission_slots timed ≡ 50)
Configured-IsValid_example = Configured-IsValid ℕ ℕ timed is_timed

abbrev addresses : Addresses
addresses = record {
  pda = λ s. 1000;
  token_address = λ owner mint. owner + 1;
  var_pda = λ board id. board + id;
  mint_authority = 20;
  program_id = 21;
  system_program = 22;
  token_program = 23;
  associated_token_program = 24;
  entropy_program = 25;
  mint_program = 26;
  slot_hashes = 27;
}

abbrev quote : Quote
quote = record {
  stake_id = 3;
  sol_in = 10;
  godl_out = 500;
  godl_bonus = 50;
  expiry_slot = 2000;
  lock_duration = pos one_month;
}

client_trade_checked_example :
    (trade_checks addresses runtime (trade_of addresses runtime 9 quote) 3 ≡ ok (0, vault))
    × (read_quote addresses runtime (trade_of addresses runtime 9 quote) ≡ ok quote)
client_trade_checked_example =
    client_trade_checked addresses runtime 9 0 0 0 quote vault refl refl refl refl (omega arith)
