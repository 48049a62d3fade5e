-- ===== src/Setup/Settings.antt =====
-- program/src/admin/set_admin.rs, set_fee_collector.rs, set_godl_per_round.rs,
-- set_motherlode_denominator.rs, set_swap_program.rs, set_var_address.rs, update_protocol_config.rs,
-- new_var.rs and transfer_mint_authority.rs: the admin's settings.
use godl_program.Base.{
  ℕ, ◌-◌, ◌+◌, ◌||◌, List, [], ◌∷◌, Result, ok, godl, panic, not_authorized,
  invalid_protocol_config, ◌>>=◌, ◌>>◌, require, reject, ltb, leb, ◌==◌, if◌then◌else◌, add_u64,
}
use godl_program.Consts.{max_godl_per_round, one_day_slots, mint_address}
use godl_program.Round.{Config}
use godl_program.Treasury.{Clock}
use godl_program.Runtime.{
  Steel, Effect, collect, resize, open_var, set_mint_authority, demand, config, treasury,
}

-- 8 bytes of discriminant, and the account
abbrev pub config_len : ℕ
config_len = 8 + 224

-- zero stands for unset, and a day is the most
unfoldable pub set_timing : ℕ → ℕ → Config → Result Config
set_timing round_slots intermission_slots c = do
  reject
      (round_slots == 0
        || ltb one_day_slots round_slots
        || intermission_slots == 0
        || ltb one_day_slots intermission_slots)
      (godl invalid_protocol_config)
  ok (record c { round_slots = round_slots; intermission_slots = intermission_slots })

module _ {N A : Type 0} (steel : Steel N A) where
  open steel use {
    key, lamports, is_signer, is_writable, has_address, has_seeds, is_system_program,
    is_token_program, is_entropy_program, is_executable, has_owner, data_len, as_board, as_config,
    as_grown_config, as_var, as_mint, is_mint_authority, config_rent,
  }

  -- each instruction is given some of these
  pub record Accounts : Type 0 where
    pub signer_info : A
    pub board_info : A
    pub config_info : A
    pub new_swap_program_info : A
    pub new_var_address_info : A
    pub provider_info : A
    pub mint_info : A
    pub treasury_info : A
    pub godl_mint_authority_info : A
    pub system_program : A
    pub token_program : A
    pub entropy_program : A

  -- the signed config's check of the admin
  unfoldable pub load_as_admin : Accounts → Result Config
  load_as_admin a = do
    c ← as_config a.config_info
    require (c.admin == key a.signer_info) (godl not_authorized)
    ok c

  unfoldable pub process_set_admin : Accounts → ℕ → Result Config
  process_set_admin a admin = do
    is_signer a.signer_info
    c ← load_as_admin a
    is_system_program a.system_program
    ok (record c { admin = admin })

  unfoldable pub process_set_fee_collector : Accounts → ℕ → Result Config
  process_set_fee_collector a fee_collector = do
    is_signer a.signer_info
    c ← load_as_admin a
    is_system_program a.system_program
    ok (record c { fee_collector = fee_collector })

  unfoldable pub process_set_godl_per_round : Accounts → ℕ → Result Config
  process_set_godl_per_round a godl_per_round = do
    is_signer a.signer_info
    c ← load_as_admin a
    is_system_program a.system_program
    require (leb godl_per_round max_godl_per_round) panic
    ok (record c { godl_per_round = godl_per_round })

  unfoldable pub process_set_motherlode_denominator : Accounts → ℕ → Result Config
  process_set_motherlode_denominator a motherlode_denominator = do
    is_signer a.signer_info
    c ← load_as_admin a
    is_system_program a.system_program
    ok (record c { motherlode_denominator = motherlode_denominator })

  unfoldable pub process_set_swap_program : Accounts → Result Config
  process_set_swap_program a = do
    is_signer a.signer_info
    c ← load_as_admin a
    is_executable a.new_swap_program_info
    ok (record c { swap_program = key a.new_swap_program_info })

  unfoldable pub process_set_var_address : Accounts → Result Config
  process_set_var_address a = do
    is_signer a.signer_info
    _ ← as_board a.board_info
    c ← load_as_admin a
    v ← as_var a.new_var_address_info
    demand (v.authority == key a.board_info)
    demand (ltb 0 v.samples)
    ok (record c { var_address = key a.new_var_address_info })

  -- an account of the layout before the timing fields is grown, at the signer's cost
  unfoldable pub grow_config : Accounts → Result (Config × List (Effect A))
  grow_config a =
      if ltb (data_len a.config_info) config_len
      then (do
        has_owner a.config_info
        let shortfall = config_rent - lamports a.config_info
        c ← as_grown_config a.config_info
        ok (
          c,
          (if ltb 0 shortfall
              then collect a.config_info shortfall a.signer_info
                ∷ resize a.config_info config_len
                ∷ []
              else resize a.config_info config_len ∷ []),
        ))
      else (do c ← as_config a.config_info; ok (c, []))

  unfoldable pub process_update_protocol_config :
      Accounts → ℕ → ℕ → Result (Config × List (Effect A))
  process_update_protocol_config a round_slots intermission_slots = do
    is_signer a.signer_info
    is_writable a.config_info
    has_seeds a.config_info config
    is_system_program a.system_program
    (c, grown) ← grow_config a
    require (c.admin == key a.signer_info) (godl not_authorized)
    c' ← set_timing round_slots intermission_slots c
    ok (c', grown)

  unfoldable pub process_new_var : Accounts → Clock → ℕ → List ℕ → ℕ → Result (List (Effect A))
  process_new_var a clock id commit samples = do
    is_signer a.signer_info
    _ ← load_as_admin a
    is_entropy_program a.entropy_program
    is_system_program a.system_program
    end_at ← add_u64 clock.slot 1
    ok (open_var a.board_info a.signer_info id a.provider_info commit samples end_at ∷ [])

  unfoldable pub process_transfer_mint_authority : Accounts → Result (List (Effect A))
  process_transfer_mint_authority a = do
    is_signer a.signer_info
    _ ← load_as_admin a
    has_address a.mint_info mint_address
    _ ← as_mint a.mint_info
    is_writable a.treasury_info
    has_seeds a.treasury_info treasury
    is_mint_authority a.godl_mint_authority_info
    is_token_program a.token_program
    ok (set_mint_authority a.mint_info a.treasury_info a.godl_mint_authority_info ∷ [])
