-- ===== src/Setup/Valid.antt =====
-- The config that the settings lead to.
use godl_program.Base.{
  ℕ, ◌≡◌, ◌≤◌, true, List, Result, ok, arith, ◌>>=◌, >>=-eq-ok, leb, sym, ap, ◌∙◌, godl,
  not_authorized, require, ◌==◌, ok-injective_pair, ok-injective,
}
use mathlib.Core.Path.{subst}
use godl_program.Consts.{max_godl_per_round, one_day_slots}
use godl_program.Numeric.{Numeric}
use godl_program.Round.{Config, round_slots, intermission_slots}
use godl_program.Setup.Settings.{
  Accounts, config_len, load_as_admin, process_set_admin, process_set_fee_collector,
  process_set_godl_per_round, process_set_motherlode_denominator, process_set_swap_program,
  process_set_var_address, grow_config, set_timing, process_update_protocol_config,
}
use godl_program.Setup.Genesis.{InitializeArgs, Initialized, first_config, process_initialize}
use godl_program.Setup.Genesis
use godl_program.Runtime.{Steel, Effect, config}

-- the admin's instructions that write the config
pub data Setting : Type 0 where
  admin fee_collector godl_per_round motherlode_denominator : ℕ → Setting
  swap_program var_address : Setting
  protocol_config : ℕ → ℕ → Setting

-- Both lengths are set, to a day at most, and no more GODL is minted in a round than is allowed.
abbrev pub IsValid : Config → Type 0
IsValid c =
    (1 ≤ c.round_slots)
    × (c.round_slots ≤ one_day_slots)
    × (1 ≤ c.intermission_slots)
    × (c.intermission_slots ≤ one_day_slots)
    × (c.godl_per_round ≤ max_godl_per_round)

module _ {N A : Type 0} (steel : Steel N A) where
  abbrev pub perform : Accounts steel → Setting → Result Config
  perform a (admin key) = process_set_admin steel a key
  perform a (fee_collector key) = process_set_fee_collector steel a key
  perform a (godl_per_round n) = process_set_godl_per_round steel a n
  perform a (motherlode_denominator n) = process_set_motherlode_denominator steel a n
  perform a swap_program = process_set_swap_program steel a
  perform a var_address = process_set_var_address steel a
  perform a (protocol_config n k) = do (c, _) ← process_update_protocol_config steel a n k; ok c

  -- what a setting does to a config that has the current layout
  record Performed (a : Accounts steel) (c c' : Config) : Type 0 where
    by_admin : c.admin ≡ steel.key a.signer_info
    kept : IsValid c → IsValid c'

  IsPerformed : Accounts steel → Config → Result Config → Type 0
  IsPerformed a c r = (c' : Config) → r ≡ ok c' → Performed a c c'

  module _ (a : Accounts steel) (c : Config) (loaded : steel.as_config a.config_info ≡ ok c) where
    load_as_admin-eq-ok :
        (c₁ : Config)
        → load_as_admin steel a ≡ ok c₁
        → (c₁ ≡ c) × (c.admin ≡ steel.key a.signer_info)
    unfolding load_as_admin
    load_as_admin-eq-ok c₁ h = (ground arith, ground arith)

    admin-Performed : (key : ℕ) → IsPerformed a c (process_set_admin steel a key)
    unfolding IsPerformed process_set_admin load_as_admin
    admin-Performed key c' h = record { by_admin = ground arith; kept = λ v. ground arith }

    fee_collector-Performed : (key : ℕ) → IsPerformed a c (process_set_fee_collector steel a key)
    unfolding IsPerformed process_set_fee_collector load_as_admin
    fee_collector-Performed key c' h = record { by_admin = ground arith; kept = λ v. ground arith }

    godl_per_round-Performed : (n : ℕ) → IsPerformed a c (process_set_godl_per_round steel a n)
    unfolding IsPerformed process_set_godl_per_round load_as_admin
    godl_per_round-Performed n c' h = record { by_admin = ground arith; kept = λ v. ground arith }

    denominator-Performed : (n : ℕ) → IsPerformed a c (process_set_motherlode_denominator steel a n)
    unfolding IsPerformed process_set_motherlode_denominator load_as_admin
    denominator-Performed n c' h = record { by_admin = ground arith; kept = λ v. ground arith }

    swap_program-Performed : IsPerformed a c (process_set_swap_program steel a)
    unfolding IsPerformed process_set_swap_program load_as_admin
    swap_program-Performed c' h = record { by_admin = ground arith; kept = λ v. ground arith }

    var_address-Performed : IsPerformed a c (process_set_var_address steel a)
    unfolding IsPerformed process_set_var_address load_as_admin
    var_address-Performed c' h = record { by_admin = ground arith; kept = λ v. ground arith }

    module _ (current : leb config_len (steel.data_len a.config_info) ≡ true) where
      grow_config-eq-ok :
          (c₁ : Config) (es : List (Effect A)) → grow_config steel a ≡ ok (c₁, es) → c₁ ≡ c
      unfolding grow_config
      grow_config-eq-ok c₁ es h = ground arith

      set_timing-IsValid :
          (n k : ℕ) (c₁ c' : Config) → set_timing n k c₁ ≡ ok c' → IsValid c₁ → IsValid c'
      unfolding set_timing
      set_timing-IsValid n k c₁ c' h v = ground arith

      load_timing :
          (n k : ℕ) (c₁ : Config) (es : List (Effect A))
          → process_update_protocol_config steel a n k ≡ ok (c₁, es)
          → (g : Config × List (Effect A)) × (grow_config steel a ≡ ok g)
            × (set_timing n k g.0 ≡ ok c₁)
            × (g.0.admin ≡ steel.key a.signer_info)
      unfolding process_update_protocol_config
      load_timing n k c₁ es h =
          let (_, _, h₁) = >>=-eq-ok (steel.is_signer a.signer_info) _ h in
          let (_, _, h₂) = >>=-eq-ok (steel.is_writable a.config_info) _ h₁ in
          let (_, _, h₃) = >>=-eq-ok (steel.has_seeds a.config_info config) _ h₂ in
          let (_, _, h₄) = >>=-eq-ok (steel.is_system_program a.system_program) _ h₃ in
          let ((c₂, grown), e₅, h₅) = >>=-eq-ok (grow_config steel a) _ h₄ in
          let (_, e₆, h₆) =
            >>=-eq-ok (require (c₂.admin == steel.key a.signer_info) (godl not_authorized)) _ h₅ in
          let (c₃, e₇, h₇) = >>=-eq-ok (set_timing n k c₂) _ h₆ in
          let (same, _) = ok-injective_pair c₃ c₁ grown es h₇ in
          ((c₂, grown), e₅, subst (λ z. set_timing n k c₂ ≡ ok z) same e₇, ground arith)

      protocol_config-Performed : (n k : ℕ) → IsPerformed a c (perform a (protocol_config n k))
      unfolding IsPerformed
      protocol_config-Performed n k c' h =
          let ((c₁, es), e₁, h₁) = >>=-eq-ok (process_update_protocol_config steel a n k) _ h in
          (let ((c₂, grown), e₂, h₂, admin_signs) = load_timing n k c₁ es e₁ in
            let same = grow_config-eq-ok c₂ grown e₂ in
            let moved = subst (λ z. set_timing n k z ≡ ok c₁) same h₂ in
            let last : c₁ ≡ c' = ok-injective c₁ c' h₁ in
            record {
              by_admin = sym (ap (λ z. z.admin) same) ∙ admin_signs;
              kept = λ v. subst IsValid last (set_timing-IsValid n k c c₁ moved v);
            })

      perform-Performed : (s : Setting) → IsPerformed a c (perform a s)
      perform-Performed (admin key) = admin-Performed key
      perform-Performed (fee_collector key) = fee_collector-Performed key
      perform-Performed (godl_per_round n) = godl_per_round-Performed n
      perform-Performed (motherlode_denominator n) = denominator-Performed n
      perform-Performed swap_program = swap_program-Performed
      perform-Performed var_address = var_address-Performed
      perform-Performed (protocol_config n k) = protocol_config-Performed n k

  -- A setting that goes through has been signed by the config's admin, and keeps a valid config valid.
  pub setting-IsValid :
      (a : Accounts steel) (s : Setting) (c c' : Config)
      → steel.as_config a.config_info ≡ ok c
      → leb config_len (steel.data_len a.config_info) ≡ true
      → perform a s ≡ ok c'
      → IsValid c
      → (c.admin ≡ steel.key a.signer_info) × IsValid c'
  unfolding IsPerformed
  setting-IsValid a s c c' loaded current h valid =
      let p = perform-Performed a c loaded current s c' h in (p.by_admin, p.kept valid)

module _ (N A : Type 0) ⦃num : Numeric N⦄ where
  -- the configs that the program's own set-up and its settings lead to
  pub data Configured : Config → Type 0 where
    initializes :
        (steel : Steel N A) (a : Genesis.Accounts steel) (args : InitializeArgs)
        (r : Initialized steel)
        → process_initialize steel a args ≡ ok r
        → Configured r.config_after
    sets :
        (steel : Steel N A) (a : Accounts steel) (s : Setting) (c c' : Config)
        → steel.as_config a.config_info ≡ ok c
        → leb config_len (steel.data_len a.config_info) ≡ true
        → perform steel a s ≡ ok c'
        → Configured c
        → Configured c'

  initialize-IsValid :
      (steel : Steel N A) (a : Genesis.Accounts steel) (args : InitializeArgs)
      (r : Initialized steel)
      → process_initialize steel a args ≡ ok r
      → IsValid r.config_after
  unfolding process_initialize
  initialize-IsValid steel a args r h = ground arith

  Configured_lem : (c : Config) → Configured c → IsValid c
  Configured_lem _ (initializes steel a args r h) = initialize-IsValid steel a args r h
  Configured_lem _ (sets steel a s c c' loaded current h p) =
      (setting-IsValid steel a s c c' loaded current h (Configured_lem c p)).1

  -- Whatever settings follow the set-up, on an account of the current layout, both lengths of the
  -- config are set, and a day at most, so that the defaults are not used, and the GODL of a round is
  -- at most what is allowed.
  pub Configured-IsValid :
      (c : Config)
      → Configured c
      → IsValid c × (round_slots c ≡ c.round_slots) × (intermission_slots c ≡ c.intermission_slots)
  unfolding round_slots intermission_slots
  Configured-IsValid c p =
      let valid = Configured_lem c p in
      let (a, _, b, _, _) = valid in (valid, ground arith, ground arith)
