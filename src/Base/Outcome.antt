-- ===== src/Base/Outcome.antt =====
-- The outcome of fallible code: api/src/error.rs, the errors of the Solana runtime that the code
-- returns, and `panic` for a failed assertion or an arithmetic overflow (both build profiles of
-- Cargo.toml set `overflow-checks = true`). An instruction that fails changes nothing on chain, so
-- an error carries no state.
use mathlib.Core.Path.{◌≡◌, refl}
use mathlib.Core.Bool.{Bool, true, false}
use mathlib.Core.Option.{Option, none, some}
use mathlib.Core.Logic.{◌⊎◌, inl, inr}

pub data GodlError : Type 0 where
  amount_too_small not_authorized invalid_referrer_account invalid_lock_duration : GodlError
  stake_locked stake_unlocked stake_v2_not_released stake_overflow : GodlError
  already_deployed_this_round stake_already_exists nft_already_staked nft_not_staked : GodlError
  invalid_collection insufficient_otc_godl_balance otc_quote_expired rebase_mismatch : GodlError
  stake_not_empty stake_not_phantom merge_same_stake stake_v1_deprecated : GodlError
  gold_slippage_exceeded insufficient_motherlode_balance legacy_checkpoint_expired : GodlError
  gold_distribution_locked miner_extended_missing legacy_deploy_expired : GodlError
  invalid_protocol_config : GodlError

pub data Error : Type 0 where
  godl : GodlError → Error
  not_enough_account_keys invalid_account_data invalid_instruction_data : Error
  uninitialized_account invalid_argument : Error
  arithmetic_overflow panic : Error
  -- an error that a library call returns
  external : Error

-- A panic is an error too: either way the instruction is undone.
pub data Result {ℓ} (T : Type ℓ) : Type ℓ where
  err : Error → Result T
  ok : T → Result T

-- `e?; k`: abbreviations, so that a chain of steps computes wherever it stands.
module _ {ℓ κ} {T : Type ℓ} {U : Type κ} where
  infixl 5 ◌>>=◌
  abbrev pub ◌>>=◌ : Result T → (T → Result U) → Result U
  err failure >>= rest = err failure
  ok result >>= rest = rest result

module _ {κ} {U : Type κ} where
  infixl 5 ◌>>◌
  abbrev pub ◌>>◌ : Result (Unit {0}) → Result U → Result U
  check >> rest = check >>= λ _. rest

-- `if !c { return Err(e) }` and `assert!(c)`
abbrev pub require : Bool → Error → Result (Unit {0})
require true e = ok tt
require false e = err e

-- `if c { return Err(e) }`
abbrev pub reject : Bool → Error → Result (Unit {0})
reject true e = err e
reject false e = ok tt

-- `ok_or`
abbrev pub ok_or {ℓ} : {A : Type ℓ} → Option A → Error → Result A
ok_or (some a) e = ok a
ok_or none e = err e

module _ {ℓ} {A : Type ℓ} where
  pub Result-cases : (r : Result A) → ((a : A) × (r ≡ ok a)) ⊎ ((e : Error) × (r ≡ err e))
  Result-cases (ok a) = inl (a, refl)
  Result-cases (err e) = inr (e, refl)

  pub ok-injective : (a b : A) → ok a ≡ ok b → a ≡ b
  ok-injective a b h = cc

  pub err-ne-ok : (e : Error) (a : A) → ¬ (err e ≡ ok a)
  err-ne-ok e a h = cc

  pub ok-functional : (r : Result A) (a b : A) → r ≡ ok a → r ≡ ok b → a ≡ b
  ok-functional r a b p q = cc

-- Inversion of a chain that succeeded, for proofs where the parts stay shut.
module _ {ℓ κ} {T : Type ℓ} {U : Type κ} where
  pub >>=-eq-ok :
      (step : Result T) (rest : T → Result U) {u : U}
      → (step >>= rest) ≡ ok u
      → (t : T) × (step ≡ ok t) × (rest t ≡ ok u)
  >>=-eq-ok (err failure) rest succeeded = cc
  >>=-eq-ok (ok result) rest succeeded = (result, refl, succeeded)

module _ {A B : Type 0} where
  abbrev two : A → B → Result (A × B)
  two a b = ok (a, b)

  pub ok-injective_pair : (a a' : A) (b b' : B) → two a b ≡ two a' b' → (a ≡ a') × (b ≡ b')
  ok-injective_pair a a' b b' h = (cc, cc)

module _ {A B C : Type 0} where
  abbrev three : A → B → C → Result (A × B × C)
  three a b c = ok (a, b, c)

  pub ok-injective_triple :
      (a a' : A) (b b' : B) (c c' : C)
      → three a b c ≡ three a' b' c'
      → (a ≡ a') × (b ≡ b') × (c ≡ c')
  ok-injective_triple a a' b b' c c' h = (cc, cc, cc)

module _ {A B C D : Type 0} where
  abbrev four : A → B → C → D → Result (A × B × C × D)
  four a b c d = ok (a, b, c, d)

  pub ok-injective_quad :
      (a a' : A) (b b' : B) (c c' : C) (d d' : D)
      → four a b c d ≡ four a' b' c' d'
      → (a ≡ a') × (b ≡ b') × (c ≡ c') × (d ≡ d')
  ok-injective_quad a a' b b' c c' d d' h = (cc, cc, cc, cc)

abbrev pub IsOk {ℓ} : {A : Type ℓ} → Result A → Type 0
IsOk (ok _) = Unit
IsOk (err _) = ⊥
