-- ===== src/Automation.antt =====
-- api/src/state/automation_v2.rs: an authority's standing order to deploy. `config` packs three bytes
-- into a u64. A mask `& 0xFF` is written `% 256` and a shift as a power of two.
pub mod Bytes
use godl_program.Base.{
  ℕ, zero, suc, ◌+◌, ◌-◌, ◌*◌, ◌/◌, ◌%◌, ◌^◌, Bool, not, List, [], ◌∷◌, Result, ok, err, panic,
  ◌==◌, if◌then◌else◌,
}

pub record AutomationV2 : Type 0 where
  pub amount : ℕ
  pub authority : ℕ
  pub balance : ℕ
  pub executor : ℕ
  pub fee : ℕ
  pub config : ℕ
  pub mask : ℕ

pub data AutomationV2Strategy : Type 0 where
  random preferred : AutomationV2Strategy

-- `try_from(byte).unwrap()`
unfoldable pub strategy_from_byte : ℕ → Result AutomationV2Strategy
strategy_from_byte byte =
    if byte == 0
    then ok AutomationV2Strategy.random
    else if byte == 1
    then ok AutomationV2Strategy.preferred
    else err panic

-- `AutomationV2Strategy::from_config`
unfoldable pub from_config : ℕ → Result AutomationV2Strategy
from_config config = strategy_from_byte (config % 256)

abbrev pub strategy_byte : AutomationV2Strategy → ℕ
strategy_byte AutomationV2Strategy.random = 0
strategy_byte AutomationV2Strategy.preferred = 1

abbrev pub flag : Bool → ℕ
flag Bool.true = 1
flag Bool.false = 0

unfoldable pub config_byte : ℕ → ℕ → ℕ
config_byte config index = config / 2 ^ (index * 8) % 256

-- the bits below the slot, the new byte, and the bits above the slot
unfoldable pub set_config_byte : AutomationV2 → ℕ → ℕ → AutomationV2
set_config_byte a index value =
    let shift = index * 8 in
    record a {
      config =
          a.config % 2 ^ shift + value * 2 ^ shift + a.config / 2 ^ (shift + 8) * 2 ^ (shift + 8);
    }

unfoldable pub get_strategy : AutomationV2 → Result AutomationV2Strategy
get_strategy a = from_config a.config

unfoldable pub set_strategy : AutomationV2 → AutomationV2Strategy → AutomationV2
set_strategy a strategy = set_config_byte a 0 (strategy_byte strategy)

unfoldable pub get_claim_and_fund : AutomationV2 → Bool
get_claim_and_fund a = not (config_byte a.config 1 == 0)

unfoldable pub set_claim_and_fund : AutomationV2 → Bool → AutomationV2
set_claim_and_fund a enabled = set_config_byte a 1 (flag enabled)

unfoldable pub get_is_pooled : AutomationV2 → Bool
get_is_pooled a = not (config_byte a.config 2 == 0)

unfoldable pub set_is_pooled : AutomationV2 → Bool → AutomationV2
set_is_pooled a enabled = set_config_byte a 2 (flag enabled)
