-- ===== src/Automation/Bytes.antt =====
-- Reading the packed bytes back.
use godl_program.Base.{◌/◌, ◌^◌, ◌≡◌, Bool, true, false, ok, arith}
use godl_program.Automation.{
  AutomationV2, AutomationV2Strategy, strategy_from_byte, from_config, config_byte, set_config_byte,
  get_strategy, set_strategy, get_claim_and_fund, set_claim_and_fund, get_is_pooled, set_is_pooled,
}

-- On any packed value, after the three settings have been written each is read back as it was written,
-- and the bits above them are as before.
pub settings_roundtrip :
    (a : AutomationV2) (strategy : AutomationV2Strategy) (claims pooled : Bool)
    → let b = set_is_pooled (set_claim_and_fund (set_strategy a strategy) claims) pooled in
      (get_strategy b ≡ ok strategy)
      × (get_claim_and_fund b ≡ claims)
      × (get_is_pooled b ≡ pooled)
      × (b.config / 2 ^ 24 ≡ a.config / 2 ^ 24)
unfolding get_strategy from_config strategy_from_byte set_strategy get_claim_and_fund
    set_claim_and_fund get_is_pooled set_is_pooled set_config_byte config_byte
settings_roundtrip a AutomationV2Strategy.random true true =
    (ground arith, ground arith, ground arith, omega arith)
settings_roundtrip a AutomationV2Strategy.random true false =
    (ground arith, ground arith, ground arith, omega arith)
settings_roundtrip a AutomationV2Strategy.random false true =
    (ground arith, ground arith, ground arith, omega arith)
settings_roundtrip a AutomationV2Strategy.random false false =
    (ground arith, ground arith, ground arith, omega arith)
settings_roundtrip a AutomationV2Strategy.preferred true true =
    (ground arith, ground arith, ground arith, omega arith)
settings_roundtrip a AutomationV2Strategy.preferred true false =
    (ground arith, ground arith, ground arith, omega arith)
settings_roundtrip a AutomationV2Strategy.preferred false true =
    (ground arith, ground arith, ground arith, omega arith)
settings_roundtrip a AutomationV2Strategy.preferred false false =
    (ground arith, ground arith, ground arith, omega arith)
