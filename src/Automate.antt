-- ===== src/Automate.antt =====
-- program/src/automation/automate.rs, fund_automation.rs and claim_sol_and_fund_automation.rs: an
-- automation is set up, funded by its authority, or funded by its executor out of the miner's SOL.
pub mod Funding
use godl_program.Base.{
  ℕ, ◌+◌, ◌-◌, ◌*◌, ◌/◌, Bool, true, false, ◌&&◌, not, Option, some, none, List, [], ◌∷◌, ◌++◌,
  Result, ok, godl, not_authorized, invalid_instruction_data, ◌>>=◌, ◌>>◌, require, ltb, ◌==◌,
  if◌then◌else◌, add_u64, checked_mul, checked_sub,
}
use godl_program.Consts.{checkpoint_fee, referral_bps, denominator_bps}
use godl_program.Numeric.{Numeric}
use godl_program.Treasury.{Clock}
use godl_program.Miner.{Miner, default_key, claim_sol, referrer_account}
use godl_program.Pool.{PoolMember}
use godl_program.Automation.{
  AutomationV2, AutomationV2Strategy, from_config, set_strategy, set_claim_and_fund, set_is_pooled,
  get_claim_and_fund,
}
use godl_program.Referrer.{Referrer}
use godl_program.Runtime.{
  Steel, Effect, send, collect, create, close, demand, miner, pool_member, automation_v2,
}
use godl_program.Deploy.{opened_miner, opened_member}
use godl_program.Claim.{pay_referrer}

-- the instruction's data
pub record AutomateArgs : Type 0 where
  pub amount : ℕ
  pub deposit : ℕ
  pub fee : ℕ
  pub mask : ℕ
  pub strategy : ℕ
  pub claim_and_fund : ℕ
  pub is_pooled : ℕ

-- a new automation's account
abbrev opened_automation : ℕ → AutomationV2
opened_automation authority = record {
  amount = 0;
  authority = authority;
  balance = 0;
  executor = 0;
  fee = 0;
  config = 0;
  mask = 0;
}

unfoldable pub set_parameters :
    AutomateArgs → AutomationV2Strategy → ℕ → AutomationV2 → Result AutomationV2
set_parameters args strategy executor automation = do
  balance ← add_u64 automation.balance args.deposit
  let set = record automation {
    amount = args.amount;
    balance = balance;
    executor = executor;
    fee = args.fee;
    mask = args.mask;
  }
  ok (
      set_is_pooled (set_claim_and_fund (set_strategy set strategy) (args.claim_and_fund == 1))
        (args.is_pooled == 1))

-- a twentieth of a percent for a referrer, if there is one
unfoldable pub funding_referral : Option ℕ → ℕ → Result ℕ
funding_referral none amount = ok 0
funding_referral (some referrer) amount = do
  scaled ← checked_mul amount (referral_bps / 10) invalid_instruction_data
  ok (scaled / denominator_bps)

module _ {N A : Type 0} ⦃num : Numeric N⦄ (steel : Steel N A) where
  open steel use {
    key, data_is_empty, is_signer, is_writable, has_seeds, is_system_program, as_miner,
    as_pool_member, as_automation,
  }

  -- each instruction is given some of these; `rest` is for the referrer
  pub record Accounts : Type 0 where
    pub signer_info : A
    pub automation_v2_info : A
    pub executor_info : A
    pub miner_info : A
    pub pool_member_info : A
    pub system_program : A
    pub rest : List A

  -- what `automate` writes; an automation that is closed is gone
  pub record Automated : Type 0 where
    pub miner : Miner N
    pub opened_pool_member : Option PoolMember
    pub automation : Option AutomationV2
    pub effects : List (Effect A)

  unfoldable pub open_miner : Accounts → Result (Miner N × List (Effect A))
  open_miner a =
      if data_is_empty a.miner_info
      then ok (
        opened_miner steel (key a.signer_info),
        create a.miner_info (miner (key a.signer_info)) a.signer_info ∷ [],
      )
      else (do
        m ← as_miner a.miner_info
        require (m.authority == key a.signer_info) (godl not_authorized)
        ok (m, []))

  unfoldable pub load_automation : Accounts → Result AutomationV2
  load_automation a = do
    automation ← as_automation a.automation_v2_info
    require (automation.authority == key a.signer_info) (godl not_authorized)
    ok automation

  unfoldable pub open_pool_member : Accounts → Bool → Result (Option PoolMember × List (Effect A))
  open_pool_member a is_pooled =
      if data_is_empty a.pool_member_info
      then (if is_pooled
          then ok (
            some (opened_member (key a.signer_info)),
            create a.pool_member_info (pool_member (key a.signer_info)) a.signer_info ∷ [],
          )
          else ok (none, []))
      else (do
        p ← as_pool_member a.pool_member_info
        demand (p.authority == key a.signer_info)
        ok (none, []))

  unfoldable pub open_automation : Accounts → Result (AutomationV2 × List (Effect A))
  open_automation a =
      if data_is_empty a.automation_v2_info
      then ok (
        opened_automation (key a.signer_info),
        create a.automation_v2_info (automation_v2 (key a.signer_info)) a.signer_info ∷ [],
      )
      else (do automation ← load_automation a; ok (automation, []))

  unfoldable pub set_up :
      Accounts → AutomateArgs → AutomationV2Strategy → Miner N → Result Automated
  set_up a args strategy m = do
    (p, pool_created) ← open_pool_member a (args.is_pooled == 1)
    (automation, created) ← open_automation a
    automation' ← set_parameters args strategy (key a.executor_info) automation
    let topped = m.checkpoint_fee == 0
    ok (record {
      miner = if topped then record m { checkpoint_fee = checkpoint_fee } else m;
      opened_pool_member = p;
      automation = some automation';
      effects =
          pool_created
          ++ (created
              ++ ((if topped then collect a.miner_info checkpoint_fee a.signer_info ∷ [] else [])
                  ++ (collect a.automation_v2_info args.deposit a.signer_info ∷ [])));
    })

  unfoldable pub close_automation : Accounts → Miner N → Result Automated
  close_automation a m = do
    _ ← load_automation a
    ok (record {
      miner = m;
      opened_pool_member = none;
      automation = none;
      effects = close a.automation_v2_info a.signer_info ∷ [];
    })

  -- an executor of zero asks for the automation to be closed
  unfoldable pub process_automate : Accounts → AutomateArgs → Result Automated
  process_automate a args = do
    strategy ← from_config args.strategy
    is_signer a.signer_info
    is_writable a.automation_v2_info
    has_seeds a.automation_v2_info (automation_v2 (key a.signer_info))
    is_writable a.miner_info
    has_seeds a.miner_info (miner (key a.signer_info))
    is_writable a.pool_member_info
    has_seeds a.pool_member_info (pool_member (key a.signer_info))
    is_system_program a.system_program
    (m, opened) ← open_miner a
    r ←
        if key a.executor_info == default_key
        then close_automation a m
        else set_up a args strategy m
    ok (record r { effects = opened ++ r.effects })

  unfoldable pub process_fund_automation : Accounts → ℕ → Result (AutomationV2 × List (Effect A))
  process_fund_automation a deposit = do
    is_signer a.signer_info
    is_writable a.automation_v2_info
    is_system_program a.system_program
    automation ← as_automation a.automation_v2_info
    demand (automation.authority == key a.signer_info)
    has_seeds a.automation_v2_info (automation_v2 automation.authority)
    balance ← add_u64 automation.balance deposit
    ok (
      record automation { balance = balance },
      collect a.automation_v2_info deposit a.signer_info ∷ [],
    )

  pub record Funded : Type 0 where
    pub miner : Miner N
    pub automation : AutomationV2
    pub referrer_after : Option Referrer
    pub effects : List (Effect A)

  -- `m` has been emptied of `amount`
  unfoldable pub fund_from : Accounts → AutomationV2 → Miner N → ℕ → Result Funded
  fund_from a automation m amount = do
    referral ← funding_referral (referrer_account m) amount
    miner_amount ← checked_sub amount referral invalid_instruction_data
    (r, sends) ← pay_referrer steel a.miner_info a.rest (referrer_account m) referral
    balance ←
        if ltb 0 miner_amount
        then add_u64 automation.balance miner_amount
        else ok automation.balance
    ok (record {
      miner = m;
      automation = record automation { balance = balance };
      referrer_after = r;
      effects =
          sends
          ++ (if ltb 0 miner_amount
              then send a.miner_info miner_amount a.automation_v2_info ∷ []
              else []);
    })

  unfoldable pub process_claim_sol_and_fund_automation : Accounts → Clock → Result Funded
  process_claim_sol_and_fund_automation a clock = do
    is_signer a.signer_info
    automation ← as_automation a.automation_v2_info
    demand (automation.executor == key a.signer_info)
    demand (get_claim_and_fund automation)
    is_writable a.automation_v2_info
    has_seeds a.automation_v2_info (automation_v2 automation.authority)
    m ← as_miner a.miner_info
    demand (m.authority == automation.authority)
    is_system_program a.system_program
    let (amount, m') = claim_sol m clock
    fund_from a automation m' amount
