-- ===== src/Tests/Claims.antt =====
-- A claim of GODL, a claim of SOL into an automation, and GODL that is buried.
use godl_program.Base.{ℕ, ◌+◌, ◌*◌, ◌/◌, ◌≡◌, refl, [], ◌∷◌, ok, none, some}
use godl_program.Base.Int.{pos}
use godl_program.Numeric.{one}
use godl_program.Numeric.Fixed.{units, units-IsFixedPoint}
use godl_program.Miner.{
  Miner, claim_godl, update_rewards, accrue, charge_fee, claim_sol, referrer_account,
}
use godl_program.Gold.{init}
use godl_program.Gold
use godl_program.Referrer.{referral_amount, credit_sol}
use godl_program.Automation.{AutomationV2, get_claim_and_fund, config_byte}
use godl_program.Extended.{load_or_create_miner_extended, sync_gold_rewards}
use godl_program.Runtime.Flows.{outflow, token_flow, IsOpening}
use godl_program.Runtime.{Steel, Effect, create, open_tokens, transfer, send, miner_extended}
use godl_program.Claim.{pay_referrer}
use godl_program.Claim.Godl.{
  ClaimGodlAccounts, ClaimedGodl, load_recipient, pay_referrer_godl, pay_godl, claim_loaded,
}
use godl_program.Claim.Tokens.{IsReferralGodl, claim_godl_pays}
use godl_program.Claim.Payments.{IsReferral}
use godl_program.Automate.{
  Accounts, Funded, funding_referral, fund_from, process_claim_sol_and_fund_automation,
}
use godl_program.Bury
use godl_program.Bury.Shares.{removed, spread_all}
use godl_program.Base.{true, false, List, ◌++◌, map, ltb, if◌then◌else◌}
use godl_program.Treasury.{Treasury}
use godl_program.Runtime.{burn}
use godl_program.Automate.Funding.{claim_and_fund_moves}
use godl_program.Tests.Samples
use godl_program.Tests.Samples.{runtime, miner, treasury, vault, clock}

abbrev godl_accounts : ClaimGodlAccounts runtime
godl_accounts = record {
  signer_info = 9;
  miner_info = 2;
  mint_info = 3;
  recipient_info = 99;
  treasury_info = 5;
  treasury_tokens_info = 6;
  system_program = 7;
  token_program = 8;
  associated_token_program = 10;
  gold_vault_info = 11;
  miner_extended_info = 99;
  rest = [];
}

abbrev claimed : ClaimedGodl runtime
claimed = record {
  miner_after = record miner {
    rewards_factor = 3 * one;
    refined_godl = 0;
    rewards_godl = 0;
    last_claim_godl_at = clock.unix_timestamp;
    lifetime_rewards_godl = 38;
  };
  treasury_after = record treasury {
    total_unclaimed = 40;
    total_refined = 77;
    miner_rewards_factor = 858498678967500;
  };
  extended = some (init 9 vault);
  referrer_after = none;
  effects = create 99 (miner_extended 9) 9 ∷ open_tokens 99 9 ∷ transfer 6 99 43 ∷ [];
}

claim_run : claim_loaded runtime godl_accounts clock miner treasury vault ≡ ok claimed
unfolding claim_loaded load_or_create_miner_extended load_recipient sync_gold_rewards pay_godl
    claim_godl update_rewards accrue charge_fee referral_amount referrer_account pay_referrer_godl
    Gold.update_rewards Gold.accrue init
claim_run = refl

claim_godl_pays_example :
    (token_flow claimed.effects + 40 + 77 ≡ 60 + 100)
    × (claimed.miner_after.rewards_godl ≡ 0)
    × (claimed.miner_after.refined_godl ≡ 0)
    × ((referral rest : ℕ) × (payees : List ℕ) × (opening : List (Effect ℕ)) × IsReferralGodl
          runtime
          (referrer_account miner)
          []
          referral
          ((referral + rest) / 200)
          payees
        × IsOpening opening
        × (claimed.effects
            ≡ opening
              ++ (map (λ to. transfer 6 to referral) payees
                  ++ (if ltb 0 rest then transfer 6 99 rest ∷ [] else []))))
claim_godl_pays_example =
    claim_godl_pays runtime godl_accounts clock miner treasury vault claimed claim_run

abbrev referred : Miner ℕ
referred = record miner { rewards_sol = 20000; referrer = 77 }

abbrev automation : AutomationV2
automation = record {
  amount = 50;
  authority = 9;
  balance = 1000;
  executor = 1;
  fee = 5;
  config = 256;
  mask = 3;
}

abbrev funding_runtime : Steel ℕ ℕ
funding_runtime = record runtime { as_miner = λ a. ok referred; as_automation = λ a. ok automation }

abbrev funding_accounts : Accounts funding_runtime
funding_accounts = record {
  signer_info = 1;
  automation_v2_info = 2;
  executor_info = 1;
  miner_info = 3;
  pool_member_info = 4;
  system_program = 5;
  rest = 77 ∷ [];
}

abbrev funded : Funded funding_runtime
funded = record {
  miner = record referred { rewards_sol = 0; last_claim_sol_at = pos 500 };
  automation = record automation { balance = 20990 };
  referrer_after =
      some (record Samples.sample_referrer { rewards_sol = 13; cumulative_rewards_sol = 40 });
  effects = send 3 10 77 ∷ send 3 19990 2 ∷ [];
}

funding_run :
    process_claim_sol_and_fund_automation funding_runtime funding_accounts clock ≡ ok funded
unfolding process_claim_sol_and_fund_automation get_claim_and_fund config_byte claim_sol fund_from
    funding_referral referrer_account pay_referrer credit_sol
funding_run = refl

claim_and_fund_moves_example :
    (outflow funded.effects ≡ 20000)
    × (funded.miner.rewards_sol ≡ 0)
    × ((referral rest : ℕ) × IsReferral funding_runtime
          (referrer_account referred)
          (77 ∷ [])
          referral
          (20000 / 2000)
        × (referral + rest ≡ 20000)
        × (funded.effects
            ≡ map (λ to. send 3 referral to) (77 ∷ [])
              ++ (if ltb 0 rest then send 3 rest 2 ∷ [] else []))
        × (funded.automation ≡ record automation { balance = 1000 + rest }))
claim_and_fund_moves_example =
    claim_and_fund_moves funding_runtime funding_accounts clock referred automation funded refl refl
      funding_run

-- 1000 are buried while 50 are staked: 30 stay for the stakers
abbrev bury_accounts : Bury.Accounts runtime
bury_accounts = record {
  signer_info = 1;
  board_info = 2;
  config_info = 3;
  mint_info = 4;
  treasury_info = 5;
  treasury_godl_info = 6;
  treasury_sol_info = 7;
  admin_info = 8;
  admin_godl_info = 9;
  warchest_info = 0;
  warchest_godl_info = 0;
  token_program = 10;
  godl_program = 11;
}

abbrev staked : Treasury ℕ
staked = record treasury { total_staked = 32 }

abbrev shared_out : Treasury ℕ
shared_out = record staked { stake_rewards_factor = 826832744087552 }

abbrev burnt : List (Effect ℕ)
burnt = burn 6 970 ∷ []

spread_run : Bury.spread runtime bury_accounts true false 1000 staked ≡ ok (shared_out, burnt)
unfolding Bury.spread Bury.share
spread_run = refl

spread_all_example :
    (removed burnt + 30 ≡ 1000)
    × (units-IsFixedPoint.raw 826832744087552
        ≡ units-IsFixedPoint.raw (2 * one) + 1000 * 3 / 100 * one / 32)
    × (shared_out ≡ record staked { stake_rewards_factor = 826832744087552 })
    × (burnt ≡ burnt)
spread_all_example =
    spread_all runtime units-IsFixedPoint bury_accounts true false 1000 staked shared_out burnt
      spread_run
