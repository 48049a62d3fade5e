-- ===== src/Tests/Payments.antt =====
-- Claims of SOL, the closing of a round, and positions of the first kind.
use godl_program.Base.{◌++◌, ◌/◌, ◌+◌, map, ltb, if◌then◌else◌}
use godl_program.Base.{ℕ, ◌*◌, ◌≡◌, ok, refl, [], ◌∷◌, some, List}
use godl_program.Base.Int.{pos}
use godl_program.Numeric.{one}
use godl_program.Numeric.Fixed.{units}
use godl_program.Treasury.{Clock, Treasury}
use godl_program.Miner.{Miner, claim_sol, referrer_account}
use godl_program.Referrer.{referral_amount, credit_sol}
use godl_program.Runtime.{Steel, Effect, send, close}
use godl_program.Claim.{
  ClaimSolAccounts, ClaimedSol, pay_referrer, pay_claim, process_claim_sol, CloseAccounts,
  vault_rest, close_pool_round, vault_round, process_close,
}
use godl_program.Claim.Payments.{IsReferral, claim_sol_pays}
use godl_program.Runtime.Flows.{outflow}
use godl_program.Stake.{Stake, deposit, withdraw, update_rewards, accrue}
use godl_program.Tests.Samples
use godl_program.Tests.Samples.{runtime, miner, treasury, clock}

abbrev referred : Miner ℕ
referred = record miner { rewards_sol = 2000; referrer = 77 }

abbrev claim_runtime : Steel ℕ ℕ
claim_runtime = record runtime { as_miner = λ a. ok referred }

abbrev claim_accounts : ClaimSolAccounts claim_runtime
claim_accounts = record { signer_info = 9; miner_info = 3; system_program = 8; rest = 77 ∷ [] }

abbrev claimed : ClaimedSol claim_runtime
claimed = record {
  miner = record referred { rewards_sol = 0; last_claim_sol_at = pos 500 };
  referrer_after =
      some (record Samples.sample_referrer { rewards_sol = 13; cumulative_rewards_sol = 40 });
  effects = send 3 10 77 ∷ send 3 1990 9 ∷ [];
}

claim_sol_run : process_claim_sol claim_runtime claim_accounts clock ≡ ok claimed
unfolding process_claim_sol claim_sol pay_claim referral_amount referrer_account pay_referrer
    credit_sol
claim_sol_run = refl

claim_sol_pays_example :
    (outflow claimed.effects ≡ 2000)
    × (claimed.miner.rewards_sol ≡ 0)
    × ((referral rest : ℕ) × IsReferral claim_runtime
          (referrer_account referred)
          (77 ∷ [])
          referral
          (2000 / 200)
        × (referral + rest ≡ 2000)
        × (claimed.effects
            ≡ map (λ to. send 3 referral to) (77 ∷ [])
              ++ (if ltb 0 rest then send 3 rest 9 ∷ [] else [])))
claim_sol_pays_example =
    claim_sol_pays claim_runtime claim_accounts clock referred claimed refl claim_sol_run

abbrev late : Clock
late = record clock { slot = 2000000 }

abbrev close_accounts : CloseAccounts runtime
close_accounts = record {
  signer_info = 1;
  board_info = 2;
  rent_payer_info = 3;
  round_info = 4;
  pool_round_info = 99;
  treasury_info = 6;
  system_program = 7;
}

abbrev closing_sends : List (Effect ℕ)
closing_sends = send 4 600 6 ∷ close 4 3 ∷ []

close_run :
    process_close runtime close_accounts late
    ≡ ok (record treasury { balance = 670 }, closing_sends)
unfolding process_close vault_round vault_rest close_pool_round
close_run = refl

abbrev first_kind : Stake ℕ
first_kind = record {
  authority = 5;
  balance = 100;
  last_claim_at = pos 0;
  last_deposit_at = pos 0;
  last_withdraw_at = pos 0;
  rewards_factor = one;
  rewards = 7;
  lifetime_rewards = 7;
  is_seeker = 0;
}

abbrev staked : Treasury ℕ
staked = record treasury { total_staked = 100 }

abbrev settled_first : Stake ℕ
settled_first = record first_kind {
  rewards_factor = 2 * one;
  rewards = 107;
  lifetime_rewards = 107;
}

stake_deposit_run :
    deposit first_kind 40 clock staked 30
    ≡ ok (
      30,
      record settled_first { balance = 130; last_deposit_at = pos 500 },
      record staked { total_staked = 130 },
    )
unfolding deposit update_rewards accrue
stake_deposit_run = refl

stake_withdraw_run :
    withdraw first_kind 400 clock staked
    ≡ ok (
      100,
      record settled_first { balance = 0; last_withdraw_at = pos 500 },
      record staked { total_staked = 0 },
    )
unfolding withdraw update_rewards accrue
stake_withdraw_run = refl
