-- ===== src/Tests/Referrals.antt =====
-- A referrer's choice and pay.
use godl_program.Base.{ℕ, ◌+◌, ◌≡◌, ◌≢◌, ◌==◌, if◌then◌else◌, refl, arith, some, none, [], ◌∷◌, ok}
use godl_program.Numeric.Fixed.{units}
use godl_program.Miner.{Miner, default_key, referrer_locked_sentinel}
use godl_program.Referrer.{Referrer, credit_sol}
use godl_program.Referral.{
  Accounts, opened_referrer, check_programs, open_tokens_of, process_initialize_referrer,
  count_referral, choose_first, choose_referrer, pay_out, load_referrer, process_claim_referral,
}
use godl_program.Referral.Chosen.{choice_final}
use godl_program.Referral.Paid.{Referred, opens, earns_sol, claims, Referred-cumulative}
use godl_program.Runtime.{Steel, demand, create, send, referrer}
use godl_program.Tests.Samples.{runtime, miner, sample_referrer}

abbrev strict : Steel ℕ ℕ
strict = record runtime { has_address = λ a k. demand (a == k) }

strict-key : (info k : ℕ) → strict.has_address info k ≡ ok tt → strict.key info ≡ k
strict-key info k h = ground arith

abbrev referred : Miner ℕ
referred = record miner { referrer = 77 }

abbrev counted : Referrer
counted = record sample_referrer { referrer_count = 2 }

choice_run : choose_referrer strict 77 (77 ∷ []) miner ≡ ok (referred, some counted)
unfolding choose_referrer choose_first count_referral
choice_run = refl

choice_final_example :
    (77 ≢ default_key)
    × (77 ≡ (if 77 == default_key then referrer_locked_sentinel else 77))
    × (choose_referrer strict 0 [] referred ≡ ok (referred, none))
    × ((r : Referrer) → some counted ≡ some r → r.authority ≢ 9)
choice_final_example =
    choice_final strict strict-key 77 0 (77 ∷ []) [] miner referred (some counted) refl choice_run

-- a referrer's account is opened, earns, and is paid
abbrev paying : Referrer → Steel ℕ ℕ
paying r = record runtime { as_referrer = λ a. ok r }

abbrev accounts : (r : Referrer) → Accounts (paying r)
accounts r = record {
  authority_info = 44;
  miner_info = 2;
  referrer_info = 3;
  referrer_tokens_info = 4;
  authority_tokens_info = 5;
  mint_info = 6;
  system_program = 7;
  token_program = 8;
  associated_token_program = 9;
}

abbrev new : Referrer
new = opened_referrer runtime 44

abbrev earned : Referrer
earned = record new { rewards_sol = 30; cumulative_rewards_sol = 30 }

abbrev paid : Referrer
paid = record earned { rewards_sol = 0 }

is_open : Referred ℕ ℕ new 0 0
unfolding process_initialize_referrer check_programs open_tokens_of
is_open = opens (paying new) (accounts new) new (create 3 (referrer 44) 44 ∷ []) refl

has_earned : Referred ℕ ℕ earned 0 0
unfolding credit_sol
has_earned = earns_sol 30 new earned 0 0 refl is_open

is_paid : Referred ℕ ℕ paid 30 0
unfolding process_claim_referral load_referrer check_programs open_tokens_of pay_out
is_paid =
    claims (paying earned) (accounts earned) earned paid (send 3 30 44 ∷ []) 0 0 refl refl
      has_earned

Referred-cumulative_example : (0 + 30 ≡ 30) × (0 + 0 ≡ 0)
Referred-cumulative_example = Referred-cumulative ℕ ℕ paid 30 0 is_paid
