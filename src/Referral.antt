-- ===== src/Referral.antt =====
-- program/src/referral: a referrer's account is opened, a miner chooses a referrer, and the referrer
-- is paid what claims have credited.
pub mod Chosen
pub mod Paid
use godl_program.Base.{
  ℕ, ◌++◌, ◌&&◌, List, [], ◌∷◌, Option, some, none, Result, ok, err, godl, not_authorized,
  invalid_referrer_account, not_enough_account_keys, invalid_argument, ◌>>=◌, ◌>>◌, require, reject,
  ltb, ◌==◌, if◌then◌else◌, checked_add, replicate,
}
use godl_program.Consts.{mint_address}
use godl_program.Miner.{Miner, default_key, referrer_locked_sentinel}
use godl_program.Referrer.{Referrer}
use godl_program.Runtime.{Steel, Effect, create, transfer, send, open_tokens, referrer}

module _ {N A : Type 0} (steel : Steel N A) where
  open steel use {
    key, data_is_empty, is_signer, is_writable, is_empty, has_address, has_seeds, is_system_program,
    is_token_program, is_associated_token_program, as_mint, as_tokens, as_miner, as_referrer,
  }

  -- each instruction is given some of these
  pub record Accounts : Type 0 where
    pub authority_info : A
    pub miner_info : A
    pub referrer_info : A
    pub referrer_tokens_info : A
    pub authority_tokens_info : A
    pub mint_info : A
    pub system_program : A
    pub token_program : A
    pub associated_token_program : A

  unfoldable pub check_programs : Accounts → Result (Unit {0})
  check_programs a = do
    has_address a.mint_info mint_address
    _ ← as_mint a.mint_info
    is_system_program a.system_program
    is_token_program a.token_program
    is_associated_token_program a.associated_token_program

  abbrev pub opened_referrer : ℕ → Referrer
  opened_referrer authority = record {
    authority = authority;
    rewards_sol = 0;
    rewards_godl = 0;
    cumulative_rewards_sol = 0;
    cumulative_rewards_godl = 0;
    referrer_count = 0;
  }

  -- open the owner's token account, at the authority's cost, or check it
  unfoldable pub open_tokens_of : Accounts → A → A → Result (List (Effect A))
  open_tokens_of a tokens_info owner_info =
      if data_is_empty tokens_info
      then ok (open_tokens tokens_info owner_info ∷ [])
      else (do _ ← as_tokens tokens_info (key owner_info); ok [])

  unfoldable pub process_initialize_referrer : Accounts → Result (Referrer × List (Effect A))
  process_initialize_referrer a = do
    is_signer a.authority_info
    is_writable a.referrer_info
    is_writable a.referrer_tokens_info
    is_empty a.referrer_info
    has_seeds a.referrer_info (referrer (key a.authority_info))
    check_programs a
    opened ← open_tokens_of a a.referrer_tokens_info a.referrer_info
    ok (
      opened_referrer (key a.authority_info),
      create a.referrer_info (referrer (key a.authority_info)) a.authority_info ∷ opened,
    )

  -- the referrer's account, if it is given and may refer the miner, with one more referred
  unfoldable pub count_referral : ℕ → List A → Miner N → Result (ℕ × Referrer)
  count_referral desired (referrer_info ∷ []) m = do
    r ← as_referrer referrer_info
    is_writable referrer_info
    has_address referrer_info desired
    has_seeds referrer_info (referrer r.authority)
    reject (r.authority == m.authority) (godl invalid_referrer_account)
    count ← checked_add r.referrer_count 1 invalid_argument
    ok (key referrer_info, record r { referrer_count = count })
  count_referral _ _ _ = err not_enough_account_keys

  -- a first choice: a referrer, or none for good
  unfoldable pub choose_first : ℕ → List A → Miner N → Result (Miner N × Option Referrer)
  choose_first desired rest m =
      if desired == default_key
      then ok (record m { referrer = referrer_locked_sentinel }, none)
      else (do
        reject (desired == referrer_locked_sentinel) (godl invalid_referrer_account)
        (chosen, r) ← count_referral desired rest m
        ok (record m { referrer = chosen }, some r))

  -- a choice is made once
  unfoldable pub choose_referrer : ℕ → List A → Miner N → Result (Miner N × Option Referrer)
  choose_referrer desired rest m =
      if m.referrer == default_key then choose_first desired rest m else ok (m, none)

  unfoldable pub process_set_referrer : ℕ → List A → Result (Miner N × Option Referrer)
  process_set_referrer desired (authority_info ∷ miner_info ∷ rest) = do
    is_signer authority_info
    m ← as_miner miner_info
    require (m.authority == key authority_info) (godl not_authorized)
    choose_referrer desired rest m
  process_set_referrer _ _ = err not_enough_account_keys

  -- what has been credited is paid out
  unfoldable pub pay_out : Accounts → Referrer → Referrer × List (Effect A)
  pay_out a r = if r.rewards_godl == 0 && r.rewards_sol == 0 then (r, []) else (
    record r { rewards_sol = 0; rewards_godl = 0 },
    (if ltb 0 r.rewards_godl
          then transfer a.referrer_tokens_info a.authority_tokens_info r.rewards_godl ∷ []
          else [])
        ++ (if ltb 0 r.rewards_sol
            then send a.referrer_info r.rewards_sol a.authority_info ∷ []
            else []),
  )

  unfoldable pub load_referrer : Accounts → Result Referrer
  load_referrer a = do
    is_signer a.authority_info
    is_writable a.referrer_info
    is_writable a.referrer_tokens_info
    is_writable a.authority_tokens_info
    check_programs a
    has_seeds a.referrer_info (referrer (key a.authority_info))
    r ← as_referrer a.referrer_info
    require (r.authority == key a.authority_info) (godl not_authorized)
    _ ← as_tokens a.referrer_tokens_info (key a.referrer_info)
    ok r

  unfoldable pub process_claim_referral : Accounts → Result (Referrer × List (Effect A))
  process_claim_referral a = do
    r ← load_referrer a
    opened ← open_tokens_of a a.authority_tokens_info a.authority_info
    let (r', es) = pay_out a r
    ok (r', opened ++ es)
