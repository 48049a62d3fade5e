-- ===== src/Claim/Godl.antt =====
-- program/src/miner/claim_godl.rs and inject_godl_motherlode.rs: a miner claims its GODL, less the
-- referral; GODL is added to the motherlode.
use godl_program.Base.{
  ℕ, ◌++◌, Option, some, none, List, [], ◌∷◌, Result, ok, err, godl, invalid_referrer_account,
  invalid_instruction_data, not_enough_account_keys, amount_too_small, arithmetic_overflow, ◌>>=◌,
  ◌>>◌, reject, ltb, ◌==◌, if◌then◌else◌, checked_sub, checked_add,
}
use godl_program.Consts.{mint_address}
use godl_program.Numeric.{Numeric}
use godl_program.Treasury.{Clock, Treasury}
use godl_program.Miner.{Miner, claim_godl, referrer_account}
use godl_program.Gold.{GoldVault, MinerExtended}
use godl_program.Referrer.{Referrer, referral_amount, credit_godl}
use godl_program.Extended.{load_or_create_miner_extended, sync_gold_rewards}
use godl_program.Runtime.{
  Steel, Effect, transfer, open_tokens, demand, gold_vault, referrer, treasury,
}

module _ {N A : Type 0} ⦃num : Numeric N⦄ (steel : Steel N A) where
  open steel use {
    key, data_is_empty, is_signer, is_writable, has_address, has_seeds, is_system_program,
    is_token_program, is_associated_token_program, as_miner, as_mint, as_tokens, as_treasury,
    as_gold_vault, as_referrer,
  }

  pub record ClaimGodlAccounts : Type 0 where
    pub signer_info : A
    pub miner_info : A
    pub mint_info : A
    pub recipient_info : A
    pub treasury_info : A
    pub treasury_tokens_info : A
    pub system_program : A
    pub token_program : A
    pub associated_token_program : A
    pub gold_vault_info : A
    pub miner_extended_info : A
    pub rest : List A

  -- what the instruction writes
  pub record ClaimedGodl : Type 0 where
    pub miner_after : Miner N
    pub treasury_after : Treasury N
    pub extended : Option (MinerExtended N)
    pub referrer_after : Option Referrer
    pub effects : List (Effect A)

  unfoldable pub load_recipient : ClaimGodlAccounts → Result (List (Effect A))
  load_recipient a =
      if data_is_empty a.recipient_info
      then ok (open_tokens a.recipient_info a.signer_info ∷ [])
      else (do _ ← as_tokens a.recipient_info (key a.signer_info); ok [])

  unfoldable pub pay_referrer_godl :
      A → List A → Option ℕ → ℕ → Result (Option Referrer × List (Effect A))
  pay_referrer_godl tokens [] none amount = ok (none, [])
  pay_referrer_godl tokens (_ ∷ _) none amount = err (godl invalid_referrer_account)
  pay_referrer_godl tokens [] (some pubkey) amount = err not_enough_account_keys
  pay_referrer_godl tokens (_ ∷ []) (some pubkey) amount = err not_enough_account_keys
  pay_referrer_godl tokens (_ ∷ _ ∷ _ ∷ _) (some pubkey) amount = err not_enough_account_keys
  pay_referrer_godl tokens (referrer_info ∷ referrer_tokens_info ∷ []) (some pubkey) amount = do
    r ← as_referrer referrer_info
    is_writable referrer_info
    has_address referrer_info pubkey
    has_seeds referrer_info (referrer r.authority)
    is_writable referrer_tokens_info
    _ ← as_tokens referrer_tokens_info (key referrer_info)
    r' ← credit_godl r amount
    ok (some r', transfer tokens referrer_tokens_info amount ∷ [])

  -- the claim, on the states that have been loaded, and its payment
  unfoldable pub pay_godl : ClaimGodlAccounts → Clock → Miner N → Treasury N → Result ClaimedGodl
  pay_godl a clock m t = do
    (amount, m', t') ← claim_godl m clock t
    referral ← referral_amount (referrer_account m') amount
    miner_amount ← checked_sub amount referral invalid_instruction_data
    (r, transfers) ← pay_referrer_godl a.treasury_tokens_info a.rest (referrer_account m') referral
    ok (record {
      miner_after = m';
      treasury_after = t';
      extended = none;
      referrer_after = r;
      effects =
          transfers
          ++ (if ltb 0 miner_amount
              then transfer a.treasury_tokens_info a.recipient_info miner_amount ∷ []
              else []);
    })

  -- the checks and loads that the instruction starts with
  unfoldable pub load_claim : ClaimGodlAccounts → Result (Miner N × Treasury N × GoldVault N)
  load_claim a = do
    is_signer a.signer_info
    m ← as_miner a.miner_info
    demand (m.authority == key a.signer_info)
    has_address a.mint_info mint_address
    _ ← as_mint a.mint_info
    is_writable a.recipient_info
    t ← as_treasury a.treasury_info
    _ ← as_tokens a.treasury_tokens_info (key a.treasury_info)
    is_system_program a.system_program
    is_token_program a.token_program
    is_associated_token_program a.associated_token_program
    has_seeds a.gold_vault_info gold_vault
    vault ← as_gold_vault a.gold_vault_info
    ok (m, t, vault)

  -- the rest, on the states that have been loaded
  unfoldable pub claim_loaded :
      ClaimGodlAccounts → Clock → Miner N → Treasury N → GoldVault N → Result ClaimedGodl
  claim_loaded a clock m t vault = do
    (extended, created) ←
        load_or_create_miner_extended steel a.miner_extended_info vault m.authority a.signer_info
          (ltb 0 m.rewards_godl)
    opened ← load_recipient a
    extended' ← sync_gold_rewards extended vault m
    r ← pay_godl a clock m t
    ok (record r { extended = extended'; effects = created ++ (opened ++ r.effects) })

  unfoldable pub process_claim_godl : ClaimGodlAccounts → Clock → Result ClaimedGodl
  process_claim_godl a clock = do (m, t, vault) ← load_claim a; claim_loaded a clock m t vault

  pub record InjectAccounts : Type 0 where
    pub signer_info : A
    pub treasury_info : A
    pub signer_tokens_info : A
    pub treasury_tokens_info : A
    pub token_program : A

  unfoldable pub process_inject_godl_motherlode :
      InjectAccounts → ℕ → Result (Treasury N × List (Effect A))
  process_inject_godl_motherlode a amount = do
    is_signer a.signer_info
    is_writable a.treasury_info
    has_seeds a.treasury_info treasury
    t ← as_treasury a.treasury_info
    is_writable a.signer_tokens_info
    _ ← as_tokens a.signer_tokens_info (key a.signer_info)
    is_writable a.treasury_tokens_info
    _ ← as_tokens a.treasury_tokens_info (key a.treasury_info)
    is_token_program a.token_program
    reject (amount == 0) (godl amount_too_small)
    motherlode ← checked_add t.motherlode amount arithmetic_overflow
    ok (
      record t { motherlode = motherlode },
      transfer a.signer_tokens_info a.treasury_tokens_info amount ∷ [],
    )
