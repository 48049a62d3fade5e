-- ===== src/Claim.antt =====
-- program/src/miner/claim_sol.rs and close.rs: a miner is paid the SOL that checkpoints have
-- credited, less the referral; an expired round is closed, and what is left in it is vaulted.
pub mod Payments
pub mod Godl
pub mod Gold
pub mod Tokens
use godl_program.Base.{
  ℕ, ◌+◌, ◌-◌, ◌++◌, Bool, true, false, Option, some, none, List, [], ◌∷◌, Result, ok, err, godl,
  invalid_referrer_account, invalid_instruction_data, not_enough_account_keys, ◌>>=◌, ◌>>◌, ltb,
  ◌==◌, if◌then◌else◌, add_u64, checked_sub,
}
use godl_program.Treasury.{Clock, Treasury}
use godl_program.Miner.{Miner, claim_sol, referrer_account}
use godl_program.Referrer.{Referrer, referral_amount, credit_sol}
use godl_program.Round.{Round}
use godl_program.Runtime.{Steel, Effect, send, close, demand, referrer, pool_round}

module _ {N A : Type 0} (steel : Steel N A) where
  open steel use {
    key, data_is_empty, lamports, is_signer, is_writable, has_address, has_seeds, is_system_program,
    as_board, as_treasury, as_miner, as_round, as_pool_round, as_referrer, round_rent,
    pool_round_rent,
  }

  pub record ClaimSolAccounts : Type 0 where
    pub signer_info : A
    pub miner_info : A
    pub system_program : A
    pub rest : List A

  -- what the instruction writes
  pub record ClaimedSol : Type 0 where
    pub miner : Miner N
    pub referrer_after : Option Referrer
    pub effects : List (Effect A)

  unfoldable pub pay_referrer :
      A → List A → Option ℕ → ℕ → Result (Option Referrer × List (Effect A))
  pay_referrer miner_info [] none amount = ok (none, [])
  pay_referrer miner_info (_ ∷ _) none amount = err (godl invalid_referrer_account)
  pay_referrer miner_info [] (some pubkey) amount = err not_enough_account_keys
  pay_referrer miner_info (_ ∷ _ ∷ _) (some pubkey) amount = err not_enough_account_keys
  pay_referrer miner_info (referrer_info ∷ []) (some pubkey) amount = do
    r ← as_referrer referrer_info
    is_writable referrer_info
    has_address referrer_info pubkey
    has_seeds referrer_info (referrer r.authority)
    r' ← credit_sol r amount
    ok (some r', send miner_info amount referrer_info ∷ [])

  -- `m` has been emptied of `amount`
  unfoldable pub pay_claim : ClaimSolAccounts → Miner N → ℕ → Result ClaimedSol
  pay_claim a m amount = do
    referral ← referral_amount (referrer_account m) amount
    miner_amount ← checked_sub amount referral invalid_instruction_data
    (r, sends) ← pay_referrer a.miner_info a.rest (referrer_account m) referral
    ok (record {
      miner = m;
      referrer_after = r;
      effects =
          sends
          ++ (if ltb 0 miner_amount then send a.miner_info miner_amount a.signer_info ∷ [] else []);
    })

  unfoldable pub process_claim_sol : ClaimSolAccounts → Clock → Result ClaimedSol
  process_claim_sol a clock = do
    is_signer a.signer_info
    m ← as_miner a.miner_info
    demand (m.authority == key a.signer_info)
    is_system_program a.system_program
    let (amount, m') = claim_sol m clock
    pay_claim a m' amount

  pub record CloseAccounts : Type 0 where
    pub signer_info : A
    pub board_info : A
    pub rent_payer_info : A
    pub round_info : A
    pub pool_round_info : A
    pub treasury_info : A
    pub system_program : A

  -- what an account holds beyond its rent goes to the treasury, and the account is closed
  unfoldable pub vault_rest : A → A → A → ℕ → Treasury N → Result (Treasury N × List (Effect A))
  vault_rest account treasury_info rent_payer_info rent t =
      let unclaimed = lamports account - rent in
      if ltb 0 unclaimed
      then (do
        balance ← add_u64 t.balance unclaimed
        ok (
          record t { balance = balance },
          send account unclaimed treasury_info ∷ close account rent_payer_info ∷ [],
        ))
      else ok (t, close account rent_payer_info ∷ [])

  unfoldable pub close_pool_round :
      CloseAccounts → Treasury N → Result (Treasury N × List (Effect A))
  close_pool_round a t = if data_is_empty a.pool_round_info then ok (t, []) else do
    p ← as_pool_round a.pool_round_info
    demand (p.rent_payer == key a.rent_payer_info)
    vault_rest a.pool_round_info a.treasury_info a.rent_payer_info pool_round_rent t

  unfoldable pub vault_round :
      CloseAccounts → Round → Treasury N → Result (Treasury N × List (Effect A))
  vault_round a r t = do
    (t₁, sends) ← vault_rest a.round_info a.treasury_info a.rent_payer_info round_rent t
    is_writable a.pool_round_info
    has_seeds a.pool_round_info (pool_round r.id)
    (t₂, pool_sends) ← close_pool_round a t₁
    ok (t₂, sends ++ pool_sends)

  unfoldable pub process_close : CloseAccounts → Clock → Result (Treasury N × List (Effect A))
  process_close a clock = do
    is_signer a.signer_info
    is_writable a.rent_payer_info
    is_system_program a.system_program
    b ← as_board a.board_info
    t ← as_treasury a.treasury_info
    r ← as_round a.round_info
    demand (ltb r.id b.round_id)
    demand (ltb r.expires_at clock.slot)
    demand (r.rent_payer == key a.rent_payer_info)
    vault_round a r t
