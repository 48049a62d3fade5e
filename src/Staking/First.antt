-- ===== src/Staking/First.antt =====
-- program/src/stake/withdraw.rs and claim_yield.rs: what is left to do with positions of the first kind.
use godl_program.Base.{ℕ, List, [], ◌∷◌, ◌++◌, Result, ok, panic, ◌>>=◌, ◌>>◌, require, leb, ◌==◌}
use godl_program.Numeric.{Numeric}
use godl_program.Treasury.{Clock, Treasury}
use godl_program.Stake.{Stake, claim, withdraw}
use godl_program.Runtime.{Steel, Effect, transfer, demand, stake}
use godl_program.Staking.{Accounts, check_mint, check_programs, open_recipient, spent}

module _ {N A : Type 0} ⦃num : Numeric N⦄ (steel : Steel N A) where
  open steel use {key, is_signer, is_writable, has_seeds, as_stake, as_tokens, as_treasury}

  unfoldable pub load_first : Accounts steel → Result (Stake N)
  load_first a = do
    has_seeds a.stake_info (stake (key a.signer_info))
    s ← as_stake a.stake_info
    demand (s.authority == key a.signer_info)
    ok s

  -- the withdrawal from a position that has been loaded
  unfoldable pub withdraw_first :
      Accounts steel
      → Clock
      → ℕ
      → ℕ
      → Stake N
      → Treasury N
      → Result (Stake N × Treasury N × List (Effect A))
  withdraw_first a clock amount held s t = do
    opened ← open_recipient steel a
    (taken, s', t') ← withdraw s amount clock t
    vault ← spent held taken
    require (leb s'.balance vault) panic
    ok (s', t', opened ++ (transfer a.stake_tokens_info a.recipient_info taken ∷ []))

  unfoldable pub process_withdraw :
      Accounts steel → Clock → ℕ → Result (Stake N × Treasury N × List (Effect A))
  process_withdraw a clock amount = do
    is_signer a.signer_info
    _ ← check_mint steel a.mint_info
    is_writable a.recipient_info
    s ← load_first a
    held ← as_tokens a.stake_tokens_info (key a.stake_info)
    t ← as_treasury a.treasury_info
    check_programs steel a
    withdraw_first a clock amount held s t

  unfoldable pub process_claim_yield :
      Accounts steel → Clock → ℕ → Result (Stake N × List (Effect A))
  process_claim_yield a clock amount = do
    is_signer a.signer_info
    _ ← check_mint steel a.mint_info
    is_writable a.recipient_info
    s ← load_first a
    t ← as_treasury a.treasury_info
    is_writable a.treasury_tokens_info
    _ ← as_tokens a.treasury_tokens_info (key a.treasury_info)
    check_programs steel a
    opened ← open_recipient steel a
    (paid, s') ← claim s amount clock t
    ok (s', opened ++ (transfer a.treasury_tokens_info a.recipient_info paid ∷ []))
