-- ===== src/Staking.antt =====
-- What the staking instructions of program/src/stake_v2 share: their accounts, and what they write.
pub mod Deposits
pub mod Withdrawals
pub mod Merge
pub mod Upkeep
pub mod Nfts
pub mod First
pub mod Weights
pub mod Totals
pub mod Lifecycle
pub mod Locks
pub mod Terms
pub mod Backing
use godl_program.Base.{
  ℕ, List, [], ◌∷◌, Result, ok, external, ◌>>=◌, ◌>>◌, if◌then◌else◌, ◌==◌, checked_add,
  checked_sub,
}
use godl_program.Consts.{mint_address}
use godl_program.Treasury.{Treasury}
use godl_program.StakeV2.{StakeV2}
use godl_program.Runtime.{Steel, Effect, open_tokens, demand}

-- What a token account holds after a transfer, which the token program refuses if the sum does not
-- fit a u64 or the account holds too little.
abbrev pub received : ℕ → ℕ → Result ℕ
received held amount = checked_add held amount external

abbrev pub spent : ℕ → ℕ → Result ℕ
spent held amount = checked_sub held amount external

module _ {N A : Type 0} (steel : Steel N A) where
  open steel use {
    key, data_is_empty, has_address, is_system_program, is_token_program,
    is_associated_token_program, as_mint, as_tokens, as_stake_v2,
  }

  -- each instruction is given some of these
  pub record Accounts : Type 0 where
    pub signer_info : A
    pub config_info : A
    pub mint_info : A
    pub sender_info : A
    pub recipient_info : A
    pub stake_info : A
    pub stake_tokens_info : A
    pub treasury_info : A
    pub treasury_tokens_info : A
    pub executor_info : A
    pub system_program : A
    pub token_program : A
    pub associated_token_program : A

  -- what an instruction writes: the position, the treasury, what the position's token account holds
  -- at the end, and the calls
  pub record Staked : Type 0 where
    pub stake_after : StakeV2 N
    pub treasury_after : Treasury N
    pub vault : ℕ
    pub effects : List (Effect A)

  unfoldable pub check_mint : A → Result ℕ
  check_mint mint_info = do has_address mint_info mint_address; as_mint mint_info

  unfoldable pub check_programs : Accounts → Result (Unit {0})
  check_programs a = do
    is_system_program a.system_program
    is_token_program a.token_program
    is_associated_token_program a.associated_token_program

  unfoldable pub load_stake : Accounts → ℕ → Result (StakeV2 N)
  load_stake a id = do
    s ← as_stake_v2 a.stake_info
    demand (s.authority == key a.signer_info)
    demand (s.id == id)
    ok s

  -- open the recipient's token account, or check it
  unfoldable pub open_recipient : Accounts → Result (List (Effect A))
  open_recipient a =
      if data_is_empty a.recipient_info
      then ok (open_tokens a.recipient_info a.signer_info ∷ [])
      else (do _ ← as_tokens a.recipient_info (key a.signer_info); ok [])
