-- ===== src/Runtime.antt =====
-- The Solana runtime and the `steel` library as the handlers call them: `A` is the type of account
-- handles. The checks return their own errors; loading an account gives its state, checked for
-- owner and discriminant. A handler gives back the states that it wrote and, in order, the calls
-- that it makes of the runtime. If one of those fails the whole instruction is undone.
pub mod Flows
use godl_program.Base.{ℕ, Bool, List, Result, external, require}
use godl_program.Treasury.{Treasury}
use godl_program.Miner.{Miner}
use godl_program.Gold.{GoldVault, MinerExtended, SolMotherlode}
use godl_program.Round.{Board, Config, Round}
use godl_program.Automation.{AutomationV2}
use godl_program.Referrer.{Referrer}
use godl_program.Otc.{OtcTreasury, OtcUser}
use godl_program.Pool.{PoolMember, PoolRound}
use godl_program.Stake.{Stake}
use godl_program.StakeV2.{StakeV2}

-- the seeds of the program's derived addresses
pub data Seeds : Type 0 where
  board config treasury sol_motherlode gold_vault otc_treasury : Seeds
  miner pool_member miner_extended automation_v2 referrer stake otc_user : ℕ → Seeds
  -- the authority and the position's id
  stake_v2 : ℕ → ℕ → Seeds
  round pool_round : ℕ → Seeds

-- the entropy program's `Var`
pub record Var : Type 0 where
  pub authority : ℕ
  pub samples : ℕ
  pub slot_hash : List ℕ
  pub seed : List ℕ
  pub value : List ℕ

pub record Steel (N A : Type 0) : Type 0 where
  pub key : A → ℕ
  pub data_is_empty : A → Bool
  pub lamports : A → ℕ
  pub is_signer : A → Result (Unit {0})
  pub is_writable : A → Result (Unit {0})
  pub is_empty : A → Result (Unit {0})
  pub has_address : A → ℕ → Result (Unit {0})
  pub has_seeds : A → Seeds → Result (Unit {0})
  pub is_system_program : A → Result (Unit {0})
  pub is_token_program : A → Result (Unit {0})
  pub is_associated_token_program : A → Result (Unit {0})
  pub is_godl_program : A → Result (Unit {0})
  pub is_entropy_program : A → Result (Unit {0})
  pub is_executable : A → Result (Unit {0})
  -- `has_owner` of the program itself
  pub has_owner : A → Result (Unit {0})
  pub data_len : A → ℕ
  pub is_mint_program : A → Result (Unit {0})
  pub is_slot_hashes : A → Result (Unit {0})
  pub as_board : A → Result Board
  pub as_config : A → Result Config
  -- the config's account once it has been grown to the current layout
  pub as_grown_config : A → Result Config
  pub as_treasury : A → Result (Treasury N)
  pub as_miner : A → Result (Miner N)
  pub as_miner_extended : A → Result (MinerExtended N)
  pub as_gold_vault : A → Result (GoldVault N)
  pub as_sol_motherlode : A → Result SolMotherlode
  pub as_round : A → Result Round
  pub as_pool_member : A → Result PoolMember
  pub as_pool_round : A → Result PoolRound
  pub as_var : A → Result Var
  pub as_referrer : A → Result Referrer
  pub as_automation : A → Result AutomationV2
  pub as_otc_treasury : A → Result OtcTreasury
  pub as_otc_user : A → Result OtcUser
  pub as_stake : A → Result (Stake N)
  pub as_stake_v2 : A → Result (StakeV2 N)
  pub is_mint_authority : A → Result (Unit {0})
  -- keccak of a key's bytes and a u64's, as a list of bytes
  pub hashv : ℕ → ℕ → List ℕ
  -- the supply of a mint account
  pub as_mint : A → Result ℕ
  -- the token account of an owner, at the program's mint, and its amount
  pub as_tokens : A → ℕ → Result ℕ
  -- the same at the mint of XAUt0, and of wrapped SOL, once synchronized with its lamports
  pub as_xaut : A → ℕ → Result ℕ
  pub as_wsol : A → ℕ → Result ℕ
  -- the addresses of a position and of an owner's token account
  pub stake_v2_pda : ℕ → ℕ → ℕ
  pub associated_token_address : ℕ → ℕ
  -- `Rent::minimum_balance` of the size of the struct `Treasury`, which is 8 bytes less than its
  -- account's
  pub treasury_struct_rent : ℕ
  -- `Rent::minimum_balance` of the sizes of these accounts
  pub miner_rent : ℕ
  pub round_rent : ℕ
  pub pool_round_rent : ℕ
  pub config_rent : ℕ
  pub sol_motherlode_rent : ℕ

-- `assert(..)?` and `assert_mut(..)?` of steel
abbrev pub demand : Bool → Result (Unit {0})
demand b = require b external

-- what a handler asks of the runtime
pub data Effect (A : Type 0) : Type 0 where
  -- `from.send(amount, to)`: move lamports out of an account of the program
  send : A → ℕ → A → Effect A
  -- `to.collect(amount, payer)`: a system transfer
  collect : A → ℕ → A → Effect A
  -- `create_program_account`, with the payer
  create : A → Seeds → A → Effect A
  -- `account.close(to)`
  close : A → A → Effect A
  -- the entropy program's `next`, with the slot that it is to sample
  next_var : A → A → ℕ → Effect A
  -- the mint program's `mint_godl`, signed by the treasury
  mint_godl : ℕ → Effect A
  -- the token program's transfer between two token accounts, and its burn
  transfer : A → A → ℕ → Effect A
  burn : A → ℕ → Effect A
  -- a token account is created, for an owner, or closed, its rent going to an account
  open_tokens : A → A → Effect A
  close_tokens : A → A → Effect A
  -- the Metaplex Core program's transfer of an asset from its owner to a new one
  move_nft : A → A → A → Effect A
  -- a wrapped-SOL account is synchronized
  sync_native : A → Effect A
  -- the configured swap program is invoked, signed by the gold vault
  swap : ℕ → A → Effect A
  -- an account is grown to a length
  resize : A → ℕ → Effect A
  -- the token program hands the authority to mint over, from one account to another
  set_mint_authority : A → A → A → Effect A
  -- the entropy program's `open`: a board, the payer, an id, the provider, the commitment, the
  -- number of samples and the slot at which it ends
  open_var : A → A → ℕ → A → List ℕ → ℕ → ℕ → Effect A
