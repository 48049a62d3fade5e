-- ===== src/Reset.antt =====
-- program/src/miner/reset.rs and reset_permissionless.rs: a round is closed with the random number
-- of the entropy program, its SOL is divided, GODL is minted, and the next round opens. Events are
-- logged only and are left out.
mod Parts
pub mod Shares
pub mod Coverage
pub mod Books
pub mod Outflow
use godl_program.Base.{
  ℕ, ◌+◌, ◌-◌, ◌*◌, ◌/◌, ◌<◌, min, Bool, true, false, ◌&&◌, ◌||◌, not, Option, some, none, List, [],
  ◌∷◌, ◌++◌, Result, ok, err, panic, invalid_instruction_data, not_enough_account_keys, ◌>>=◌, ◌>>◌,
  require, ltb, leb, ◌==◌, if◌then◌else◌, add_u64, sub_u64, checked_add, checked_sub, checked_mul,
  u64_max, get_or, replicate, saturating_add,
}
use godl_program.Consts.{
  admin_fee_bps, sol_motherlode_bps, denominator_bps, split_address, pool_address, max_supply,
  crank_bot, rush_sol_vault, mint_address, crank_reward_lamports,
}
use godl_program.Numeric.{Numeric}
use godl_program.Treasury.{Clock, Treasury}
use godl_program.Miner.{Miner, default_key}
use godl_program.Gold.{SolMotherlode}
use godl_program.Round.{
  Board, Config, Round, rng, winning_square, top_miner_sample, calculate_total_winnings,
  is_split_reward, did_hit_motherlode, intermission_slots, all_equal,
}
use godl_program.Pool.{PoolMember, PoolRound}
use godl_program.Runtime.{
  Steel, Effect, Seeds, Var, send, create, mint_godl, demand, round, pool_member, pool_round,
  sol_motherlode,
}
unfoldable pub use Parts.*

module _ {N A : Type 0} (steel : Steel N A) where
  open steel use {
    key, data_is_empty, is_signer, is_writable, is_empty, has_address, has_seeds, is_system_program,
    is_token_program, is_godl_program, is_entropy_program, is_mint_program, is_slot_hashes,
    is_mint_authority, as_board, as_config, as_treasury, as_miner, as_sol_motherlode, as_round,
    as_pool_member, as_mint, as_tokens, as_var,
  }

  pub record Accounts : Type 0 where
    pub signer_info : A
    pub board_info : A
    pub config_info : A
    pub fee_collector_info : A
    pub mint_info : A
    pub round_info : A
    pub round_next_info : A
    pub pool_round_next_info : A
    pub top_miner_info : A
    pub top_miner_pool_member_info : A
    pub sol_motherlode_info : A
    pub rush_sol_vault_info : A
    pub treasury_info : A
    pub treasury_tokens_info : A
    pub system_program : A
    pub token_program : A
    pub godl_program : A
    pub slot_hashes_sysvar : A
    pub var_info : A
    pub entropy_program : A
    -- the two mint accounts, if they are given
    pub mint_accounts : Option (A × A)

  -- what the instruction writes
  pub record Closed : Type 0 where
    pub board : Board
    pub round_after : Round
    pub round_next : Round
    pub pool_round_next : PoolRound
    pub treasury : Treasury N
    pub motherlode : SolMotherlode
    pub effects : List (Effect A)

  abbrev advanced : Board → ℕ → Clock → Board
  advanced b id clock = record b { round_id = id; start_slot = clock.slot; end_slot = u64_max }

  -- `process_reset`: a missing or wrong candidate leaves the round solo
  unfoldable pub top_miner_lenient : Accounts → Round → ℕ → ℕ → Result Round
  top_miner_lenient a r random square =
      if data_is_empty a.top_miner_info || data_is_empty a.top_miner_pool_member_info
      then ok r
      else do
        candidate ← as_miner a.top_miner_info
        demand (candidate.round_id == r.id)
        p ← as_pool_member a.top_miner_pool_member_info
        demand (p.authority == candidate.authority)
        demand (p.round_id == r.id)
        if ltb 0 (get_or candidate.deployed square 0) && ltb 0 (get_or p.deployed square 0)
            then (do
              won ← in_range r candidate random square
              ok (if won then record r { top_miner = pool_address } else r))
            else ok r

  -- `process_reset_permissionless`: the candidate must be the winner
  unfoldable pub top_miner_strict : Accounts → Round → ℕ → ℕ → Result Round
  top_miner_strict a r random square = do
    candidate ← as_miner a.top_miner_info
    demand (candidate.round_id == r.id)
    has_seeds a.top_miner_pool_member_info (pool_member candidate.authority)
    won ← in_range r candidate random square
    require (ltb 0 (get_or candidate.deployed square 0) && won) invalid_instruction_data
    if data_is_empty a.top_miner_pool_member_info then ok r else (do
      p ← as_pool_member a.top_miner_pool_member_info
      demand (p.authority == candidate.authority)
      ok (
          if p.round_id == r.id && ltb 0 (get_or p.deployed square 0)
          then record r { top_miner = pool_address }
          else r))

  -- who gets the admin fee: the fee collector, less what goes to whoever calls
  unfoldable pub fees_lenient : Accounts → ℕ → List (Effect A)
  fees_lenient a total = send a.round_info total a.fee_collector_info ∷ []

  unfoldable pub fees_strict : Accounts → ℕ → List (Effect A)
  fees_strict a total =
      let crank_reward = min crank_reward_lamports total in
      send a.round_info (total - crank_reward) a.fee_collector_info
      ∷ send a.round_info crank_reward a.signer_info
      ∷ []

  -- nobody deployed on the winning square: all but the fees is vaulted
  unfoldable pub vault_all :
      Accounts
      → (ℕ → List (Effect A))
      → Round
      → Treasury N
      → SolMotherlode
      → (admin_fee lode : ℕ) → Result (Round × Treasury N × SolMotherlode × List (Effect A))
  vault_all a fee_sends r t s admin_fee lode = do
    rest ← sub_u64 r.total_deployed admin_fee
    vaulted ← sub_u64 rest lode
    balance ← add_u64 t.balance vaulted
    amount ← add_u64 s.amount lode
    ok (
      record r { total_vaulted = vaulted },
      record t { balance = balance },
      record s { amount = amount },
      fee_sends admin_fee
          ++ (send a.round_info lode a.sol_motherlode_info
              ∷ send a.round_info vaulted a.treasury_info
              ∷ []),
    )

  -- the SOL of the losing squares, with the check that the round can pay
  unfoldable pub divide_round : Round → Treasury N → ℕ → Result (Division × Round × Treasury N)
  divide_round r t square = do
    losing ← calculate_total_winnings r square
    d ← divide losing
    balance ← add_u64 t.balance d.vault
    out₁ ← add_u64 d.vault d.winnings
    out₂ ← add_u64 out₁ (get_or r.deployed square 0)
    out₃ ← add_u64 out₂ d.fees
    require (leb out₃ r.total_deployed) panic
    ok (
      d,
      record r { total_winnings = d.winnings; total_vaulted = d.vault },
      record t { balance = balance },
    )

  unfoldable pub mint_new : Accounts → ℕ → Result (List (Effect A))
  mint_new a total = if total == 0 then ok [] else do
    (authority_info, mint_program) ← mint_pair a.mint_accounts
    is_mint_authority authority_info
    is_mint_program mint_program
    ok (mint_godl total ∷ [])

  -- with 1 in 2 odds the GODL reward is split
  unfoldable pub name_top : (Round → ℕ → ℕ → Result Round) → Round → ℕ → ℕ → Result Round
  name_top top r random square =
      if is_split_reward random
      then ok (record r { top_miner = split_address })
      else top r random square

  -- the motherlode, the mint and the transfers
  unfoldable pub pay_division :
      Accounts
      → (ℕ → List (Effect A))
      → Division
      → Round
      → Treasury N
      → SolMotherlode
      → (random lode_mint total_mint admin_fee lode : ℕ)
      → Result (Round × Treasury N × SolMotherlode × List (Effect A))
  pay_division a fee_sends d r t s random lode_mint total_mint admin_fee lode = do
    let (r', t') = pay_motherlode r t random
    pool ← add_u64 t'.motherlode lode_mint
    minted ← mint_new a total_mint
    amount ← add_u64 s.amount lode
    ok (
      r',
      record t' { motherlode = pool },
      record s { amount = amount },
      minted
          ++ ((if ltb 0 lode then send a.round_info lode a.sol_motherlode_info ∷ [] else [])
              ++ (fee_sends admin_fee ++ (send a.round_info d.vault a.treasury_info ∷ []))),
    )

  -- somebody deployed on the winning square
  unfoldable pub pay_winners :
      Accounts
      → Config
      → ℕ
      → (ℕ → List (Effect A))
      → (Round → ℕ → ℕ → Result Round)
      → Round
      → Treasury N
      → SolMotherlode
      → (random square admin_fee lode : ℕ)
      → Result (Round × Treasury N × SolMotherlode × List (Effect A))
  pay_winners a c supply fee_sends top r t s random square admin_fee lode = do
    (d, r₁, t₁) ← divide_round r t square
    (mint_amount, lode_mint) ← mint_amounts c supply
    total_mint ← add_u64 mint_amount lode_mint
    r₂ ← name_top top (record r₁ { top_miner_reward = mint_amount }) random square
    pay_division a fee_sends d r₂ t₁ s random lode_mint total_mint admin_fee lode

  -- the round with its random number
  unfoldable pub resolve :
      Accounts
      → Config
      → ℕ
      → (ℕ → List (Effect A))
      → (Round → ℕ → ℕ → Result Round)
      → Round
      → Treasury N
      → SolMotherlode
      → Option ℕ
      → Result (Round × Treasury N × SolMotherlode × List (Effect A))
  resolve a c supply fee_sends top r t s none =
      ok (record r { total_vaulted = 0; total_winnings = 0; total_deployed = 0 }, t, s, [])
  resolve a c supply fee_sends top r t s (some random) = do
    admin_fee ← bps_of r.total_deployed admin_fee_bps
    lode ← bps_of r.total_deployed sol_motherlode_bps
    let square = winning_square random
    if get_or r.deployed square 0 == 0
        then vault_all a fee_sends r t s admin_fee lode
        else pay_winners a c supply fee_sends top r t s random square admin_fee lode

  -- the board, once its round and the intermission are over
  unfoldable pub load_over : Accounts → Clock → Result (Config × Board)
  load_over a clock = do
    c ← as_config a.config_info
    b ← as_board a.board_info
    demand (leb (saturating_add b.end_slot (intermission_slots c)) clock.slot)
    ok (c, b)

  -- the other checks and loads that both instructions make after the signer's
  unfoldable pub close_board :
      Accounts
      → Clock
      → (ℕ → List (Effect A))
      → (Round → ℕ → ℕ → Result Round)
      → Config
      → Board
      → Result Closed
  close_board a clock fee_sends top c b = do
    is_writable a.fee_collector_info
    has_address a.fee_collector_info c.fee_collector
    r ← as_round a.round_info
    demand (r.id == b.round_id)
    next_id ← add_u64 b.round_id 1
    is_empty a.round_next_info
    is_writable a.round_next_info
    has_seeds a.round_next_info (round next_id)
    is_empty a.pool_round_next_info
    is_writable a.pool_round_next_info
    has_seeds a.pool_round_next_info (pool_round next_id)
    has_address a.mint_info mint_address
    supply ← as_mint a.mint_info
    is_writable a.sol_motherlode_info
    has_seeds a.sol_motherlode_info sol_motherlode
    s ← as_sol_motherlode a.sol_motherlode_info
    is_writable a.rush_sol_vault_info
    has_address a.rush_sol_vault_info rush_sol_vault
    t ← as_treasury a.treasury_info
    held ← as_tokens a.treasury_tokens_info (key a.treasury_info)
    is_system_program a.system_program
    is_token_program a.token_program
    is_godl_program a.godl_program
    is_slot_hashes a.slot_hashes_sysvar
    has_address a.var_info c.var_address
    v ← as_var a.var_info
    demand (v.authority == key a.board_info)
    demand (not (all_equal 0 v.slot_hash))
    demand (not (all_equal 0 v.seed))
    demand (not (all_equal 0 v.value))
    is_entropy_program a.entropy_program
    let drawn = record r { slot_hash = v.value }
    (r', t', s', effects) ← resolve a c supply fee_sends top drawn t s (rng drawn)
    ok (record {
      board = advanced b next_id clock;
      round_after = r';
      round_next = opened next_id (key a.signer_info);
      pool_round_next = opened_pool next_id (key a.signer_info);
      treasury = t';
      motherlode = s';
      effects =
          create a.round_next_info (round next_id) a.signer_info
          ∷ create a.pool_round_next_info (pool_round next_id) a.signer_info
          ∷ effects;
    })

  unfoldable pub close_round :
      Accounts → Clock → (ℕ → List (Effect A)) → (Round → ℕ → ℕ → Result Round) → Result Closed
  close_round a clock fee_sends top = do
    (c, b) ← load_over a clock
    close_board a clock fee_sends top c b

  unfoldable pub process_reset : Accounts → Clock → Result Closed
  process_reset a clock = do
    is_signer a.signer_info
    has_address a.signer_info crank_bot
    close_round a clock (fees_lenient a) (top_miner_lenient a)

  unfoldable pub process_reset_permissionless : Accounts → Clock → Result Closed
  process_reset_permissionless a clock = do
    is_signer a.signer_info
    close_round a clock (fees_strict a) (top_miner_strict a)
