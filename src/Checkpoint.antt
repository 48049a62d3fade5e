-- ===== src/Checkpoint.antt =====
-- program/src/miner/checkpoint.rs and checkpoint_with_miner_extended.rs: a miner's rewards of a
-- finished round are computed and credited, once.
pub mod Payout
pub mod Winner
pub mod Once
use godl_program.Base.{
  ℕ, ◌+◌, ◌-◌, ◌*◌, ◌/◌, ◌%◌, max, Bool, true, false, ◌&&◌, ◌||◌, not, Option, some, none, List, [],
  ◌∷◌, ◌++◌, Result, ok, err, godl, panic, invalid_instruction_data, legacy_checkpoint_expired,
  miner_extended_missing, ◌>>=◌, ◌>>◌, require, reject, ltb, leb, ◌==◌, if◌then◌else◌, add_u64,
  sub_u64, checked_add, checked_sub, checked_mul, mul_u128, u64_mod, get_or, sum_u64,
}
use godl_program.Base.Int.{ℤ, pos, ltb_ℤ}
use godl_program.Consts.{
  admin_fee_bps, sol_motherlode_bps, denominator_bps, split_address, pool_address,
  twelve_hours_slots, legacy_instruction_expiry_ts,
}
use godl_program.Numeric.{Numeric}
use godl_program.Treasury.{Clock, Treasury}
use godl_program.Miner.{Miner, update_rewards, credit_settled}
use godl_program.Gold.{GoldVault, MinerExtended}
use godl_program.Gold
use godl_program.Round.{Board, Round, rng, winning_square, top_miner_sample, all_equal}
use godl_program.Pool.{PoolMember, PoolRound}
use godl_program.Runtime.{
  Steel, Effect, Seeds, send, demand, round, pool_member, pool_round, gold_vault, miner_extended,
}

-- `(a as u128 * b as u128 / c as u128) as u64`, for a divisor that is not zero
unfoldable pub pro_rata : ℕ → ℕ → ℕ → Result ℕ
pro_rata a b c = do product ← mul_u128 a b; ok (product / c % u64_mod)

-- the fee on a winner's own deployment: at least one lamport
unfoldable pub deployment_fee : ℕ → Result ℕ
deployment_fee deployed = do
  fee_bps ← checked_add admin_fee_bps sol_motherlode_bps invalid_instruction_data
  scaled ← checked_mul deployed fee_bps invalid_instruction_data
  ok (max (scaled / denominator_bps) 1)

-- what a winner gets back of `deployed` on a square that holds `total`, with a share of the winnings
unfoldable pub sol_reward : ℕ → ℕ → ℕ → Result ℕ
sol_reward deployed total winnings = do
  fee ← deployment_fee deployed
  base ← checked_sub deployed fee invalid_instruction_data
  share ← pro_rata winnings deployed total
  add_u64 base share

module _ {N A : Type 0} ⦃num : Numeric N⦄ (steel : Steel N A) where
  open steel use {
    key, data_is_empty, lamports, is_signer, is_writable, has_seeds, is_system_program, as_board,
    as_treasury, as_miner, as_round, as_pool_member, as_pool_round, as_gold_vault,
    as_miner_extended, miner_rent,
  }

  -- the share of a pooled reward
  unfoldable pub pool_reward : Round → Miner N → Option PoolMember → A → ℕ → Result ℕ
  pool_reward r m none pool_round_info square = ok 0
  pool_reward r m (some p) pool_round_info square =
      if p.round_id == m.round_id
        && ltb 0 (get_or p.deployed square 0)
        && not (data_is_empty pool_round_info)
      then (do
        is_writable pool_round_info
        has_seeds pool_round_info (pool_round r.id)
        pool ← as_pool_round pool_round_info
        demand (pool.id == r.id)
        let pool_deployed = get_or pool.deployed square 0
        if ltb 0 pool_deployed
            then pro_rata r.top_miner_reward (get_or p.deployed square 0) pool_deployed
            else ok 0)
      else ok 0

  -- a solo reward goes to the miner whose range holds the sample, who is then named in the round
  unfoldable pub solo_reward : Round → Miner N → ℕ → ℕ → Result (ℕ × Round)
  solo_reward r m random square =
      let sample = top_miner_sample r random square in
      let lower = get_or m.cumulative square 0 in
      if leb lower sample
      then (do
        upper ← add_u64 lower (get_or m.deployed square 0)
        if ltb sample upper
            then ok (r.top_miner_reward, record r { top_miner = m.authority })
            else ok (0, r))
      else ok (0, r)

  unfoldable pub godl_reward : Round → Miner N → Option PoolMember → A → ℕ → ℕ → Result (ℕ × Round)
  godl_reward r m p pool_round_info random square =
      if r.top_miner == split_address
      then (do
        share ←
            pro_rata r.top_miner_reward (get_or m.deployed square 0) (get_or r.deployed square 0)
        ok (share, r))
      else if r.top_miner == pool_address
      then (do share ← pool_reward r m p pool_round_info square; ok (share, r))
      else solo_reward r m random square

  unfoldable pub motherlode_reward : Round → ℕ → ℕ → Result ℕ
  motherlode_reward r deployed total =
      if ltb 0 r.motherlode then pro_rata r.motherlode deployed total else ok 0

  -- the rewards of a miner who deployed on the winning square: SOL, GODL, and the round
  unfoldable pub winner_rewards :
      Round → Miner N → Option PoolMember → A → ℕ → ℕ → Result (ℕ × ℕ × Round)
  winner_rewards r m p pool_round_info random square = do
    let deployed = get_or m.deployed square 0
    let total = get_or r.deployed square 0
    require (leb deployed total) panic
    sol ← sol_reward deployed total r.total_winnings
    (share, r') ← godl_reward r m p pool_round_info random square
    lode ← motherlode_reward r' deployed total
    all ← add_u64 share lode
    ok (sol, all, r')

  -- without a random number everything that the miner deployed is refunded
  unfoldable pub round_rewards :
      Round → Miner N → Option PoolMember → A → Option ℕ → Result (ℕ × ℕ × Round)
  round_rewards r m p pool_round_info none = do
    require (r.total_deployed == 0) panic
    refund ← sum_u64 m.deployed
    ok (refund, 0, r)
  round_rewards r m p pool_round_info (some random) =
      let square = winning_square random in
      if ltb 0 (get_or m.deployed square 0)
      then winner_rewards r m p pool_round_info random square
      else ok (0, 0, r)

  -- the accounts of the two instructions; the last two are of `CheckpointWithMinerExtended`
  pub record Accounts : Type 0 where
    pub signer_info : A
    pub board_info : A
    pub miner_info : A
    pub round_info : A
    pub treasury_info : A
    pub pool_round_info : A
    pub pool_member_info : A
    pub system_program : A
    pub gold_vault_info : A
    pub miner_extended_info : A

  pub record Paid : Type 0 where
    pub miner : Miner N
    pub round_after : Round
    pub treasury : Treasury N
    pub extended : Option (MinerExtended N)
    pub effects : List (Effect A)

  -- how the instruction returns `Ok`: with nothing written, with the miner's claim on the round
  -- given up, or with rewards credited
  pub data Finish : Type 0 where
    unchanged : Finish
    forfeited : Miner N → Finish
    paid : Paid → Finish

  unfoldable pub load_pool_member : Accounts → Miner N → Result (Option PoolMember)
  load_pool_member a m = if data_is_empty a.pool_member_info then ok none else do
    is_writable a.pool_member_info
    has_seeds a.pool_member_info (pool_member m.authority)
    p ← as_pool_member a.pool_member_info
    demand (p.authority == m.authority)
    ok (some p)

  -- the bot fee, and the miner with what it has left of it
  unfoldable pub take_bot_fee : Clock → Round → Miner N → Result (ℕ × Miner N)
  take_bot_fee clock r m = do
    from ← sub_u64 r.expires_at twelve_hours_slots
    ok (if leb from clock.slot then (m.checkpoint_fee, record m { checkpoint_fee = 0 }) else (0, m))

  -- the lamport transfers, and the final check of the miner account's funds
  unfoldable pub pay_out : Accounts → Miner N → ℕ → ℕ → Result (List (Effect A))
  pay_out a m rewards_sol bot_fee = do
    received ← add_u64 (lamports a.miner_info) rewards_sol
    left ← sub_u64 received bot_fee
    kept ← add_u64 miner_rent m.checkpoint_fee
    needed ← add_u64 kept m.rewards_sol
    require (leb needed left) panic
    ok (
        (if ltb 0 rewards_sol then send a.round_info rewards_sol a.miner_info ∷ [] else [])
        ++ (if ltb 0 bot_fee then send a.miner_info bot_fee a.signer_info ∷ [] else []))

  -- `MinerExtended` of the miner, if the account exists, settled on the unclaimed GODL
  unfoldable pub settle_gold :
      Accounts → GoldVault N → Miner N → ℕ → Result (Option (MinerExtended N))
  settle_gold a vault m rewards_godl = do
    is_writable a.miner_extended_info
    has_seeds a.miner_extended_info (miner_extended m.authority)
    if data_is_empty a.miner_extended_info
        then (do
          reject (ltb 0 m.rewards_godl || ltb 0 rewards_godl) (godl miner_extended_missing)
          ok none)
        else (do
          extended ← as_miner_extended a.miner_extended_info
          demand (extended.authority == m.authority)
          extended' ← Gold.update_rewards extended vault m.rewards_godl
          ok (some extended'))

  -- `gold` is what the gold-aware instruction does between the settlement and the credit
  unfoldable pub pay :
      Accounts
      → Clock
      → Miner N
      → Treasury N
      → Round
      → (Miner N → ℕ → Result (Option (MinerExtended N)))
      → Result Finish
  pay a clock m t r gold = do
    p ← load_pool_member a m
    if leb r.expires_at clock.slot
        then ok (forfeited (record m { checkpoint_id = m.round_id }))
        else (do
          (bot_fee, m₁) ← take_bot_fee clock r m
          (rewards_sol, rewards_godl, r') ← round_rewards r m₁ p a.pool_round_info (rng r)
          m₂ ← update_rewards m₁ t
          extended ← gold m₂ rewards_godl
          (m₃, t') ← credit_settled m₂ r.id rewards_godl rewards_sol t
          effects ← pay_out a m₃ rewards_sol bot_fee
          ok (
              paid (record {
                miner = m₃;
                round_after = r';
                treasury = t';
                extended = extended;
                effects = effects;
              })))

  unfoldable pub finish_round :
      Accounts
      → Clock
      → Board
      → Miner N
      → Treasury N
      → (Miner N → ℕ → Result (Option (MinerExtended N)))
      → Result Finish
  finish_round a clock board m t gold =
      if m.checkpoint_id == m.round_id
      then ok unchanged
      else if data_is_empty a.round_info
      then (do
        has_seeds a.round_info (round m.round_id)
        ok (forfeited (record m { checkpoint_id = m.round_id })))
      else (do
        r ← as_round a.round_info
        if r.id == board.round_id || not (r.id == m.round_id) || all_equal 0 r.slot_hash
            then ok unchanged
            else pay a clock m t r gold)

  unfoldable pub process_checkpoint : Accounts → Clock → Result Finish
  process_checkpoint a clock = do
    require (ltb_ℤ clock.unix_timestamp (pos legacy_instruction_expiry_ts))
        (godl legacy_checkpoint_expired)
    is_signer a.signer_info
    board ← as_board a.board_info
    m ← as_miner a.miner_info
    t ← as_treasury a.treasury_info
    is_system_program a.system_program
    finish_round a clock board m t (λ _ _. ok none)

  unfoldable pub process_checkpoint_with_miner_extended : Accounts → Clock → Result Finish
  process_checkpoint_with_miner_extended a clock = do
    is_signer a.signer_info
    board ← as_board a.board_info
    m ← as_miner a.miner_info
    t ← as_treasury a.treasury_info
    is_system_program a.system_program
    has_seeds a.gold_vault_info gold_vault
    vault ← as_gold_vault a.gold_vault_info
    has_seeds a.miner_extended_info (miner_extended m.authority)
    finish_round a clock board m t (settle_gold a vault)
