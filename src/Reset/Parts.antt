-- ===== src/Reset/Parts.antt =====
-- The parts of program/src/miner/reset.rs that ask nothing of the runtime: fees, the division of the
-- SOL, the amounts to mint, the accounts that are opened, and the motherlode.
use godl_program.Base.{
  ℕ, ◌+◌, ◌-◌, ◌/◌, min, Bool, ◌&&◌, Option, some, none, Result, ok, err, panic,
  invalid_instruction_data, not_enough_account_keys, ◌>>=◌, ◌>>◌, require, ltb, leb, if◌then◌else◌,
  add_u64, sub_u64, checked_add, checked_sub, checked_mul, u64_max, get_or, replicate,
}
use godl_program.Consts.{admin_fee_bps, sol_motherlode_bps, denominator_bps, max_supply}
use godl_program.Treasury.{Treasury}
use godl_program.Miner.{Miner, default_key}
use godl_program.Round.{Config, Round, top_miner_sample, did_hit_motherlode}
use godl_program.Pool.{PoolRound}

-- a rate in basis points, of u64 values
unfoldable pub bps_of : ℕ → ℕ → Result ℕ
bps_of amount bps = do
  scaled ← checked_mul amount bps invalid_instruction_data
  ok (scaled / denominator_bps)

-- how the SOL of the losing squares is divided
pub record Division : Type 0 where
  pub fees : ℕ
  pub vault : ℕ
  pub winnings : ℕ

unfoldable pub divide : ℕ → Result Division
divide losing = do
  fees ← bps_of losing (admin_fee_bps + sol_motherlode_bps)
  net ← sub_u64 losing fees
  let vault = net / 10
  winnings ← checked_sub net vault invalid_instruction_data
  ok (record { fees = fees; vault = vault; winnings = winnings })

-- `MAX_SUPPLY.saturating_sub(supply).min(..)`, for the round and for the motherlode
unfoldable pub mint_amounts : Config → ℕ → Result (ℕ × ℕ)
mint_amounts c supply = do
  let mint_amount = min (max_supply - supply) c.godl_per_round
  supply' ← add_u64 supply mint_amount
  require (ltb 0 c.motherlode_denominator) panic
  ok (mint_amount, min (max_supply - supply') (c.godl_per_round / c.motherlode_denominator))

-- the next round and its pool round
abbrev pub opened : ℕ → ℕ → Round
opened id payer = record {
  id = id;
  deployed = replicate 25 0;
  slot_hash = replicate 32 0;
  count = replicate 25 0;
  expires_at = u64_max;
  motherlode = 0;
  rent_payer = payer;
  top_miner = default_key;
  top_miner_reward = 0;
  total_deployed = 0;
  total_vaulted = 0;
  total_winnings = 0;
}

abbrev pub opened_pool : ℕ → ℕ → PoolRound
opened_pool id payer = record {
  id = id;
  deployed = replicate 25 0;
  count = replicate 25 0;
  total_deployed = 0;
  rent_payer = payer;
}

-- `let [mint_authority_info, mint_program] = mint_accounts else ..`
unfoldable pub mint_pair : {A : Type 0} → Option (A × A) → Result (A × A)
mint_pair (some p) = ok p
mint_pair none = err not_enough_account_keys

-- the sample lies in the candidate's range
unfoldable pub in_range : {N : Type 0} → Round → Miner N → ℕ → ℕ → Result Bool
in_range r m random square = do
  let sample = top_miner_sample r random square
  let lower = get_or m.cumulative square 0
  upper ← checked_add lower (get_or m.deployed square 0) invalid_instruction_data
  ok (leb lower sample && ltb sample upper)

-- the motherlode pays out nine tenths
unfoldable pub pay_motherlode : {N : Type 0} → Round → Treasury N → ℕ → Round × Treasury N
pay_motherlode r t random =
    let rollover = t.motherlode / 10 in
    if did_hit_motherlode random
    then (record r { motherlode = t.motherlode - rollover }, record t { motherlode = rollover })
    else (r, t)
