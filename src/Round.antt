-- ===== src/Round.antt =====
-- api/src/state/round.rs, board.rs and config.rs: the round on a board of 25 squares, and what is
-- read off its random number.
pub mod Draw
pub mod Phases
use Prim.Native.Nat.{bit_xor}
use godl_program.Base.{
  ℕ, zero, suc, ◌+◌, ◌*◌, ◌/◌, ◌%◌, ◌^◌, Bool, ◌&&◌, ◌||◌, Option, some, none, List, [], ◌∷◌,
  Result, ok, ◌>>=◌, ◌==◌, if◌then◌else◌, add_u64, get_or, replicate,
}
use godl_program.Consts.{default_round_slots, default_intermission_slots}

pub record Board : Type 0 where
  pub round_id : ℕ
  pub start_slot : ℕ
  pub end_slot : ℕ

pub record Config : Type 0 where
  pub admin : ℕ
  pub godl_per_round : ℕ
  pub bury_authority : ℕ
  pub fee_collector : ℕ
  pub swap_program : ℕ
  pub var_address : ℕ
  pub motherlode_denominator : ℕ
  pub round_slots : ℕ
  pub intermission_slots : ℕ
  pub buffer : List ℕ

-- `Config::round_slots` and `Config::intermission_slots`
unfoldable pub round_slots : Config → ℕ
round_slots c = if c.round_slots == 0 then default_round_slots else c.round_slots

unfoldable pub intermission_slots : Config → ℕ
intermission_slots c =
    if c.intermission_slots == 0 then default_intermission_slots else c.intermission_slots

pub record Round : Type 0 where
  pub id : ℕ
  pub deployed : List ℕ
  pub slot_hash : List ℕ
  pub count : List ℕ
  pub expires_at : ℕ
  pub motherlode : ℕ
  pub rent_payer : ℕ
  pub top_miner : ℕ
  pub top_miner_reward : ℕ
  pub total_deployed : ℕ
  pub total_vaulted : ℕ
  pub total_winnings : ℕ

-- `[a; n] == bytes`
pub all_equal : ℕ → List ℕ → Bool
all_equal a [] = Bool.true
all_equal a (b ∷ bs) = b == a && all_equal a bs

-- `uN::from_le_bytes` of the next `n` bytes from an index
pub from_le_bytes : ℕ → ℕ → List ℕ → ℕ
from_le_bytes zero i bytes = 0
from_le_bytes (suc n) i bytes = get_or bytes i 0 + 256 * from_le_bytes n (i + 1) bytes

-- `reverse_bits` on a word of `width` bits
pub reverse_bits : ℕ → ℕ → ℕ
reverse_bits zero n = 0
reverse_bits (suc width) n = n % 2 * 2 ^ width + reverse_bits width (n / 2)

unfoldable pub rng : Round → Option ℕ
unfolding all_equal from_le_bytes
rng r =
    let h = r.slot_hash in
    if all_equal 0 h || all_equal 255 h
    then none
    else some (
        bit_xor
          (bit_xor (bit_xor (from_le_bytes 8 0 h) (from_le_bytes 8 8 h)) (from_le_bytes 8 16 h))
          (from_le_bytes 8 24 h))

unfoldable pub winning_square : ℕ → ℕ
winning_square random = random % 25

unfoldable pub top_miner_sample : Round → ℕ → ℕ → ℕ
unfolding reverse_bits
top_miner_sample r random square =
    let total = get_or r.deployed square 0 in
    if total == 0 then 0 else reverse_bits 64 random % total

-- the loop of `calculate_total_winnings`, from index `i`
unfoldable pub winnings_from : List ℕ → ℕ → ℕ → ℕ → Result ℕ
winnings_from [] i square total = ok total
winnings_from (d ∷ ds) i square total = do
  total' ← if i == square then ok total else add_u64 total d
  winnings_from ds (i + 1) square total'

unfoldable pub calculate_total_winnings : Round → ℕ → Result ℕ
unfolding winnings_from
calculate_total_winnings r square = winnings_from r.deployed 0 square 0

unfoldable pub is_split_reward : ℕ → Bool
unfolding reverse_bits
is_split_reward random =
    let v = reverse_bits 64 random in
    let r1 = v % 2 ^ 16 in
    let r2 = v / 2 ^ 16 % 2 ^ 16 in
    let r3 = v / 2 ^ 32 % 2 ^ 16 in
    let r4 = v / 2 ^ 48 in bit_xor (bit_xor (bit_xor r1 r2) r3) r4 % 2 == 0

unfoldable pub did_hit_motherlode : ℕ → Bool
unfolding reverse_bits
did_hit_motherlode random = reverse_bits 64 random % 625 == 0
