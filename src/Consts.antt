-- ===== src/Consts.antt =====
-- The constants of api/src/consts.rs that the modelled code reads. An address is the number that
-- its base58 text stands for; the code only compares addresses.
use godl_program.Base.{ℕ, ◌*◌, ◌/◌, ◌^◌, ◌+◌}

abbrev pub one_godl : ℕ
one_godl = 10 ^ 11

abbrev pub one_minute : ℕ
one_minute = 60

abbrev pub one_day : ℕ
one_day = 24 * 60 * one_minute

abbrev pub one_minute_slots : ℕ
one_minute_slots = 150

abbrev pub twelve_hours_slots : ℕ
twelve_hours_slots = 12 * 60 * one_minute_slots

abbrev pub one_day_slots : ℕ
one_day_slots = 24 * 60 * one_minute_slots

abbrev pub default_round_slots : ℕ
default_round_slots = one_minute_slots

abbrev pub default_intermission_slots : ℕ
default_intermission_slots = 25

abbrev pub max_supply : ℕ
max_supply = one_godl * 2_100_000

abbrev pub max_godl_per_round : ℕ
max_godl_per_round = one_godl * 40

abbrev pub admin_fee_bps : ℕ
admin_fee_bps = 50

abbrev pub sol_motherlode_bps : ℕ
sol_motherlode_bps = 100

abbrev pub rush_sol_motherlode_bps : ℕ
rush_sol_motherlode_bps = 1_000

abbrev pub referral_bps : ℕ
referral_bps = 50

abbrev pub stakers_bps : ℕ
stakers_bps = 300

abbrev pub admin_bps : ℕ
admin_bps = 0

abbrev pub denominator_bps : ℕ
denominator_bps = 10_000

abbrev pub checkpoint_fee : ℕ
checkpoint_fee = 10_000

abbrev pub nft_boost_numerator : ℕ
nft_boost_numerator = 11

abbrev pub nft_boost_denominator : ℕ
nft_boost_denominator = 10

abbrev pub max_lock_duration : ℕ
max_lock_duration = 2 * 365 * one_day

abbrev pub max_stake_multiplier : ℕ
max_stake_multiplier = 20

abbrev pub stake_multiplier_scale : ℕ
stake_multiplier_scale = 1_000_000_000

abbrev pub gold_factor_scale : ℕ
gold_factor_scale = 1_000_000

abbrev pub legacy_instruction_expiry_ts : ℕ
legacy_instruction_expiry_ts = 1_789_839_440 + 90 * one_minute

abbrev pub mint_address : ℕ
mint_address = 0xead119400c14c19ef7372b32e34903a680576c9d05e3b7a32e79dbe1a10ee15a

abbrev pub split_address : ℕ
split_address = 0x69d0c318759b1e6736f299e774dfefd381d7c5cd8512f10c8918e0000000001

abbrev pub pool_address : ℕ
pool_address = 0x5d7b17d33425a82ef962894b354a76817c953232c4756ebd7af598000000000

abbrev pub crank_bot : ℕ
crank_bot = 0xb0091357125996c88e223cca4b451f3b3c68bc27ae976a5b3b2d7358a30c8d61

abbrev pub rush_sol_vault : ℕ
rush_sol_vault = 0x69beb8ea31a3f8f2109791eb9fc9551ba4944d6a2af54246bfbd85632bc1403

-- of the Solana library
abbrev pub lamports_per_sol : ℕ
lamports_per_sol = 1_000_000_000

-- `LAMPORTS_PER_SOL / 1000` of program/src/miner/reset_permissionless.rs
abbrev pub crank_reward_lamports : ℕ
crank_reward_lamports = lamports_per_sol / 1000

abbrev pub nft_boost_collection : ℕ
nft_boost_collection = 0xb9364670ef4108d7eb809db32ddc57690eb4a227fe8fcea6b0ed5963ae4ea475

abbrev pub mpl_core_program : ℕ
mpl_core_program = 0xaf54ab10bd97a542a09ef7b39889dd0cd394a4cce9dfa6cdc97ebe2d235ba748

abbrev pub xaut_mint : ℕ
xaut_mint = 0x9443a4a405206adeeda24d0c916e15ff0800aae5be3e0c324f734e3092c118da

abbrev pub admin_godl_fee : ℕ
admin_godl_fee = 0xfdcd3dc98c47b0dc229da8739ba488e313ebd2105f1e65f52c60e8c69371634

abbrev pub chest_address : ℕ
chest_address = 0xa7990b6cbb5ad1a8a9f748bc8c77271b41ccf978faad21edef7042889ea16dd7

abbrev pub one_month : ℕ
one_month = 30 * one_day

abbrev pub otc_oracle_signer : ℕ
otc_oracle_signer = 0xc0312eeb080d33e156c9b68443fbf1efb743354e2f5e27f089467982b3fb707

abbrev pub deployer_address : ℕ
deployer_address = 0x963cbef7248698157a8c83e47ea2c24a01e28ab63d912d4d4a54338ed6a2b38

-- the wrapped SOL mint of the Solana library
abbrev pub sol_mint : ℕ
sol_mint = 0x69b8857feab8184fb687f634618c035dac439dc1aeb3b5598a0f00000000001
