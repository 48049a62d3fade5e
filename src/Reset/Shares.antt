-- ===== src/Reset/Shares.antt =====
-- How a round's SOL and the new GODL are divided.
use godl_program.Base.{if◌then◌else◌, ℕ, ◌+◌, ◌-◌, ◌*◌, ◌/◌, ◌<◌, ◌≤◌, ◌≡◌, ok, arith, u64_mod}
use godl_program.Consts.{max_supply}
use godl_program.Round.{Config, Round, did_hit_motherlode}
use godl_program.Treasury.{Treasury}
use godl_program.Reset.{bps_of, Division, divide, mint_amounts, pay_motherlode}

-- The losing squares' SOL, if 150 times it fits a u64, is divided without remainder into the fees,
-- one and a half percent rounded down, a tenth of the rest for the vault, and the winnings.
pub divide_exact :
    (losing : ℕ)
    → losing * 150 < u64_mod
    → (d : Division) × (divide losing ≡ ok d)
      × (d.fees + d.vault + d.winnings ≡ losing)
      × (d.fees ≡ losing * 150 / 10000)
      × (d.vault ≡ (losing - d.fees) / 10)
unfolding divide bps_of
divide_exact losing fits =
    let fees = losing * 150 / 10000 in
    let vault = (losing - fees) / 10 in
    (
      record { fees = fees; vault = vault; winnings = losing - fees - vault },
      ground arith,
      omega arith,
      omega arith,
      omega arith,
    )

-- What a round mints, for its own reward and for the motherlode, never takes a supply that is
-- within the maximum past it; neither part is more than the configuration allows.
pub mint_amounts_capped :
    (c : Config) (supply mint lode : ℕ)
    → supply ≤ max_supply
    → mint_amounts c supply ≡ ok (mint, lode)
    → (supply + mint + lode ≤ max_supply)
      × (mint ≤ c.godl_per_round)
      × (lode ≤ c.godl_per_round / c.motherlode_denominator)
unfolding mint_amounts
mint_amounts_capped c supply mint lode within h = ground arith

-- The treasury's motherlode and the round's make up what the treasury had, for a round without a
-- motherlode: on a hit the treasury keeps a tenth, and else all of it.
pub pay_motherlode_conserves :
    {N : Type 0} (r : Round) (t : Treasury N) (random : ℕ)
    → r.motherlode ≡ 0
    → let (r', t') = pay_motherlode r t random in
      (r'.motherlode + t'.motherlode ≡ t.motherlode)
      × (t'.motherlode ≡ (if did_hit_motherlode random then t.motherlode / 10 else t.motherlode))
unfolding pay_motherlode
pay_motherlode_conserves r t random empty = ground arith
