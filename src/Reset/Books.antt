-- ===== src/Reset/Books.antt =====
-- What the rounds' account sends when a round is closed, and what is recorded of it.
use godl_program.Base.{ℕ, ◌*◌, ◌/◌, ◌≡◌, ok, arith}
use godl_program.Round.{Round}
use godl_program.Treasury.{Treasury}
use godl_program.Reset.{bps_of}

pub bps_of-eq-ok : (n bps m : ℕ) → bps_of n bps ≡ ok m → m ≡ n * bps / 10000
unfolding bps_of
bps_of-eq-ok n bps m h = ground arith
