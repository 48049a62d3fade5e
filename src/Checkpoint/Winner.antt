-- ===== src/Checkpoint/Winner.antt =====
-- The solo reward of a round, over all the miners who played in it.
use godl_program.Base.{
  ℕ, ◌+◌, ◌*◌, ◌<◌, ◌≡◌, refl, ap, ◌∙◌, Bool, true, false, List, [], ◌∷◌, Result, ok, arith, get_or,
  Bool-cases, inl, inr, ◌>>=◌, u64_mod,
}
use godl_program.Numeric.{Numeric}
use godl_program.Miner.{Miner}
use godl_program.Round.{Round, top_miner_sample}
use godl_program.Round.Draw.{top_miner_sample-lt}
use godl_program.Runtime.{Steel}
use godl_program.Squares.History.{Played, Tiles, holds, holders, Tiles-holders, Played-Tiles}
use godl_program.Checkpoint.{solo_reward}

module _ {N A : Type 0} ⦃num : Numeric N⦄ (steel : Steel N A) where
  -- the miners' checkpoints of a solo round, each with the round as the one before it left it
  unfoldable pub solo_rewards : List (Miner N) → Round → ℕ → ℕ → Result ℕ
  solo_rewards [] r random square = ok 0
  solo_rewards (m ∷ ms) r random square = do
    (reward, r') ← solo_reward steel r m random square
    rest ← solo_rewards ms r' random square
    ok (reward + rest)

  abbrev won : Round → Miner N → Bool → ℕ × Round
  won r m true = (r.top_miner_reward, record r { top_miner = m.authority })
  won r m false = (0, r)

  solo_reward-won :
      (r : Round) (m : Miner N) (random square : ℕ)
      → get_or m.cumulative square 0 + get_or m.deployed square 0 < u64_mod
      → solo_reward steel r m random square
        ≡ ok (won r m (holds square (top_miner_sample r random square) m))
  unfolding solo_reward
  solo_reward-won r m random square fits = ground arith

  top_miner_sample-named :
      (r : Round) (name random square : ℕ)
      → top_miner_sample (record r { top_miner = name }) random square
        ≡ top_miner_sample r random square
  unfolding top_miner_sample
  top_miner_sample-named r name random square = refl

  solo_rewards-holders :
      (ms : List (Miner N)) (r : Round) (random square s n : ℕ)
      → top_miner_sample r random square ≡ s
      → n < u64_mod
      → Tiles square ms n
      → solo_rewards ms r random square ≡ ok (holders square s ms * r.top_miner_reward)
  unfolding solo_rewards
  solo_rewards-holders [] r random square s n sample fits t = ap ok (omega arith)
  solo_rewards-holders (m ∷ ms) r random square s n sample fits (before, t, e, within, starts) =
      let room : get_or m.cumulative square 0 + get_or m.deployed square 0 < u64_mod =
        omega arith in
      let first = solo_reward-won r m random square room in
      elim (Bool-cases (holds square s m)) [
        | inl h ↦
            let rest =
              solo_rewards-holders ms (record r { top_miner = m.authority }) random square s before
                (top_miner_sample-named r m.authority random square ∙ sample) (omega arith) t in
            rw (first, sample, h, rest) (ap ok (omega arith))
        | inr h ↦
            let rest = solo_rewards-holders ms r random square s before sample (omega arith) t in
            rw (first, sample, h, rest) (ap ok (omega arith))
      ]

  -- Let a round have been played by deploys, closed with the same deployments, and have something, of
  -- u64 size, on the square that won. If the reward is solo, the checkpoints of its miners all compute
  -- theirs, and together they get the reward exactly: one miner gets all of it and the others nothing.
  pub solo_paid_once :
      (ms : List (Miner N)) (played closed : Round) (random square : ℕ)
      → Played A played ms
      → closed.deployed ≡ played.deployed
      → square < 25
      → 0 < get_or closed.deployed square 0
      → get_or closed.deployed square 0 < u64_mod
      → solo_rewards ms closed random square ≡ ok closed.top_miner_reward
  solo_paid_once ms played closed random square p same lt pos fits =
      let s = top_miner_sample closed random square in
      let tiles : Tiles square ms (get_or closed.deployed square 0) =
        rw same (Played-Tiles square played ms lt p) in
      let one_winner : holders square s ms ≡ 1 =
        Tiles-holders square s (get_or closed.deployed square 0) ms tiles
          (top_miner_sample-lt closed random square pos) in
      solo_rewards-holders ms closed random square s (get_or closed.deployed square 0) refl fits
        tiles
      ∙ rw one_winner (ap ok (omega arith))
