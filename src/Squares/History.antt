-- ===== src/Squares/History.antt =====
-- The plays of a round, as a relation, and the ranges that they leave on its squares.
use godl_program.Base.{
  ℕ, zero, suc, ◌+◌, ◌<◌, ◌≤◌, ◌≡◌, refl, sym, ◌∙◌, Bool, ◌&&◌, List, [], ◌∷◌, ok, arith, length,
  get_or, replicate, sum, sum_by, ltb, leb, if◌then◌else◌, Bool-cases, inl, inr,
}
use godl_program.Miner.{Miner}
use godl_program.Round.{Round}
use godl_program.Squares.{Bet, Deployment, deploy_squares}
use godl_program.Squares.Sums.{deploy_squares_sums}
use godl_program.Squares.Ranges.{Lined, deploy_squares-Lined}

length-zeros : (n : ℕ) → length {A = ℕ} (replicate n 0) ≡ n
length-zeros zero = refl
length-zeros (suc n) = omega (arith, length-zeros n)

get_or-zeros : (n k : ℕ) → get_or {A = ℕ} (replicate n 0) k 0 ≡ 0
get_or-zeros zero k = refl
get_or-zeros (suc n) zero = refl
get_or-zeros (suc n) (suc k) = get_or-zeros n k

sum-zeros : (n : ℕ) → sum (replicate n 0) ≡ 0
sum-zeros zero = refl
sum-zeros (suc n) = omega (arith, sum-zeros n)

module _ {N : Type 0} (A : Type 0) where
  -- How a round comes to hold its deployments, and which miners made them, the latest first: it is
  -- opened with none, and each play enters the squares of a bet for a miner who has none there yet and
  -- whose cumulative amounts are not past the round's.
  pub data Played : Round → List (Miner N) → Type 0 where
    fresh_round : (r : Round) → r.deployed ≡ replicate 25 0 → r.total_deployed ≡ 0 → Played r []
    play :
        (b : Bet A) (squares : List Bool) (d d' : Deployment N A) (ms : List (Miner N))
        → length squares ≡ 25
        → d.miner.deployed ≡ replicate 25 0
        → length d.miner.cumulative ≡ 25
        → ((k : ℕ) → get_or d.miner.cumulative k 0 ≤ get_or d.round.deployed k 0)
        → deploy_squares b 0 squares d ≡ ok d'
        → Played d.round ms
        → Played d'.round (d'.miner ∷ ms)

module _ {N : Type 0} where
  -- the ranges of the miners on a square lie end to end, and end at `n`
  abbrev pub Tiles : ℕ → List (Miner N) → ℕ → Type 0
  Tiles k [] n = n ≡ 0
  Tiles k (m ∷ ms) n =
      (before : ℕ) × Tiles k ms before
      × (n ≡ before + get_or m.deployed k 0)
      × (get_or m.cumulative k 0 ≤ before)
      × (0 < get_or m.deployed k 0 → get_or m.cumulative k 0 ≡ before)

  -- the sample is in the miner's range
  abbrev pub holds : ℕ → ℕ → Miner N → Bool
  holds k sample m =
      leb (get_or m.cumulative k 0) sample
      && ltb sample (get_or m.cumulative k 0 + get_or m.deployed k 0)

  abbrev pub holders : ℕ → ℕ → List (Miner N) → ℕ
  holders k sample = sum_by (λ m. if holds k sample m then 1 else 0)

  Tiles-outside : (k s n : ℕ) (ms : List (Miner N)) → Tiles k ms n → n ≤ s → holders k s ms ≡ 0
  Tiles-outside k s n [] t h = refl
  Tiles-outside k s n (m ∷ ms) (before, t, e, within, starts) h =
      let rest = Tiles-outside k s before ms t (omega arith) in ground arith

  pub Tiles-holders : (k s n : ℕ) (ms : List (Miner N)) → Tiles k ms n → s < n → holders k s ms ≡ 1
  Tiles-holders k s n [] t h = absurd (omega arith)
  Tiles-holders k s n (m ∷ ms) (before, t, e, within, starts) h = elim (Bool-cases (ltb s before)) [
    | inl c ↦ let rest = Tiles-holders k s before ms t (ground arith) in ground arith
    | inr c ↦
        let past : before ≤ s = ground arith in
        let rest = Tiles-outside k s before ms t past in
        let mine : get_or m.cumulative k 0 ≡ before = starts (omega arith) in ground arith
  ]

module _ {N A : Type 0} where
  Played-length : (r : Round) (ms : List (Miner N)) → Played A r ms → length r.deployed ≡ 25
  Played-length _ [] (fresh_round r e t) = rw e (length-zeros 25)
  Played-length _ (_ ∷ _) (play b squares d d' ms l z c w h p) =
      let known = Played-length d.round ms p in
      let own : length d.miner.deployed ≡ 25 = rw z (length-zeros 25) in
      (deploy_squares_sums b 0 squares d d' (omega arith) (omega arith) h).round_length ∙ known

  -- On every square of a round that was played so, the ranges of its miners lie end to end from nothing
  -- to the square's total.
  pub Played-Tiles :
      (k : ℕ) (r : Round) (ms : List (Miner N))
      → k < 25
      → Played A r ms
      → Tiles k ms (get_or r.deployed k 0)
  Played-Tiles k _ [] lt (fresh_round r e t) = rw e (get_or-zeros 25 k)
  Played-Tiles k _ (_ ∷ _) lt (play b squares d d' ms l z c w h p) =
      let before = get_or d.round.deployed k 0 in
      let none_yet : get_or d.miner.deployed k 0 ≡ 0 = rw z (get_or-zeros 25 k) in
      let own : length d.miner.deployed ≡ 25 = rw z (length-zeros 25) in
      let start : Lined k before d = record {
        gained = omega arith;
        starts = λ some. absurd (omega arith);
        within = w k;
        in_round = omega (arith, Played-length d.round ms p);
        in_miner = omega arith;
        in_cumulative = omega arith;
      } in
      let end = deploy_squares-Lined b 0 k before squares d d' h start in
      (before, Played-Tiles k d.round ms lt p, end.gained, end.within, end.starts)

  -- A round that was played so has 25 squares, whose amounts add up to its total, and to what its miners
  -- deployed.
  pub Played-totals :
      (r : Round) (ms : List (Miner N))
      → Played A r ms
      → (length r.deployed ≡ 25)
        × (sum r.deployed ≡ r.total_deployed)
        × (sum_by (λ m. sum m.deployed) ms ≡ r.total_deployed)
  Played-totals _ [] (fresh_round r e t) = (rw e (length-zeros 25), rw (e, t) (sum-zeros 25), sym t)
  Played-totals _ (_ ∷ _) (play b squares d d' ms l z c w h p) =
      let (n, s, t) = Played-totals d.round ms p in
      let own : length d.miner.deployed ≡ 25 = rw z (length-zeros 25) in
      let nothing : sum d.miner.deployed ≡ 0 = rw z (sum-zeros 25) in
      let adds = deploy_squares_sums b 0 squares d d' (omega arith) (omega arith) h in
      (
        adds.round_length ∙ n,
        omega (arith, adds.round_sum, adds.round_total),
        omega (arith, adds.miner_sum, adds.round_total),
      )
