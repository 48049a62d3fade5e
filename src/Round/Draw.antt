-- ===== src/Round/Draw.antt =====
-- The winning square, the losing squares' total and the sample for the top miner.
use native.Mathlib.Nat.{mod-lt, mul-le-mul, le_refl}
use godl_program.Base.{
  ℕ, Bool, zero, suc, ◌+◌, ◌/◌, ◌%◌, ◌^◌, ◌<◌, ◌≤◌, ◌≡◌, List, [], ◌∷◌, ok, arith, get_or, length,
  sum, u64_mod, ltb, ◌==◌, refl, Bool-cases, add_u64, >>=-eq-ok, ok-injective, inl, inr,
}
use godl_program.Round.{
  Round, winning_square, top_miner_sample, reverse_bits, winnings_from, calculate_total_winnings,
}

winnings_from-past :
    (ds : List ℕ) (i s t n : ℕ) → s < i → winnings_from ds i s t ≡ ok n → n ≡ t + sum ds
unfolding winnings_from
winnings_from-past [] i s t n h e = ground (arith, ok-injective t n e)
winnings_from-past (d ∷ ds) i s t n h e =
    let differs : (i == s) ≡ Bool.false = ground arith in
    let (t', e₁, e₂) = >>=-eq-ok (add_u64 t d) _ (rw differs at e) in
    let total : t' ≡ t + d = ground arith in
    omega (arith, winnings_from-past ds (i + 1) s t' n (omega arith) e₂)

winnings_from-exact :
    (ds : List ℕ) (i k s t n : ℕ)
    → s ≡ i + k
    → k < length ds
    → winnings_from ds i s t ≡ ok n
    → n + get_or ds k 0 ≡ t + sum ds
unfolding winnings_from
winnings_from-exact [] i k s t n at h e = omega arith
winnings_from-exact (d ∷ ds) i zero s t n at h e =
    let same : (i == s) ≡ Bool.true = ground arith in
    let rest = rw same at e in omega (arith, winnings_from-past ds (i + 1) s t n (omega arith) rest)
winnings_from-exact (d ∷ ds) i (suc k) s t n at h e =
    let differs : (i == s) ≡ Bool.false = ground arith in
    let (t', e₁, e₂) = >>=-eq-ok (add_u64 t d) _ (rw differs at e) in
    let total : t' ≡ t + d = ground arith in
    omega (arith, winnings_from-exact ds (i + 1) k s t' n (omega arith) (omega arith) e₂)

winnings_from-fits :
    (ds : List ℕ) (i s t : ℕ) → t + sum ds < u64_mod → (n : ℕ) × (winnings_from ds i s t ≡ ok n)
unfolding winnings_from
winnings_from-fits [] i s t h = (t, refl)
winnings_from-fits (d ∷ ds) i s t h = elim (Bool-cases (i == s)) [
  | inl e ↦ rw e (winnings_from-fits ds (i + 1) s t (omega arith))
  | inr e ↦
      let fits : ltb (t + d) u64_mod ≡ Bool.true = ground arith in
      rw (e, fits) (winnings_from-fits ds (i + 1) s (t + d) (omega arith))
]

-- On a board of 25 squares whose deployments add up to a u64, the losing squares' total is computed
-- without overflow, and with the deployment on the winning square it makes up all deployments.
pub total_winnings_exact :
    (r : Round) (random : ℕ)
    → length r.deployed ≡ 25
    → sum r.deployed < u64_mod
    → (losing : ℕ) × (calculate_total_winnings r (winning_square random) ≡ ok losing)
      × (losing + get_or r.deployed (winning_square random) 0 ≡ sum r.deployed)
unfolding calculate_total_winnings winning_square
total_winnings_exact r random board fits =
    let s = random % 25 in
    let (n, e) = winnings_from-fits r.deployed 0 s 0 (omega (arith, fits)) in
    let on_board : s < length r.deployed = omega arith in
    (n, e, omega (arith, winnings_from-exact r.deployed 0 s s 0 n (omega arith) on_board e))

-- The bits of a word of `w` bits, reversed, are a word of `w` bits.
pub reverse_bits-lt : (w n : ℕ) → reverse_bits w n < 2 ^ w
unfolding reverse_bits
reverse_bits-lt zero n = omega arith
reverse_bits-lt (suc w) n =
    let bit : n % 2 ≤ 1 = omega arith in
    grind (arith, reverse_bits-lt w (n / 2), mul-le-mul bit (le_refl (2 ^ w)))

-- The sample for the top miner lies below the total of the square, if anything is deployed there.
pub top_miner_sample-lt :
    (r : Round) (random square : ℕ)
    → 0 < get_or r.deployed square 0
    → top_miner_sample r random square < get_or r.deployed square 0
unfolding top_miner_sample
top_miner_sample-lt r random square pos = grind (arith, mod-lt)
