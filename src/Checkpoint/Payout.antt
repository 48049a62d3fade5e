-- ===== src/Checkpoint/Payout.antt =====
-- What the winners of a round can be credited, against what the round holds.
use native.Mathlib.Nat.{
  mul-le-mul, le_refl, div-mul-le_self, le_of_mul-le-mul_right, div-lt_iff_lt-mul,
}
use godl_program.Base.{
  ℕ, ◌+◌, ◌*◌, ◌/◌, ◌%◌, ◌<◌, ◌≤◌, ◌≡◌, List, [], ◌∷◌, Result, ok, arith, sym, >>=-eq-ok, ap,
  ok-injective, sum, length, u64_mod, u128_mod, mul_u128, checked_sub, max, ◌>>=◌,
  invalid_instruction_data, u64_max,
}
use godl_program.Checkpoint.{pro_rata, deployment_fee, sol_reward}

pro_rata-le : (a b c n : ℕ) → 0 < c → pro_rata a b c ≡ ok n → n * c ≤ a * b
unfolding pro_rata
pro_rata-le a b c n pos h =
    let (p, e₁, h₁) = >>=-eq-ok (mul_u128 a b) _ h in
    let product : p ≡ a * b = ground arith in
    let share : n ≡ p / c % u64_mod = sym (ok-injective _ _ h₁) in
    let small : n ≤ p / c = omega arith in
    omega (arith, div-mul-le_self p c, mul-le-mul small (le_refl c))

-- A share of `a`, for a part `b` of a whole `c`, is computed without overflow and is `a * b / c`,
-- rounded down.
pub pro_rata_exact :
    (a b c : ℕ) → a < u64_mod → b ≤ c → 0 < c → c < u64_mod → pro_rata a b c ≡ ok (a * b / c)
unfolding pro_rata
pro_rata_exact a b c small part pos bound =
    let most : a * b ≤ u64_max * c = mul-le-mul (omega arith) part in
    let fits : a * b < u128_mod = omega arith in
    let share : a * b / c < u64_mod = (div-lt_iff_lt-mul pos).1 (omega arith) in ground arith

deployment_fee-eq-ok : (d n : ℕ) → deployment_fee d ≡ ok n → n ≡ max (d * 150 / 10000) 1
unfolding deployment_fee
deployment_fee-eq-ok d n h = ground arith

-- A winner is credited the deployment less its fee, and the share of the winnings.
sol_reward-eq-ok :
    (d total winnings n : ℕ)
    → sol_reward d total winnings ≡ ok n
    → (share : ℕ) × (pro_rata winnings d total ≡ ok share)
      × (n + max (d * 150 / 10000) 1 ≡ d + share)
unfolding sol_reward
sol_reward-eq-ok d total winnings n h =
    let (fee, e₁, h₁) = >>=-eq-ok (deployment_fee d) _ h in
    let (base, e₂, h₂) = >>=-eq-ok (checked_sub d fee invalid_instruction_data) _ h₁ in
    let (share, e₃, h₃) = >>=-eq-ok (pro_rata winnings d total) _ h₂ in
    let is_fee = deployment_fee-eq-ok d fee e₁ in (share, e₃, ground arith)

-- what all the deployments of a list on the winning square are credited
unfoldable pub sol_rewards : List ℕ → ℕ → ℕ → Result ℕ
sol_rewards [] total winnings = ok 0
sol_rewards (d ∷ ds) total winnings = do
  n ← sol_reward d total winnings
  rest ← sol_rewards ds total winnings
  ok (n + rest)

-- the fees that are kept of these deployments
abbrev pub fees_kept : List ℕ → ℕ
fees_kept [] = 0
fees_kept (d ∷ ds) = max (d * 150 / 10000) 1 + fees_kept ds

-- the fees, with the winnings spread over `total`
sol_rewards-le :
    (ds : List ℕ) (total winnings n : ℕ)
    → 0 < total
    → sol_rewards ds total winnings ≡ ok n
    → (n + fees_kept ds) * total ≤ (sum ds) * total + winnings * sum ds
unfolding sol_rewards
sol_rewards-le [] total w n pos h = ground arith
sol_rewards-le (d ∷ ds) total w n pos h =
    let (x, e₁, h₁) = >>=-eq-ok (sol_reward d total w) _ h in
    let (rest, e₂, h₂) = >>=-eq-ok (sol_rewards ds total w) _ h₁ in
    let (share, e₃, split) = sol_reward-eq-ok d total w x e₁ in
    let sum_n : n ≡ x + rest = sym (ok-injective _ _ h₂) in
    let below = pro_rata-le w d total share pos e₃ in
    let others = sol_rewards-le ds total w rest pos e₂ in
    let scaled : (x + max (d * 150 / 10000) 1) * total ≡ (d + share) * total =
      ap (λ k. k * total) split in
    rw sum_n (grind arith)

-- Deployments on the winning square that add up to at most its total are credited at most
-- themselves and the winnings, less the fees.
pub sol_rewards_within :
    (ds : List ℕ) (total winnings n : ℕ)
    → 0 < total
    → sum ds ≤ total
    → sol_rewards ds total winnings ≡ ok n
    → n + fees_kept ds ≤ sum ds + winnings
sol_rewards_within ds total w n pos part h =
    let scaled = sol_rewards-le ds total w n pos h in
    let spread = mul-le-mul (le_refl w) part in
    let all : (n + fees_kept ds) * total ≤ (sum ds + w) * total = grind arith in
    le_of_mul-le-mul_right all pos

pub fees_kept-ge : (ds : List ℕ) → sum ds * 150 ≤ fees_kept ds * 10000 + 9999 * length ds
fees_kept-ge [] = omega arith
fees_kept-ge (d ∷ ds) = omega (arith, fees_kept-ge ds)
