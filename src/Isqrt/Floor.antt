-- ===== src/Isqrt/Floor.antt =====
-- `isqrt_u128` against the square root.
use mathlib.Core.WellFounded.{Acc}
use native.Mathlib.Nat.{pow-suc, mul-le-mul, le_refl}
use native.Mathlib.Numerals.{add-one}
use native.Mathlib.Bridge.{le_prop}
use mathlib.Core.Logic.{dif_pos, dif_neg}
use godl_program.Base.{
  ℕ, zero, suc, ◌+◌, ◌-◌, ◌*◌, ◌/◌, ◌^◌, ◌≤◌, ◌<◌, ◌≡◌, Bool-cases, inl, inr, arith, ◌==◌, dec_lt,
}
use godl_program.Base.Order.{lt_wf}
use godl_program.Isqrt.{bit_length, div_ceil_two, newton, newton_from, isqrt_u128}

-- The mean of two numbers is at least their geometric mean.
four_mul_le_sq : (x k : ℕ) → 4 * (x * k) ≤ (x + k) * (x + k)
four_mul_le_sq x k = elim (dec_lt x k) [
  | yes p ↦ let e : k ≡ x + (k - x) = omega arith in rw e (omega arith)
  | no p ↦ let e : x ≡ k + (x - k) = omega arith in rw e (omega arith)
]

-- The step from above stays above the root.
newton_step : (n x : ℕ) → 0 < x → let y = (x + n / x) / 2 in n < (y + 1) * (y + 1)
newton_step n x h =
    let q = n / x in
    let z = (x + q) / 2 + 1 in
    let above : x + (q + 1) ≤ 2 * z = omega arith in
    let below : n < x * (q + 1) = grind arith in
    omega (arith, mul-le-mul above above, four_mul_le_sq x (q + 1), below)

newton_exit : (n x : ℕ) → 0 < x → x ≤ (x + n / x) / 2 → x * x ≤ n
newton_exit n x h e =
    let q = n / x in
    let up : x ≤ q = omega arith in
    let div : x * q ≤ n = grind arith in grind (arith, mul-le-mul (le_refl x) up)

root_pos : (n y : ℕ) → 0 < n → n < (y + 1) * (y + 1) → 0 < y
root_pos n zero p h = omega arith
root_pos n (suc y) p h = omega arith

pub newton_floor :
    (n x : ℕ) (w : Acc ◌<◌ x)
    → 0 < n
    → 0 < x
    → n < (x + 1) * (x + 1)
    → let r = newton n x w in (r * r ≤ n) × (n < (r + 1) * (r + 1))
unfolding newton
newton_floor n x (Acc.intro _ smaller) p h b =
    let y = (x + n / x) / 2 in
    let s = newton_step n x h in
    elim (dec_lt y x) [
      | yes e ↦ rw (dif_pos _ le_prop e _ _) (newton_floor n y (smaller y e) p (root_pos n y p s) s)
      | no e ↦ rw (dif_neg _ e _ _) (newton_exit n x h (omega arith), b)
    ]

two_pow_ceil : (b : ℕ) → 2 ^ b ≤ 2 ^ div_ceil_two b * 2 ^ div_ceil_two b
two_pow_ceil zero = omega arith
two_pow_ceil (suc zero) = omega arith
two_pow_ceil (suc (suc b)) =
    let e : div_ceil_two (suc (suc b)) ≡ suc (div_ceil_two b) = omega arith in
    rw (e, pow-suc, pow-suc, pow-suc) (omega (arith, two_pow_ceil b))

two_pow_add_one : (b : ℕ) → 2 ^ (b + 1) ≡ 2 * 2 ^ b
two_pow_add_one b = rw (add-one, pow-suc) (omega arith)

lt-bit_length : (w n : ℕ) → n < 2 ^ w → n < 2 ^ bit_length w n
unfolding bit_length
lt-bit_length zero n h = h
lt-bit_length (suc w) n h =
    ground (arith, lt-bit_length w (n / 2), pow-suc 2 w, two_pow_add_one (bit_length w (n / 2)))

two_pow_pos : (b : ℕ) → 0 < 2 ^ b
two_pow_pos zero = omega arith
two_pow_pos (suc b) = rw pow-suc (omega (arith, two_pow_pos b))

newton_from_floor :
    (n x : ℕ)
    → 0 < n
    → 0 < x
    → n < (x + 1) * (x + 1)
    → let r = newton_from n x in (r * r ≤ n) × (n < (r + 1) * (r + 1))
unfolding newton_from
newton_from_floor n x = newton_floor n x (lt_wf.apply x)

-- For every u128 the result is the floor of the square root.
pub isqrt_u128_floor :
    (n : ℕ) → n < 2 ^ 128 → let r = isqrt_u128 n in (r * r ≤ n) × (n < (r + 1) * (r + 1))
unfolding isqrt_u128
isqrt_u128_floor n h = elim (Bool-cases (n == 0)) [
  | inl e ↦ rw e (ground arith)
  | inr e ↦
      let b = bit_length 128 n in
      rw e (
        newton_from_floor n (2 ^ div_ceil_two b) (ground arith) (two_pow_pos (div_ceil_two b))
          (omega (arith, lt-bit_length 128 n h, two_pow_ceil b)))
]

-- The floor of the square root is determined by its two bounds.
pub floor_mono : (m n r s : ℕ) → m ≤ n → r * r ≤ m → n < (s + 1) * (s + 1) → r ≤ s
floor_mono m n r s h a b = elim (dec_lt s r) [
  | yes p ↦ absurd (omega (arith, mul-le-mul p p))
  | no p ↦ omega arith
]

pub isqrt_u128_mono : (m n : ℕ) → m ≤ n → n < 2 ^ 128 → isqrt_u128 m ≤ isqrt_u128 n
isqrt_u128_mono m n h b =
    floor_mono m n (isqrt_u128 m) (isqrt_u128 n) h (isqrt_u128_floor m (omega arith)).0
      (isqrt_u128_floor n b).1
