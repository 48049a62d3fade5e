-- ===== src/Squares/Choice.antt =====
-- How many squares a random mask chooses.
use native.Mathlib.Nat.{mul-le-mul, le_refl}
use godl_program.Base.{
  ℕ, zero, suc, ◌+◌, ◌-◌, ◌*◌, ◌<◌, ◌≤◌, ◌≡◌, refl, Bool, true, false, ◌&&◌, List, [], ◌∷◌, arith,
  All, length, ltb, dec_lt, Bool-cases, inl, inr,
}
use godl_program.Squares.{random_squares, generate_random_mask}

pub chosen : List Bool → ℕ
chosen [] = 0
chosen (true ∷ bs) = 1 + chosen bs
chosen (false ∷ bs) = chosen bs

-- whatever the byte, a square is picked if every remaining one is needed
abbrev picks : ℕ → ℕ → ℕ → Bool
picks byte positions needed = ltb 0 needed && ltb (byte * suc positions) (needed * 256)

must_pick : (byte p : ℕ) → byte < 256 → picks byte p (suc p) ≡ true
must_pick byte p h =
    let most : byte * suc p ≤ 255 * suc p = mul-le-mul (omega arith) (le_refl (suc p)) in
    ground arith

fewer_left : (byte p n : ℕ) → byte < 256 → n ≤ suc p → picks byte p n ≡ false → n ≤ p
fewer_left byte p n small h e = elim (dec_lt p n) [
  | yes more ↦
      let all : n ≡ suc p = omega arith in
      let picked : picks byte p n ≡ true = rw all (must_pick byte p small) in cc
  | no less ↦ omega arith
]

random_squares-chosen :
    (p n : ℕ) (bytes : List ℕ)
    → All (λ b. b < 256) bytes
    → p ≤ length bytes
    → n ≤ p
    → (chosen (random_squares p n bytes) ≡ n) × (length (random_squares p n bytes) ≡ p)
unfolding random_squares chosen
random_squares-chosen zero n bytes small enough h = (omega arith, refl)
random_squares-chosen (suc p) n [] small enough h = absurd (omega arith)
random_squares-chosen (suc p) n (byte ∷ bytes) (s, small) enough h =
    elim (Bool-cases (picks byte p n)) [
      | inl e ↦
          let some_needed : 0 < n = ground arith in
          let (c, l) = random_squares-chosen p (n - 1) bytes small (omega arith) (omega arith) in
          rw e (omega arith, omega arith)
      | inr e ↦
          let fewer : n ≤ p = fewer_left byte p n s h e in
          let (c, l) = random_squares-chosen p n bytes small (omega arith) fewer in
          rw e (omega arith, omega arith)
    ]

-- From any bytes, a random mask for at most 25 squares has 25 entries and chooses exactly as many
-- squares as asked for.
pub random_mask_exact :
    (n : ℕ) (bytes : List ℕ)
    → n ≤ 25
    → 25 ≤ length bytes
    → All (λ b. b < 256) bytes
    → (chosen (generate_random_mask n bytes) ≡ n) × (length (generate_random_mask n bytes) ≡ 25)
unfolding generate_random_mask
random_mask_exact n bytes h enough small = random_squares-chosen 25 n bytes small enough h
