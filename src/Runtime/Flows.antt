-- ===== src/Runtime/Flows.antt =====
-- What the calls that a handler makes move: GODL between token accounts, and lamports.
use godl_program.Base.{ℕ, ◌+◌, ◌≡◌, refl, Bool, true, false, List, [], ◌∷◌, ◌++◌, arith}
use godl_program.Runtime.{Effect, send, collect, transfer, create, open_tokens}

module _ {A : Type 0} where
  abbrev total : (Effect A → ℕ) → List (Effect A) → ℕ
  total moved [] = 0
  total moved (e ∷ es) = moved e + total moved es

  total-++ :
      (moved : Effect A → ℕ) (xs ys : List (Effect A))
      → total moved (xs ++ ys) ≡ total moved xs + total moved ys
  total-++ moved [] ys = omega arith
  total-++ moved (x ∷ xs) ys = omega (arith, total-++ moved xs ys)

  abbrev tokens : Effect A → ℕ
  tokens (transfer from to n) = n
  tokens _ = 0

  abbrev sent : Effect A → ℕ
  sent (send from n to) = n
  sent _ = 0

  abbrev gathered : Effect A → ℕ
  gathered (collect to n from) = n
  gathered _ = 0

  -- the tokens that transfers move
  abbrev pub token_flow : List (Effect A) → ℕ
  token_flow = total tokens

  -- the lamports that the program's accounts send
  abbrev pub outflow : List (Effect A) → ℕ
  outflow = total sent

  -- the lamports that are collected from payers
  abbrev pub collected : List (Effect A) → ℕ
  collected = total gathered

  pub token_flow-++ :
      (xs ys : List (Effect A)) → token_flow (xs ++ ys) ≡ token_flow xs + token_flow ys
  token_flow-++ = total-++ tokens

  pub outflow-++ : (xs ys : List (Effect A)) → outflow (xs ++ ys) ≡ outflow xs + outflow ys
  outflow-++ = total-++ sent

  pub collected-++ : (xs ys : List (Effect A)) → collected (xs ++ ys) ≡ collected xs + collected ys
  collected-++ = total-++ gathered

  -- does a call only open an account?
  abbrev opens : Effect A → Bool
  opens (create _ _ _) = true
  opens (open_tokens _ _) = true
  opens _ = false

  abbrev pub IsOpening : List (Effect A) → Type 0
  IsOpening [] = Unit
  IsOpening (e ∷ es) = (opens e ≡ true) × IsOpening es

  opens-tokens : (e : Effect A) → opens e ≡ true → tokens e ≡ 0
  opens-tokens (transfer from to n) p = cc
  opens-tokens (create _ _ _) p = refl
  opens-tokens (open_tokens _ _) p = refl
  opens-tokens _ p = cc

  pub IsOpening-++ : (xs ys : List (Effect A)) → IsOpening xs → IsOpening ys → IsOpening (xs ++ ys)
  IsOpening-++ [] ys p q = q
  IsOpening-++ (x ∷ xs) ys (e, p) q = (e, IsOpening-++ xs ys p q)

  pub IsOpening-token_flow : (es : List (Effect A)) → IsOpening es → token_flow es ≡ 0
  IsOpening-token_flow [] p = refl
  IsOpening-token_flow (e ∷ es) (x, p) = omega (arith, opens-tokens e x, IsOpening-token_flow es p)
