-- ===== src/Bury/Shares.antt =====
-- Where the GODL that is buried goes.
use godl_program.Base.{
  ℕ, ◌+◌, ◌*◌, ◌/◌, ◌≡◌, Bool, true, false, List, [], ◌∷◌, ◌++◌, ok, arith, sym, ap, ◌∙◌, >>=-eq-ok,
  ok-injective_pair, refl, Bool-cases, inl, inr, ◌<◌, ◌>>=◌, Result, ◌-◌, mul_u64, sub_u64, ltb,
  if◌then◌else◌, ◌==◌,
}
use godl_program.Consts.{stakers_bps, admin_bps, denominator_bps}
use godl_program.Numeric.{Numeric, IsFixedPoint, one}
use godl_program.Treasury.{Treasury}
use godl_program.Runtime.{Steel, Effect, transfer, burn}
use godl_program.Bury.{Accounts, share, spread}

-- the tokens that are transferred or burnt
abbrev pub removed : {A : Type 0} → List (Effect A) → ℕ
removed [] = 0
removed (transfer from to n ∷ es) = n + removed es
removed (burn a n ∷ es) = n + removed es
removed (_ ∷ es) = removed es

module _ {N : Type 0} where
  -- what the stakers get, in all and for each unit of weight
  abbrev pub stakers_part : ℕ → Treasury N → ℕ
  stakers_part amount t = if t.total_staked == 0 then 0 else amount * 3 / 100

  abbrev pub growth : ℕ → Treasury N → ℕ
  growth amount t = if t.total_staked == 0 then 0 else amount * 3 / 100 * one / t.total_staked

module _ {N : Type 0} ⦃num : Numeric N⦄ (laws : IsFixedPoint N num) where
  open laws use {raw, raw-plus, raw-from_fraction}

  -- only the factor is raised, by the growth
  record Shared (amount shared : ℕ) (t t' : Treasury N) : Type 0 where
    part : shared ≡ stakers_part amount t
    raised : raw t'.stake_rewards_factor ≡ raw t.stake_rewards_factor + growth amount t
    only : t' ≡ record t { stake_rewards_factor = t'.stake_rewards_factor }

  -- the end of `share`
  abbrev raise : ℕ → Treasury N → Result (ℕ × Treasury N)
  raise shared t = do
    fraction ← num.from_fraction shared t.total_staked
    factor ← num.plus t.stake_rewards_factor fraction
    ok (shared, record t { stake_rewards_factor = factor })

  raise-Shared :
      (amount shared x : ℕ) (t t' : Treasury N)
      → t.total_staked == 0 ≡ false
      → shared ≡ amount * 3 / 100
      → raise shared t ≡ ok (x, t')
      → Shared amount x t t'
  raise-Shared amount shared x t t' some_staked part h =
      let (fraction, e₁, h₁) = >>=-eq-ok (num.from_fraction shared t.total_staked) _ h in
      let (factor, e₂, h₂) = >>=-eq-ok (num.plus t.stake_rewards_factor fraction) _ h₁ in
      let (number, same) = ok-injective_pair shared x _ t' h₂ in
      let positive : 0 < t.total_staked = ground arith in
      let first = raw-from_fraction shared t.total_staked fraction positive e₁ in
      let second = raw-plus t.stake_rewards_factor fraction factor e₂ in
      rw (← same, ← number)
        (record {
          part = rw some_staked part;
          raised = rw (some_staked, second, first, part) refl;
          only = refl;
        })

  still-Shared :
      (amount : ℕ) (t : Treasury N)
      → stakers_part amount t ≡ 0
      → growth amount t ≡ 0
      → Shared amount 0 t t
  still-Shared amount t p q = record { part = sym p; raised = rw q (omega arith); only = refl }

  staked-Shared :
      (always : Bool) (amount shared x : ℕ) (t t' : Treasury N)
      → t.total_staked == 0 ≡ false
      → shared ≡ amount * 3 / 100
      → (if always then raise shared t else if shared == 0 then ok (shared, t) else raise shared t)
        ≡ ok (x, t')
      → Shared amount x t t'
  staked-Shared true amount shared x t t' e part h = raise-Shared amount shared x t t' e part h
  staked-Shared false amount shared x t t' e part h = elim (Bool-cases (shared == 0)) [
    | inl z ↦
        let (p, q) = ok-injective_pair shared x t t' (rw z at h) in
        let empty : amount * 3 / 100 ≡ 0 = ground arith in
        let none : x ≡ 0 = ground arith in
        rw (none, ← q) (still-Shared amount t (rw (e, empty) refl) (rw (e, empty) (omega arith)))
    | inr z ↦ raise-Shared amount shared x t t' e part (rw z at h)
  ]

  share-Shared :
      (always : Bool) (amount shared : ℕ) (t t' : Treasury N)
      → share always amount t ≡ ok (shared, t')
      → Shared amount shared t t'
  unfolding share
  share-Shared always amount shared t t' h = elim (Bool-cases (t.total_staked == 0)) [
    | inl e ↦
        let (p, q) = ok-injective_pair 0 shared t t' (rw e at h) in
        rw (← p, ← q) (still-Shared amount t (rw e refl) (rw e refl))
    | inr e ↦
        let (scaled, e₁, h₁) = >>=-eq-ok (mul_u64 amount stakers_bps) _ (rw e at h) in
        let part : scaled / denominator_bps ≡ amount * 3 / 100 = ground arith in
        staked-Shared always amount (scaled / denominator_bps) shared t t' e part h₁
  ]

module _ {N A : Type 0} ⦃num : Numeric N⦄ (steel : Steel N A) where
  removed_parts :
      (a : Accounts steel) (warchest : Bool) (x y : ℕ)
      → removed (
          (if ltb 0 x then transfer a.treasury_godl_info a.admin_godl_info x ∷ [] else [])
          ++ (if ltb 0 y
              then ((if warchest
                    then transfer a.treasury_godl_info a.warchest_godl_info y
                    else burn a.treasury_godl_info y)
                  ∷ [])
              else []))
        ≡ x + y
  removed_parts a true x y = ground arith
  removed_parts a false x y = ground arith

  calls_of :
      (a : Accounts steel) (warchest : Bool) (x y z : ℕ)
      → x ≡ 0
      → y ≡ z
      → (if ltb 0 x then transfer a.treasury_godl_info a.admin_godl_info x ∷ [] else [])
          ++ (if ltb 0 y
              then ((if warchest
                    then transfer a.treasury_godl_info a.warchest_godl_info y
                    else burn a.treasury_godl_info y)
                  ∷ [])
              else [])
        ≡ (if ltb 0 z
            then ((if warchest
                  then transfer a.treasury_godl_info a.warchest_godl_info z
                  else burn a.treasury_godl_info z)
                ∷ [])
            else [])
  calls_of a warchest x y z p q = rw (p, q) refl

  -- Of what is buried, three percent, rounded down, are the stakers', if anything is staked; they
  -- stay in the treasury's token account, and the stakers' factor, and nothing else of the treasury,
  -- is raised by this part for each unit of weight, in units of the last place, rounded down. All the
  -- rest leaves the treasury's token account: it goes to the warchest's, or is burnt if there is none.
  pub spread_all :
      (laws : IsFixedPoint N num) (a : Accounts steel) (always warchest : Bool) (amount : ℕ)
      (t t' : Treasury N) (es : List (Effect A))
      → spread steel a always warchest amount t ≡ ok (t', es)
      → (removed es + stakers_part amount t ≡ amount)
        × (laws.raw t'.stake_rewards_factor ≡ laws.raw t.stake_rewards_factor + growth amount t)
        × (t' ≡ record t { stake_rewards_factor = t'.stake_rewards_factor })
        × (es ≡ (
            if ltb 0 (amount - stakers_part amount t)
            then ((if warchest
                  then transfer a.treasury_godl_info a.warchest_godl_info
                      (amount - stakers_part amount t)
                  else burn a.treasury_godl_info (amount - stakers_part amount t))
                ∷ [])
            else []))
  unfolding spread
  spread_all laws a always warchest amount t t' es h =
      let ((shared, t₁), e₁, h₁) = >>=-eq-ok (share always amount t) _ h in
      let (scaled, e₂, h₂) = >>=-eq-ok (mul_u64 amount admin_bps) _ h₁ in
      let (unshared, e₃, h₃) = >>=-eq-ok (sub_u64 amount shared) _ h₂ in
      let (rest, e₄, h₄) = >>=-eq-ok (sub_u64 unshared (scaled / denominator_bps)) _ h₃ in
      let nothing : scaled / denominator_bps ≡ 0 = ground arith in
      let (same, sent) = ok-injective_pair t₁ t' _ es h₄ in
      let parts = removed_parts a warchest (scaled / denominator_bps) rest in
      let total : removed es ≡ scaled / denominator_bps + rest = ap removed (sym sent) ∙ parts in
      let k = share-Shared laws always amount shared t t₁ e₁ in
      let left : rest ≡ amount - stakers_part amount t = rw (← k.part) (ground (arith, nothing)) in
      (
        rw (← k.part) (ground (arith, total, nothing)),
        rw (← same) k.raised,
        rw (← same) k.only,
        sym sent
            ∙ calls_of a warchest (scaled / denominator_bps) rest (amount - stakers_part amount t)
                nothing left,
      )
