-- ===== src/StakeV2/Rewards.antt =====
-- What a settlement of rewards adds, for one position and for many.
use godl_program.Base.{
  ℕ, ◌+◌, ◌-◌, ◌*◌, ◌≤◌, ◌<◌, ◌≡◌, List, [], ◌∷◌, Result, ok, arith, Bool-cases, inl, inr,
  >>=-eq-ok, ok-functional, ok-injective, ◌>>=◌, u64_mod, reject, panic,
}
use godl_program.Numeric.{Numeric, IsFixedPoint, one, raw_mod}
use godl_program.Numeric.Laws.{
  grown, earned_exact, earned_total, minus-not-negative, grown_zero, grown-le,
}
use godl_program.Treasury.{Treasury}
use godl_program.StakeV2.{StakeV2, weighted_units, accrue, update_rewards}
use godl_program.StakeV2.Ledger.{UnitsSum}

module _ {N : Type 0} ⦃num : Numeric N⦄ where
  unfoldable pub settle_all : List (StakeV2 N) → Treasury N → Result (List (StakeV2 N))
  settle_all [] t = ok []
  settle_all (s ∷ ss) t = do s' ← update_rewards s t; ss' ← settle_all ss t; ok (s' ∷ ss')

module _ {N : Type 0} ⦃num : Numeric N⦄ (laws : IsFixedPoint N num) where
  open laws use {raw, lt-raw}

  -- what a position with weight `u` is owed at the treasury's factor
  abbrev pub owed : StakeV2 N → Treasury N → ℕ → ℕ
  owed s t u = grown laws t.stake_rewards_factor s.rewards_factor u

  accrue_exact :
      (s s' : StakeV2 N) (t : Treasury N) (u : ℕ)
      → raw s.rewards_factor ≤ raw t.stake_rewards_factor
      → weighted_units s ≡ ok u
      → accrue s t ≡ ok s'
      → (s'.rewards ≡ s.rewards + owed s t u)
        × (s'.lifetime_rewards ≡ s.lifetime_rewards + owed s t u)
  unfolding accrue
  accrue_exact s s' t u up w h =
      let now = t.stake_rewards_factor in
      let (a, e₁, h₁) = >>=-eq-ok (num.minus now s.rewards_factor) _ h in
      let (_, e₂, h₂) = >>=-eq-ok (reject (num.lt a num.nought) panic) _ h₁ in
      let (v, e₃, h₃) = >>=-eq-ok (weighted_units s) _ h₂ in
      let (p, e₄, h₄) = >>=-eq-ok (num.times a (num.from_u64 v)) _ h₃ in
      let (n, e₅, h₅) = >>=-eq-ok (num.to_u64 p) _ h₄ in
      let same : v ≡ u = ok-functional _ v u e₃ w in
      let exact : n ≡ owed s t v = earned_exact laws now s.rewards_factor a p v n up e₁ e₄ e₅ in
      rw (← same, ← exact) (ground arith)

  -- A settlement adds to the rewards and to the lifetime rewards exactly what the position is owed,
  -- and moves its factor to the treasury's.
  pub update_rewards_exact :
      (s s' : StakeV2 N) (t : Treasury N) (u : ℕ)
      → weighted_units s ≡ ok u
      → update_rewards s t ≡ ok s'
      → (s'.rewards ≡ s.rewards + owed s t u)
        × (s'.lifetime_rewards ≡ s.lifetime_rewards + owed s t u)
        × (s'.rewards_factor ≡ t.stake_rewards_factor)
  unfolding update_rewards
  update_rewards_exact s s' t u w h =
      elim (Bool-cases (num.lt s.rewards_factor t.stake_rewards_factor)) [
        | inl e ↦
            let (s₁, e₁, h₁) = >>=-eq-ok (accrue s t) _ (rw e at h) in
            let up : raw s.rewards_factor ≤ raw t.stake_rewards_factor =
              ground (arith, lt-raw s.rewards_factor t.stake_rewards_factor) in
            ground (arith, accrue_exact s s₁ t u up w e₁)
        | inr e ↦
            let same : raw t.stake_rewards_factor ≤ raw s.rewards_factor =
              ground (arith, lt-raw s.rewards_factor t.stake_rewards_factor) in
            let none_owed : owed s t u ≡ 0 =
              grown_zero laws t.stake_rewards_factor s.rewards_factor u same in
            rw none_owed (ground arith)
      ]

  -- The settlement returns if the two sums fit a u64 and the growth times the weight fits the
  -- fixed-point type.
  pub update_rewards_total :
      (s : StakeV2 N) (t : Treasury N) (u : ℕ)
      → weighted_units s ≡ ok u
      → (raw t.stake_rewards_factor - raw s.rewards_factor) * u < raw_mod
      → s.rewards + owed s t u < u64_mod
      → s.lifetime_rewards + owed s t u < u64_mod
      → (s' : StakeV2 N) × (update_rewards s t ≡ ok s')
  unfolding update_rewards accrue
  update_rewards_total s t u w fits h k =
      elim (Bool-cases (num.lt s.rewards_factor t.stake_rewards_factor)) [
        | inl e ↦
            let now = t.stake_rewards_factor in
            let up : raw s.rewards_factor ≤ raw now = ground (arith, lt-raw s.rewards_factor now) in
            let (a, p, h₁, h₂, h₃) =
              earned_total laws now s.rewards_factor u up fits (omega arith) in
            let settled = record s {
              rewards = s.rewards + owed s t u;
              lifetime_rewards = s.lifetime_rewards + owed s t u;
              rewards_factor = now;
            } in
            (settled, rw (e, h₁, minus-not-negative laws a, w, h₂, h₃) (ground arith))
        | inr e ↦ (record s { rewards_factor = t.stake_rewards_factor }, rw e)
      ]

  abbrev pub pending : List (StakeV2 N) → ℕ
  pending [] = 0
  pending (s ∷ ss) = s.rewards + pending ss

  -- every position was settled when the factor stood at `floor` or later
  abbrev pub SettledSince : ℕ → List (StakeV2 N) → Type 0
  SettledSince floor [] = Unit {0}
  SettledSince floor (s ∷ ss) = (floor ≤ raw s.rewards_factor) × SettledSince floor ss

  -- Settle any positions whose weights add up to `n` and that were settled before at a factor no
  -- lower than `floor`: what is added to their rewards, in units of the fixed point, is at most
  -- the growth of the factor since `floor` times `n`.
  pub settle_all_solvent :
      (ss ss' : List (StakeV2 N)) (t : Treasury N) (n floor : ℕ)
      → UnitsSum ss n
      → SettledSince floor ss
      → settle_all ss t ≡ ok ss'
      → pending ss' * one ≤ pending ss * one + (raw t.stake_rewards_factor - floor) * n
  unfolding settle_all
  settle_all_solvent [] ss' t n floor sum since h = ground arith
  settle_all_solvent (s ∷ ss) ss' t n floor (u, m, w, rest, e) (start, since) h =
      let (s₁, e₁, h₁) = >>=-eq-ok (update_rewards s t) _ h in
      let (ss₁, e₂, h₂) = >>=-eq-ok (settle_all ss t) _ h₁ in
      let now = t.stake_rewards_factor in
      let same : s₁ ∷ ss₁ ≡ ss' = ok-injective _ _ h₂ in
      let later = settle_all_solvent ss ss₁ t m floor rest since e₂ in
      let (added, _, _) = update_rewards_exact s s₁ t u w e₁ in
      rw (← same, e) (omega (arith, later, added, grown-le laws now s.rewards_factor u floor start))
