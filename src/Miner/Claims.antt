-- ===== src/Miner/Claims.antt =====
-- What `claim_godl` and `update_rewards` do to a miner and to the treasury's totals.
use godl_program.Base.{
  ℕ, ◌+◌, ◌/◌, ◌<◌, ◌≡◌, ok, arith, Bool-cases, inl, inr, >>=-eq-ok, ok-injective_triple, add_u64,
  sub_u64, ◌==◌, if◌then◌else◌, ◌⊎◌,
}
use godl_program.Numeric.{Numeric}
use godl_program.Treasury.{Clock, Treasury}
use godl_program.Miner.{Miner, update_rewards, charge_fee, claim_godl}

-- the fee of a claim of `rewards` while the others hold `others`
abbrev pub fee_of : ℕ → ℕ → ℕ
fee_of rewards others = if others == 0 then 0 else rewards / 10

module _ {N : Type 0} ⦃num : Numeric N⦄ where
  charge_fee-eq-ok :
      (amount n r : ℕ) (m m' : Miner N) (t t' : Treasury N)
      → charge_fee amount r m t ≡ ok (n, m', t')
      → (n + fee_of r t'.total_unclaimed ≡ amount)
        × (t'.total_refined ≡ t.total_refined + fee_of r t'.total_unclaimed)
        × (t'.total_unclaimed ≡ t.total_unclaimed)
        × (m'.refined_godl ≡ m.refined_godl)
        × (m'.rewards_godl ≡ m.rewards_godl)
        × (m'.rewards_factor ≡ m.rewards_factor)
  unfolding charge_fee
  charge_fee-eq-ok a n r m m' t t' h = ground arith

  -- what a claim does to the factor that shares the fee out
  abbrev pub Charged : ℕ → Treasury N → Treasury N → Type 0
  Charged rewards t t' =
      ((t'.total_unclaimed ≡ 0) × (t'.miner_rewards_factor ≡ t.miner_rewards_factor))
      ⊎ ((q : N) × (0 < t'.total_unclaimed)
          × (num.from_fraction (rewards / 10) t'.total_unclaimed ≡ ok q)
          × (num.plus t.miner_rewards_factor q ≡ ok t'.miner_rewards_factor))

  charge_fee-Charged :
      (amount n r : ℕ) (m m' : Miner N) (t t' : Treasury N)
      → charge_fee amount r m t ≡ ok (n, m', t')
      → Charged r t t'
  unfolding charge_fee
  charge_fee-Charged a n r m m' t t' h = elim (Bool-cases (t.total_unclaimed == 0)) [
    | inl e ↦ let same = ok-injective_triple a n m m' t t' (rw e at h) in inl (ground arith)
    | inr e ↦
        let h₀ = rw e at h in
        let (left, _, h₁) = >>=-eq-ok (sub_u64 a (r / 10)) _ h₀ in
        let (q, e₂, h₂) = >>=-eq-ok (num.from_fraction (r / 10) t.total_unclaimed) _ h₁ in
        let (f, e₃, h₃) = >>=-eq-ok (num.plus t.miner_rewards_factor q) _ h₂ in
        charged_rest q f e₂ e₃ (ground arith) (ground arith) (ground arith)
  ]
    where
      charged_rest :
          (q f : N)
          → num.from_fraction (r / 10) t.total_unclaimed ≡ ok q
          → num.plus t.miner_rewards_factor q ≡ ok f
          → 0 < t.total_unclaimed
          → t'.total_unclaimed ≡ t.total_unclaimed
          → f ≡ t'.miner_rewards_factor
          → Charged r t t'
      charged_rest q f e₂ e₃ p u g = inr (q, rw u p, rw u e₂, rw (← g) e₃)

  -- A successful claim, by the settled miner.
  pub record Claimed (m : Miner N) (t : Treasury N) (n : ℕ) (m' : Miner N) (t' : Treasury N)
      : Type 0 where
    pub settled : Miner N
    pub settles : update_rewards m t ≡ ok settled
    pub unclaimed : t'.total_unclaimed + settled.rewards_godl ≡ t.total_unclaimed
    pub paid :
        n + fee_of settled.rewards_godl t'.total_unclaimed
        ≡ settled.refined_godl + settled.rewards_godl
    pub refined :
        t'.total_refined + settled.refined_godl
        ≡ t.total_refined + fee_of settled.rewards_godl t'.total_unclaimed
    pub rewards_taken : m'.rewards_godl ≡ 0
    pub refined_taken : m'.refined_godl ≡ 0
    pub factor : m'.rewards_factor ≡ settled.rewards_factor
    pub charged : Charged settled.rewards_godl t t'

  Claimed-parts :
      (m m₁ m' : Miner N) (c : Clock) (t t' : Treasury N) (n a u r : ℕ)
      → update_rewards m t ≡ ok m₁
      → add_u64 m₁.refined_godl m₁.rewards_godl ≡ ok a
      → sub_u64 t.total_unclaimed m₁.rewards_godl ≡ ok u
      → sub_u64 t.total_refined m₁.refined_godl ≡ ok r
      → charge_fee a m₁.rewards_godl
          (record m₁ { refined_godl = 0; rewards_godl = 0; last_claim_godl_at = c.unix_timestamp })
          (record t { total_unclaimed = u; total_refined = r })
        ≡ ok (n, m', t')
      → Claimed m t n m' t'
  Claimed-parts m m₁ m' c t t' n a u r e₁ e₂ e₃ e₄ h =
      let fee = charge_fee-eq-ok a n m₁.rewards_godl _ m' _ t' h in
      let all : a ≡ m₁.refined_godl + m₁.rewards_godl = ground arith in
      let taken : u + m₁.rewards_godl ≡ t.total_unclaimed = ground arith in
      let left : r + m₁.refined_godl ≡ t.total_refined = ground arith in
      record {
        settled = m₁;
        settles = e₁;
        unclaimed = omega (arith, fee.2);
        paid = omega (arith, fee.0);
        refined = omega (arith, fee.1);
        rewards_taken = fee.4;
        refined_taken = fee.3;
        factor = fee.5;
        charged =
            charge_fee-Charged a n m₁.rewards_godl _ m'
              (record t { total_unclaimed = u; total_refined = r }) t' h;
      }

  pub claim_godl-Claimed :
      (m m' : Miner N) (c : Clock) (t t' : Treasury N) (n : ℕ)
      → claim_godl m c t ≡ ok (n, m', t')
      → Claimed m t n m' t'
  unfolding claim_godl
  claim_godl-Claimed m m' c t t' n h =
      let (m₁, e₁, h₁) = >>=-eq-ok (update_rewards m t) _ h in
      let (a, e₂, h₂) = >>=-eq-ok (add_u64 m₁.refined_godl m₁.rewards_godl) _ h₁ in
      let (u, e₃, h₃) = >>=-eq-ok (sub_u64 t.total_unclaimed m₁.rewards_godl) _ h₂ in
      let (r, e₄, h₄) = >>=-eq-ok (sub_u64 t.total_refined m₁.refined_godl) _ h₃ in
      Claimed-parts m m₁ m' c t t' n a u r e₁ e₂ e₃ e₄ h₄

  -- A successful claim leaves the miner with nothing, and what it pays out leaves the treasury's
  -- two totals, no more and no less.
  pub claim_godl_conserves :
      (m m' : Miner N) (c : Clock) (t t' : Treasury N) (n : ℕ)
      → claim_godl m c t ≡ ok (n, m', t')
      → (n + t'.total_unclaimed + t'.total_refined ≡ t.total_unclaimed + t.total_refined)
        × (m'.rewards_godl ≡ 0)
        × (m'.refined_godl ≡ 0)
  claim_godl_conserves m m' c t t' n h =
      let claimed = claim_godl-Claimed m m' c t t' n h in
      (
        omega (arith, claimed.unclaimed, claimed.paid, claimed.refined),
        claimed.rewards_taken,
        claimed.refined_taken,
      )
