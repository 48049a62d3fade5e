-- ===== src/Otc/Stakes.antt =====
-- The position that a trade opens, and `total_staked`.
use godl_program.Base.{
  ℕ, ◌≡◌, sym, List, ok, >>=-eq-ok, ok-injective_quad, godl, insufficient_otc_godl_balance, require,
  ◌==◌,
}
use godl_program.Numeric.{Numeric}
use godl_program.Treasury.{Clock, Treasury}
use godl_program.StakeV2.{StakeV2, deposit}
use godl_program.StakeV2.Frame.{Tracks, Tracks-subst, deposit-Tracks, update_rewards-SameWeight}
use godl_program.Staking.{received}
use godl_program.Staking.Deposits.{fresh_stake}
use godl_program.Otc.Quotes.{Quote}
use godl_program.Otc.Trade.{TradeAccounts, open_stake_tokens, lock_in}
use godl_program.StakeV2
use godl_program.Runtime.{Steel, Effect}

module _ {N A : Type 0} ⦃num : Numeric N⦄ (steel : Steel N A) where
  -- `total_staked` follows the weight, from that of an empty position
  pub lock_in-Tracks :
      (a : TradeAccounts steel) (c : Clock) (q : Quote) (available held : ℕ) (s : StakeV2 N)
      (t t' : Treasury N) (es : List (Effect A))
      → lock_in steel a c q available t ≡ ok (s, t', held, es)
      → (s₀ : StakeV2 N) × (s₀.balance ≡ 0) × Tracks s₀ t s t'
  unfolding lock_in
  lock_in-Tracks a c q available held s t t' es h =
      let buyer = steel.key a.buyer_info in
      let s₀ = fresh_stake buyer buyer c q.stake_id q.lock_duration t in
      let (s₁, e₁, h₁) = >>=-eq-ok (StakeV2.update_rewards s₀ t) _ h in
      let ((had, opened), e₂, h₂) = >>=-eq-ok (open_stake_tokens steel a) _ h₁ in
      let ((n, s₂, t₂), e₃, h₃) = >>=-eq-ok (deposit s₁ q.godl_out c t available) _ h₂ in
      let (_, e₄, h₄) =
        >>=-eq-ok (require (n == q.godl_out) (godl insufficient_otc_godl_balance)) _ h₃ in
      let (v, e₅, h₅) = >>=-eq-ok (received had n) _ h₄ in
      let (p, r, _, _) = ok-injective_quad s₂ s t₂ t' v held _ es h₅ in
      let (empty, _, _, _) = update_rewards-SameWeight s₀ s₁ t e₁ in
      (
        s₁,
        sym empty,
        Tracks-subst s₁ s₂ s t t₂ t' p r (deposit-Tracks s₁ s₂ t t₂ q.godl_out n available c e₃),
      )
