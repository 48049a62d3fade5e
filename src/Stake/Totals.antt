-- ===== src/Stake/Totals.antt =====
-- What the operations on a position of the first kind do to its balance and to the total.
use godl_program.Base.{ℕ, ◌+◌, ◌≡◌, min, ok, arith, >>=-eq-ok}
use godl_program.Numeric.{Numeric}
use godl_program.Treasury.{Clock, Treasury}
use godl_program.Stake.{Stake, accrue, update_rewards, claim, deposit, withdraw}

module _ {N : Type 0} ⦃num : Numeric N⦄ where
  update_rewards-balance :
      (s s' : Stake N) (t : Treasury N) → update_rewards s t ≡ ok s' → s'.balance ≡ s.balance
  unfolding update_rewards accrue
  update_rewards-balance s s' t h = ground arith

  -- A deposit returns what it moves, which is no more than was asked for and than the sender has, and
  -- the balance and the total grow by just that.
  pub stake_deposit_moves :
      (s s' : Stake N) (amount available n : ℕ) (c : Clock) (t t' : Treasury N)
      → deposit s amount c t available ≡ ok (n, s', t')
      → (n ≡ min available amount)
        × (s'.balance ≡ s.balance + n)
        × (t'.total_staked ≡ t.total_staked + n)
  unfolding deposit
  stake_deposit_moves s s' amount available n c t t' h =
      let (s₁, e₁, h₁) = >>=-eq-ok (update_rewards s t) _ h in
      let kept = update_rewards-balance s s₁ t e₁ in ground arith

  -- A withdrawal returns what it moves, which is no more than was asked for and than the balance, and
  -- the balance and the total fall by just that.
  pub stake_withdraw_moves :
      (s s' : Stake N) (amount n : ℕ) (c : Clock) (t t' : Treasury N)
      → withdraw s amount c t ≡ ok (n, s', t')
      → (n ≡ min s.balance amount)
        × (s'.balance + n ≡ s.balance)
        × (t'.total_staked + n ≡ t.total_staked)
  unfolding withdraw
  stake_withdraw_moves s s' amount n c t t' h =
      let (s₁, e₁, h₁) = >>=-eq-ok (update_rewards s t) _ h in
      let kept = update_rewards-balance s s₁ t e₁ in ground arith

  -- A claim leaves the balance.
  pub claim-balance :
      (s s' : Stake N) (amount n : ℕ) (c : Clock) (t : Treasury N)
      → claim s amount c t ≡ ok (n, s')
      → s'.balance ≡ s.balance
  unfolding claim
  claim-balance s s' amount n c t h =
      let (s₁, e₁, h₁) = >>=-eq-ok (update_rewards s t) _ h in
      let kept = update_rewards-balance s s₁ t e₁ in ground arith
