-- ===== src/Reset/Coverage.antt =====
-- The SOL that a round pays out in all: when it is closed, and to its winners.
use godl_program.Base.{
  ℕ, false, ◌+◌, ◌*◌, ◌/◌, ◌<◌, ◌≤◌, ◌≡◌, some, List, Result, ok, arith, ◌==◌, ◌∙◌, >>=-eq-ok,
  get_or, sum, length, ok-functional, u64_mod,
}
use godl_program.Consts.{admin_fee_bps, sol_motherlode_bps}
use godl_program.Round.{Config, Round, winning_square, calculate_total_winnings}
use godl_program.Round.Draw.{total_winnings_exact}
use godl_program.Treasury.{Treasury}
use godl_program.Gold.{SolMotherlode}
use godl_program.Runtime.{Effect, Steel}
use godl_program.Checkpoint.Payout.{sol_rewards, sol_rewards_within, fees_kept-ge}
use godl_program.Reset.{Accounts, resolve, bps_of, divide, Division}
use godl_program.Runtime.Flows.{outflow}
use godl_program.Reset.Outflow.{PaysFee, NamesOnly, Books, pay_winners-Books}
use godl_program.Reset.Books.{bps_of-eq-ok}

divide-eq-ok :
    (losing : ℕ) (d : Division)
    → divide losing ≡ ok d
    → (d.fees + d.vault + d.winnings ≡ losing) × (d.fees ≡ losing * 150 / 10000)
unfolding divide bps_of
divide-eq-ok losing d h = ground arith

module _ {N A : Type 0} (steel : Steel N A) where
  Books-within :
      (r r' : Round) (t t' : Treasury N) (s s' : SolMotherlode) (admin lode square n : ℕ)
      (es : List (Effect A)) (ds : List ℕ)
      → Books steel r r' t t' s s' admin lode square es
      → ((losing : ℕ)
          → calculate_total_winnings r square ≡ ok losing
          → losing + get_or r.deployed square 0 ≡ r.total_deployed)
      → admin ≡ r.total_deployed * 50 / 10000
      → lode ≡ r.total_deployed * 100 / 10000
      → 0 < get_or r.deployed square 0
      → sum ds ≤ get_or r.deployed square 0
      → sol_rewards ds (get_or r.deployed square 0) r'.total_winnings ≡ ok n
      → outflow es + n ≤ r.total_deployed + length ds
  Books-within r r' t t' s s' admin lode square n es ds b whole is_admin is_lode pos part h =
      let (split, fees) = divide-eq-ok b.losing b.division b.divided in
      let total = whole b.losing b.total in
      let paid =
        sol_rewards_within ds (get_or r.deployed square 0) r'.total_winnings n pos part h in
      let kept = fees_kept-ge ds in let sent = b.sent in let winnings = b.winnings in omega arith

  -- Let the deployments of a round add up to its total, a u64, on 25 squares, and something be
  -- deployed on the winning square. Then what leaves the round when it is closed, together with what
  -- the checkpoints credit for any deployments that lie within the winning square's, is at most the
  -- round's total and one lamport for each of those deployments.
  pub round_covered :
      (a : Accounts steel) (c : Config) (supply : ℕ) (fee_sends : ℕ → List (Effect A))
      (top : Round → ℕ → ℕ → Result Round) (r r' : Round) (t t' : Treasury N) (s s' : SolMotherlode)
      (random n : ℕ) (es : List (Effect A)) (ds : List ℕ)
      → PaysFee fee_sends
      → NamesOnly top
      → length r.deployed ≡ 25
      → sum r.deployed ≡ r.total_deployed
      → r.total_deployed < u64_mod
      → let square = winning_square random in
        0 < get_or r.deployed square 0
        → sum ds ≤ get_or r.deployed square 0
        → resolve steel a c supply fee_sends top r t s (some random) ≡ ok (r', t', s', es)
        → sol_rewards ds (get_or r.deployed square 0) r'.total_winnings ≡ ok n
        → outflow es + n ≤ r.total_deployed + length ds
  unfolding resolve
  round_covered a c supply fs top r r' t t' s s' random n es ds pays names board whole fits pos part
        h paid =
      let total = r.total_deployed in
      let square = winning_square random in
      let (admin, e₁, h₁) = >>=-eq-ok (bps_of total admin_fee_bps) _ h in
      let (lode, e₂, h₂) = >>=-eq-ok (bps_of total sol_motherlode_bps) _ h₁ in
      let some_winner : (get_or r.deployed square 0 == 0) ≡ false = ground arith in
      let books =
        pay_winners-Books steel a c supply fs top r r' t t' s s' random square admin lode es pays
          names (rw some_winner at h₂) in
      let (losing, computed, makes_up) =
        total_winnings_exact r random board (omega (arith, whole, fits)) in
      Books-within r r' t t' s s' admin lode square n es ds books
        (λ l e. rw (ok-functional _ _ _ e computed) (makes_up ∙ whole))
        (bps_of-eq-ok total admin_fee_bps admin e₁) (bps_of-eq-ok total sol_motherlode_bps lode e₂)
        pos part paid
