-- ===== src/Checkpoint/Once.antt =====
-- A second checkpoint of the same round.
use godl_program.Base.{
  ℕ, ◌≡◌, Option, some, none, Result, ok, arith, ◌==◌, refl, ◌∙◌, sym, Bool-cases, inl, inr,
  >>=-eq-ok, ok-injective, leb, not, ◌||◌, if◌then◌else◌,
}
use godl_program.Numeric.{Numeric}
use godl_program.Treasury.{Clock, Treasury}
use godl_program.Miner.{Miner, update_rewards, accrue, credit_settled}
use godl_program.Gold.{MinerExtended}
use godl_program.Round.{Board, Round, all_equal, rng}
use godl_program.Runtime.{Steel, round}
use godl_program.Checkpoint.{
  Accounts, Finish, unchanged, forfeited, paid, pay, finish_round, load_pool_member, take_bot_fee,
  round_rewards, pay_out,
}

module _ {N A : Type 0} ⦃num : Numeric N⦄ (steel : Steel N A) where
  abbrev Done : Miner N → Type 0
  Done m = m.checkpoint_id ≡ m.round_id

  pub finish_round-Done :
      (a : Accounts steel) (clock : Clock) (board : Board) (m : Miner N) (t : Treasury N)
      (gold : Miner N → ℕ → Result (Option (MinerExtended N)))
      → Done m
      → finish_round steel a clock board m t gold ≡ ok unchanged
  unfolding finish_round
  finish_round-Done a clock board m t gold done = ground arith

  update_rewards-round :
      (m m' : Miner N) (t : Treasury N) → update_rewards m t ≡ ok m' → m'.round_id ≡ m.round_id
  unfolding update_rewards accrue
  update_rewards-round m m' t h = ground arith

  credit_settled-Done :
      (m m' : Miner N) (id godl sol : ℕ) (t t' : Treasury N)
      → credit_settled m id godl sol t ≡ ok (m', t')
      → (m'.checkpoint_id ≡ id) × (m'.round_id ≡ m.round_id)
  unfolding credit_settled
  credit_settled-Done m m' id godl sol t t' h = ground arith

  -- a checkpoint that returns settles its round, if it writes the miner at all
  abbrev pub Settles : Finish steel → Type 0
  Settles unchanged = Unit
  Settles (forfeited m) = Done m
  Settles (paid p) = Done p.miner

  bot_fee-round :
      (clock : Clock) (r : Round) (m m' : Miner N) (fee : ℕ)
      → take_bot_fee steel clock r m ≡ ok (fee, m')
      → m'.round_id ≡ m.round_id
  unfolding take_bot_fee
  bot_fee-round clock r m m' fee h = ground arith

  pay-Settles :
      (a : Accounts steel) (clock : Clock) (m : Miner N) (t : Treasury N) (r : Round)
      (gold : Miner N → ℕ → Result (Option (MinerExtended N))) (f : Finish steel)
      → r.id ≡ m.round_id
      → pay steel a clock m t r gold ≡ ok f
      → Settles f
  unfolding pay
  pay-Settles a clock m t r gold f same h =
      let (p, e₁, h₁) = >>=-eq-ok (load_pool_member steel a m) _ h in
      elim (Bool-cases (leb r.expires_at clock.slot)) [
        | inl e ↦ rw (← ok-injective _ _ (rw e at h₁)) refl
        | inr e ↦
            let ((fee, m₁), e₂, h₂) = >>=-eq-ok (take_bot_fee steel clock r m) _ (rw e at h₁) in
            let ((sol, godl, r'), e₃, h₃) =
              >>=-eq-ok (round_rewards steel r m₁ p a.pool_round_info (rng r)) _ h₂ in
            let (m₂, e₄, h₄) = >>=-eq-ok (update_rewards m₁ t) _ h₃ in
            let (x, e₅, h₅) = >>=-eq-ok (gold m₂ godl) _ h₄ in
            let ((m₃, t'), e₆, h₆) = >>=-eq-ok (credit_settled m₂ r.id godl sol t) _ h₅ in
            let (es, e₇, h₇) = >>=-eq-ok (pay_out steel a m₃ sol fee) _ h₆ in
            let (at, kept) = credit_settled-Done m₂ m₃ r.id godl sol t t' e₆ in
            let done : Done m₃ =
              at
              ∙ same
              ∙ sym (bot_fee-round clock r m m₁ fee e₂)
              ∙ sym (update_rewards-round m₁ m₂ t e₄)
              ∙ sym kept in
            rw (← ok-injective _ _ h₇) done
      ]

  loaded-Settles :
      (a : Accounts steel) (clock : Clock) (board : Board) (m : Miner N) (t : Treasury N)
      (r : Round) (gold : Miner N → ℕ → Result (Option (MinerExtended N))) (f : Finish steel)
      → (if r.id == board.round_id || not (r.id == m.round_id) || all_equal 0 r.slot_hash
          then ok unchanged
          else pay steel a clock m t r gold)
        ≡ ok f
      → Settles f
  loaded-Settles a clock board m t r gold f h =
      elim (Bool-cases
        (r.id == board.round_id || not (r.id == m.round_id) || all_equal 0 r.slot_hash)) [
          | inl e ↦ rw (← ok-injective _ _ (rw e at h)) tt
          | inr e ↦
              let same : r.id ≡ m.round_id = ground arith in
              pay-Settles a clock m t r gold f same (rw e at h)
        ]

  finish_round-Settles :
      (a : Accounts steel) (clock : Clock) (board : Board) (m : Miner N) (t : Treasury N)
      (gold : Miner N → ℕ → Result (Option (MinerExtended N))) (f : Finish steel)
      → finish_round steel a clock board m t gold ≡ ok f
      → Settles f
  unfolding finish_round
  finish_round-Settles a clock board m t gold f h =
      elim (Bool-cases (m.checkpoint_id == m.round_id)) [
        | inl e ↦ rw (← ok-injective _ _ (rw e at h)) tt
        | inr e ↦
            let h₁ = rw e at h in
            elim (Bool-cases (steel.data_is_empty a.round_info)) [
              | inl gone ↦
                  let (_, _, h₂) =
                    >>=-eq-ok (steel.has_seeds a.round_info (round m.round_id)) _ (rw gone at h₁) in
                  rw (← ok-injective _ _ h₂) refl
              | inr held ↦
                  let (r, _, h₂) = >>=-eq-ok (steel.as_round a.round_info) _ (rw held at h₁) in
                  loaded-Settles a clock board m t r gold f h₂
            ]
      ]

  -- the miner as a checkpoint writes it, if it does
  abbrev pub miner_written : Finish steel → Option (Miner N)
  miner_written unchanged = none
  miner_written (forfeited m) = some m
  miner_written (paid p) = some p.miner

  miner_written-Done :
      (f : Finish steel) (m : Miner N) → miner_written f ≡ some m → Settles f → Done m
  miner_written-Done unchanged m h s = cc
  miner_written-Done (forfeited m') m h s = let same : m' ≡ m = cc in rw (← same) s
  miner_written-Done (paid p) m h s = let same : p.miner ≡ m = cc in rw (← same) s

  -- A checkpoint that pays a miner, or gives up the miner's claim, leaves a miner with whom a later
  -- checkpoint writes nothing: it returns at once, in whatever state the other accounts and the
  -- clock are, and for either instruction.
  pub checkpoint_once :
      (a a' : Accounts steel) (clock clock' : Clock) (board board' : Board) (m m' : Miner N)
      (t t' : Treasury N) (gold gold' : Miner N → ℕ → Result (Option (MinerExtended N)))
      (f : Finish steel)
      → finish_round steel a clock board m t gold ≡ ok f
      → miner_written f ≡ some m'
      → finish_round steel a' clock' board' m' t' gold' ≡ ok unchanged
  checkpoint_once a a' clock clock' board board' m m' t t' gold gold' f h w =
      finish_round-Done a' clock' board' m' t' gold'
        (miner_written-Done f m' w (finish_round-Settles a clock board m t gold f h))
