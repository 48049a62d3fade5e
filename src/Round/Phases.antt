-- ===== src/Round/Phases.antt =====
-- The board as a machine of two phases: a round waits for its first deploy, or runs until a slot.
use godl_program.Base.{
  ℕ, suc, [], ok-injective_triple, >>=-eq-ok, ◌+◌, ◌≤◌, ◌<◌, ◌≡◌, Bool, true, false, refl, sym, ap,
  ◌∙◌, List, Option, Result, ok, arith, >>=-eq-ok, ok-functional, add_u64, saturating_add, u64_max,
  ◌==◌, if◌then◌else◌,
}
use mathlib.Core.Path.{subst}
use godl_program.Consts.{one_day_slots}
use godl_program.Numeric.{Numeric}
use godl_program.Treasury.{Clock}
use godl_program.Gold.{GoldVault}
use godl_program.Round.{Board, Config, Round, round_slots, intermission_slots}
use godl_program.Pool.{PoolRound}
use godl_program.Runtime.{Steel, Effect, demand}
use godl_program.Deploy.{DeployArgs, Deployed, var_of, start_round, load_open, play, deploy}
use godl_program.Reset.{Closed, load_over, close_board, close_round}
use godl_program.Deploy
use godl_program.Reset

-- the specification: a round's number, and where it stands
pub data Phase : Type 0 where
  waiting : Phase
  running : ℕ → Phase

pub record Game : Type 0 where
  pub round : ℕ
  pub phase : Phase

abbrev pub game : ℕ → Phase → Game
game round phase = record { round = round; phase = phase }

-- a step at a slot: a round starts, is played before its end, and ends once that has passed
pub data Step : ℕ → Game → Game → Type 0 where
  starts :
      (now round slots : ℕ)
      → 1 ≤ slots
      → Step now (game round waiting) (game round (running (now + slots)))
  plays :
      (now round end : ℕ)
      → now < end
      → Step now (game round (running end)) (game round (running end))
  finishes :
      (now round end : ℕ)
      → end < now
      → Step now (game round (running end)) (game (suc round) waiting)

pub data Steps : Game → Game → Type 0 where
  here : (g : Game) → Steps g g
  next : (now : ℕ) (g g' g'' : Game) → Steps g g' → Step now g' g'' → Steps g g''

-- what the board stands for
abbrev pub phase_of : ℕ → Phase
phase_of end = if end == u64_max then waiting else running end

abbrev pub view : Board → Game
view b = game b.round_id (phase_of b.end_slot)

starts_at :
    (now round end end' slots : ℕ)
    → (end == u64_max) ≡ true
    → end' ≡ now + slots
    → now + slots < u64_max
    → 1 ≤ slots
    → Step now (game round (phase_of end)) (game round (phase_of end'))
starts_at now round end end' slots p q short long =
    let later : ((now + slots) == u64_max) ≡ false = ground arith in
    rw (p, q, later) (starts now round slots long)

plays_at :
    (now round end : ℕ)
    → (end == u64_max) ≡ false
    → now < end
    → Step now (game round (phase_of end)) (game round (phase_of end))
plays_at now round end p before = rw p (plays now round end before)

finishes_at :
    (now round end slots : ℕ)
    → now < u64_max
    → 1 ≤ slots
    → saturating_add end slots ≤ now
    → Step now (game round (phase_of end)) (game (suc round) (phase_of u64_max))
finishes_at now round end slots small some_slots over =
    let not_waiting : (end == u64_max) ≡ false = ground arith in
    let after : end < now = ground arith in rw not_waiting (finishes now round end after)

round_slots-pos : (c : Config) → 1 ≤ round_slots c
unfolding round_slots
round_slots-pos c = ground arith

intermission_slots-pos : (c : Config) → 1 ≤ intermission_slots c
unfolding intermission_slots
intermission_slots-pos c = ground arith

module _ {N A : Type 0} ⦃num : Numeric N⦄ (steel : Steel N A) where
  start_round-waiting :
      (a : Deploy.Accounts steel) (clock : Clock) (c : Config) (b b' : Board) (r r' : Round)
      (es : List (Effect A))
      → (b.end_slot == u64_max) ≡ true
      → start_round steel a clock c b r ≡ ok (b', r', es)
      → (b'.round_id ≡ b.round_id) × (b'.end_slot ≡ clock.slot + round_slots c)
  unfolding start_round
  start_round-waiting a clock c b b' r r' es p h =
      let (end, e₁, h₁) = >>=-eq-ok (add_u64 clock.slot (round_slots c)) _ (rw p at h) in
      let (expires, e₂, h₂) = >>=-eq-ok (add_u64 end one_day_slots) _ h₁ in
      let ((info, program), e₃, h₃) = >>=-eq-ok (var_of steel a) _ h₂ in
      let (_, e₄, h₄) = >>=-eq-ok (steel.has_address info c.var_address) _ h₃ in
      let (v, e₅, h₅) = >>=-eq-ok (steel.as_var info) _ h₄ in
      let (_, e₆, h₆) = >>=-eq-ok (demand (v.authority == steel.key a.board_info)) _ h₅ in
      let (_, e₇, h₇) = >>=-eq-ok (steel.is_entropy_program program) _ h₆ in
      let (same, _, _) = ok-injective_triple _ b' _ r' _ es h₇ in
      let sum : end ≡ clock.slot + round_slots c = ground arith in
      (ap (λ z. z.round_id) (sym same), ap (λ z. z.end_slot) (sym same) ∙ sum)

  start_round-running :
      (a : Deploy.Accounts steel) (clock : Clock) (c : Config) (b b' : Board) (r r' : Round)
      (es : List (Effect A))
      → (b.end_slot == u64_max) ≡ false
      → start_round steel a clock c b r ≡ ok (b', r', es)
      → b' ≡ b
  unfolding start_round
  start_round-running a clock c b b' r r' es p h =
      let (same, _, _) = ok-injective_triple b b' r r' [] es (rw p at h) in sym same

  start_round-Step :
      (a : Deploy.Accounts steel) (clock : Clock) (c : Config) (b b' : Board) (r r' : Round)
      (es : List (Effect A)) (is_waiting : Bool)
      → (b.end_slot == u64_max) ≡ is_waiting
      → clock.slot < b.end_slot
      → clock.slot + round_slots c < u64_max
      → start_round steel a clock c b r ≡ ok (b', r', es)
      → Step clock.slot (view b) (view b')
  start_round-Step a clock c b b' r r' es true p open_until short h =
      let (same, end) = start_round-waiting a clock c b b' r r' es p h in
      subst (λ z. Step clock.slot (view b) (game z (phase_of b'.end_slot))) (sym same)
        (starts_at clock.slot b.round_id b.end_slot b'.end_slot (round_slots c) p end short
          (round_slots-pos c))
  start_round-Step a clock c b b' r r' es false p open_until short h =
      subst (λ z. Step clock.slot (view b) (view z))
        (sym (start_round-running a clock c b b' r r' es p h))
        (plays_at clock.slot b.round_id b.end_slot p open_until)

  started :
      (a : Deploy.Accounts steel) (clock : Clock) (c c₁ : Config) (b b₁ b' b'' : Board)
      (r r' : Round) (es : List (Effect A))
      → c ≡ c₁
      → b ≡ b₁
      → b'' ≡ b'
      → clock.slot < b₁.end_slot
      → clock.slot + round_slots c < u64_max
      → start_round steel a clock c₁ b₁ r ≡ ok (b', r', es)
      → Step clock.slot (view b) (view b'')
  started a clock c c₁ b b₁ b' b'' r r' es p q w open_until short h =
      subst (λ z. Step clock.slot (view z) (view b'')) (sym q)
        (subst (λ z. Step clock.slot (view b₁) (view z)) (sym w)
          (start_round-Step a clock c₁ b₁ b' r r' es (b₁.end_slot == u64_max) refl open_until
            (subst (λ z. clock.slot + round_slots z < u64_max) p short) h))

  play-board :
      (a : Deploy.Accounts steel) (args : DeployArgs) (vault : Option (GoldVault N)) (b : Board)
      (r : Round) (pool : PoolRound) (es : List (Effect A)) (d : Deployed steel)
      → play steel a args vault b r pool es ≡ ok d
      → d.board ≡ b
  unfolding play
  play-board a args vault b r pool es d h = ground arith

  load_open-eq-ok :
      (a : Deploy.Accounts steel) (clock : Clock) (c : Config) (b : Board) (r : Round)
      (pool : PoolRound)
      → load_open steel a clock ≡ ok (c, b, r, pool)
      → (steel.as_config a.config_info ≡ ok c)
        × (steel.as_board a.board_info ≡ ok b)
        × (clock.slot < b.end_slot)
  unfolding load_open
  load_open-eq-ok a clock c b r pool h = (ground arith, ground arith, ground arith)

  deploy-Step :
      (a : Deploy.Accounts steel) (clock : Clock) (args : DeployArgs)
      (gold : Result (Option (GoldVault N))) (c : Config) (b : Board) (d : Deployed steel)
      → steel.as_config a.config_info ≡ ok c
      → steel.as_board a.board_info ≡ ok b
      → clock.slot + round_slots c < u64_max
      → deploy steel a clock args gold ≡ ok d
      → Step clock.slot (view b) (view d.board)
  unfolding deploy
  deploy-Step a clock args gold c b d ec eb short h =
      let ((c₁, b₁, r, pool), e₁, h₁) = >>=-eq-ok (load_open steel a clock) _ h in
      let (vault, e₂, h₂) = >>=-eq-ok gold _ h₁ in
      let ((b', r', es), e₃, h₃) = >>=-eq-ok (start_round steel a clock c₁ b₁ r) _ h₂ in
      let (loaded_c, loaded_b, open_until) = load_open-eq-ok a clock c₁ b₁ r pool e₁ in
      let same_c = ok-functional _ c c₁ ec loaded_c in
      let same_b = ok-functional _ b b₁ eb loaded_b in
      started a clock c c₁ b b₁ b' d.board r r' es same_c same_b
        (play-board a args vault b' r' pool es d h₃) open_until short e₃

  load_over-eq-ok :
      (a : Reset.Accounts steel) (clock : Clock) (c : Config) (b : Board)
      → load_over steel a clock ≡ ok (c, b)
      → (steel.as_board a.board_info ≡ ok b)
        × (saturating_add b.end_slot (intermission_slots c) ≤ clock.slot)
  unfolding load_over
  load_over-eq-ok a clock c b h = (ground arith, ground arith)

  close_board-board :
      (a : Reset.Accounts steel) (clock : Clock) (fees : ℕ → List (Effect A))
      (top : Round → ℕ → ℕ → Result Round) (c : Config) (b : Board) (x : Closed steel)
      → close_board steel a clock fees top c b ≡ ok x
      → (x.board.round_id ≡ suc b.round_id) × (x.board.end_slot ≡ u64_max)
  unfolding close_board
  close_board-board a clock fees top c b x h = (ground arith, ground arith)

  close_round-Step :
      (a : Reset.Accounts steel) (clock : Clock) (fees : ℕ → List (Effect A))
      (top : Round → ℕ → ℕ → Result Round) (b : Board) (x : Closed steel)
      → steel.as_board a.board_info ≡ ok b
      → clock.slot < u64_max
      → close_round steel a clock fees top ≡ ok x
      → Step clock.slot (view b) (view x.board)
  unfolding close_round
  close_round-Step a clock fees top b x eb small h =
      let ((c₁, b₁), e₁, h₁) = >>=-eq-ok (load_over steel a clock) _ h in
      let (loaded, over) = load_over-eq-ok a clock c₁ b₁ e₁ in
      let (next_id, last) = close_board-board a clock fees top c₁ b₁ x h₁ in
      let same = ok-functional _ b b₁ eb loaded in
      subst (λ z. Step clock.slot (view z) (view x.board)) (sym same)
        (subst (λ z. Step clock.slot (view b₁) (game z (phase_of x.board.end_slot))) (sym next_id)
          (subst (λ z. Step clock.slot (view b₁) (game (suc b₁.round_id) (phase_of z))) (sym last)
            (finishes_at clock.slot b₁.round_id b₁.end_slot (intermission_slots c₁) small
              (intermission_slots-pos c₁) over)))

module _ (N A : Type 0) ⦃num : Numeric N⦄ where
  -- The boards that deploys and resets lead to, each on its own accounts and at its own slot. No slot
  -- comes near the largest number, which stands for a round that waits.
  pub data Ran : Board → Board → Type 0 where
    at_rest : (b : Board) → Ran b b
    deploys :
        (steel : Steel N A) (a : Deploy.Accounts steel) (clock : Clock) (args : DeployArgs)
        (gold : Result (Option (GoldVault N))) (c : Config) (b b' : Board) (d : Deployed steel)
        → Ran b b'
        → steel.as_config a.config_info ≡ ok c
        → steel.as_board a.board_info ≡ ok b'
        → clock.slot + round_slots c < u64_max
        → deploy steel a clock args gold ≡ ok d
        → Ran b d.board
    resets :
        (steel : Steel N A) (a : Reset.Accounts steel) (clock : Clock) (fees : ℕ → List (Effect A))
        (top : Round → ℕ → ℕ → Result Round) (b b' : Board) (x : Closed steel)
        → Ran b b'
        → steel.as_board a.board_info ≡ ok b'
        → clock.slot < u64_max
        → close_round steel a clock fees top ≡ ok x
        → Ran b x.board

  -- While no slot comes near the largest number, whatever deploys and resets do to the board, with
  -- whatever accounts, refines the machine: a round starts with its first deploy, is only played
  -- before its end, and only ends after it, when the next round waits.
  pub Ran-refines : (b b' : Board) → Ran b b' → Steps (view b) (view b')
  Ran-refines b _ (at_rest _) = here (view b)
  Ran-refines b _ (deploys steel a clock args gold c _ b' d p ec eb short h) =
      next clock.slot (view b) (view b') (view d.board) (Ran-refines b b' p)
        (deploy-Step steel a clock args gold c b' d ec eb short h)
  Ran-refines b _ (resets steel a clock fees top _ b' x p eb small h) =
      next clock.slot (view b) (view b') (view x.board) (Ran-refines b b' p)
        (close_round-Step steel a clock fees top b' x eb small h)
