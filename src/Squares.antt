-- ===== src/Squares.antt =====
-- The choice of squares and the loop over them, of program/src/miner/deploy.rs: how a miner's
-- deployments are entered in the miner's, the round's and the pool's accounts.
pub mod Choice
pub mod Sums
pub mod Ranges
pub mod History
use godl_program.Base.{
  ℕ, zero, suc, ◌+◌, ◌-◌, ◌*◌, ◌/◌, ◌%◌, Bool, true, false, ◌&&◌, not, Option, some, none, List, [],
  ◌∷◌, ◌++◌, Result, ok, ◌>>=◌, ltb, ◌==◌, if◌then◌else◌, add_u64, get_or, set,
}
use godl_program.Miner.{Miner}
use godl_program.Round.{Round}
use godl_program.Pool.{PoolMember, PoolRound, reset_for_round, record_member, record_round}
use godl_program.Automation.{AutomationV2}
use godl_program.Runtime.{Effect}

-- `squares[i] = (mask & (1 << i)) != 0`, for the first `n` bits
unfoldable pub mask_squares : ℕ → ℕ → List Bool
mask_squares zero mask = []
mask_squares (suc n) mask = (mask % 2 == 1) ∷ mask_squares n (mask / 2)

-- the loop of `generate_random_mask`, with the number of positions that remain, of squares still
-- needed, and the bytes from here on
unfoldable pub random_squares : ℕ → ℕ → List ℕ → List Bool
random_squares zero needed bytes = []
random_squares (suc positions) needed [] = []
random_squares (suc positions) needed (byte ∷ bytes) =
    let pick = ltb 0 needed && ltb (byte * suc positions) (needed * 256) in
    pick ∷ random_squares positions (if pick then needed - 1 else needed) bytes

unfoldable pub generate_random_mask : ℕ → List ℕ → List Bool
generate_random_mask num_squares bytes = random_squares 25 num_squares bytes

-- how many of the squares, from index `i`, the miner has yet to deploy to
unfoldable pub squares_to_deploy : List ℕ → ℕ → List Bool → ℕ
squares_to_deploy deployed i [] = 0
squares_to_deploy deployed i (chosen ∷ squares) =
    (if chosen && not (ltb 0 (get_or deployed i 0)) then 1 else 0)
    + squares_to_deploy deployed (i + 1) squares

-- what the loop reads
pub record Bet (A : Type 0) : Type 0 where
  pub amount : ℕ
  pub is_pooled : Bool
  pub automation : Option AutomationV2
  -- the pool member's account as it is first met: loaded, or created
  pub member : Result (PoolMember × List (Effect A))

-- what the loop writes
pub record Deployment (N A : Type 0) : Type 0 where
  pub miner : Miner N
  pub round : Round
  pub pool_round : PoolRound
  -- once it has been met
  pub pool_member : Option PoolMember
  pub total_amount : ℕ
  pub total_squares : ℕ
  pub effects : List (Effect A)

module _ {A : Type 0} where
  unfoldable pub met : Bet A → Option PoolMember → Result (PoolMember × List (Effect A))
  met b (some p) = ok (p, [])
  met b none = b.member

  -- is the automation's balance too small for another square?
  unfoldable pub stops : Bet A → ℕ → Option AutomationV2 → Result Bool
  stops b total_amount none = ok false
  stops b total_amount (some a) = do
    spent ← add_u64 total_amount a.fee
    next ← add_u64 spent b.amount
    ok (ltb a.balance next)

module _ {N A : Type 0} where
  unfoldable pub enter_pool : Bet A → ℕ → Deployment N A → Result (Deployment N A)
  enter_pool b i d = do
    (p, created) ← met b d.pool_member
    let p' = if p.round_id == d.round.id then p else reset_for_round p d.round.id
    let was_zero = get_or p'.deployed i 0 == 0
    ok (record d {
      pool_member = some (record_member p' i b.amount);
      pool_round = record_round d.pool_round i b.amount was_zero;
      effects = d.effects ++ created;
    })

  unfoldable pub enter_if_pooled : Bet A → ℕ → Deployment N A → Result (Deployment N A)
  enter_if_pooled b i d = if b.is_pooled then enter_pool b i d else ok d

  -- the miner's and the round's entries
  unfoldable pub enter_square : Bet A → ℕ → Deployment N A → Result (Deployment N A)
  enter_square b i d = do
    let before = get_or d.round.deployed i 0
    after ← add_u64 before b.amount
    total ← add_u64 d.round.total_deployed b.amount
    count ← add_u64 (get_or d.round.count i 0) 1
    ok (record d {
      miner = record d.miner {
        cumulative = set d.miner.cumulative i before;
        deployed = set d.miner.deployed i b.amount;
      };
      round = record d.round {
        deployed = set d.round.deployed i after;
        total_deployed = total;
        count = set d.round.count i count;
      };
    })

  unfoldable pub tally : Bet A → Deployment N A → Result (Deployment N A)
  tally b d = do
    amount ← add_u64 d.total_amount b.amount
    ok (record d { total_amount = amount; total_squares = d.total_squares + 1 })

  -- a square that the miner deploys to
  unfoldable pub deploy_square : Bet A → ℕ → Deployment N A → Result (Deployment N A)
  deploy_square b i d = do d₁ ← enter_square b i d; d₂ ← enter_if_pooled b i d₁; tally b d₂

  -- a square, and whether the loop ends here
  unfoldable pub visit : Bet A → ℕ → Bool → Deployment N A → Result (Bool × Deployment N A)
  visit b i chosen d =
      if chosen && not (ltb 0 (get_or d.miner.deployed i 0))
      then (do d' ← deploy_square b i d; stop ← stops b d'.total_amount b.automation; ok (stop, d'))
      else ok (false, d)

  unfoldable pub deploy_squares : Bet A → ℕ → List Bool → Deployment N A → Result (Deployment N A)
  deploy_squares b i [] d = ok d
  deploy_squares b i (chosen ∷ squares) d = do
    (stop, d') ← visit b i chosen d
    let rest = deploy_squares b (i + 1) squares d'
    if stop then ok d' else rest
