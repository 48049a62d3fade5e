-- ===== src/Deploy.antt =====
-- program/src/miner/deploy.rs and deploy_with_miner_extended.rs: a miner, or its automation, deploys SOL
-- on squares of the current round. The first deployment starts the round's clock.
pub mod Funds
pub mod Funded
use godl_program.Base.{
  ℕ, zero, suc, ◌+◌, ◌-◌, ◌*◌, ◌%◌, min, Bool, true, false, ◌&&◌, ◌||◌, not, Option, some, none,
  List, [], ◌∷◌, ◌++◌, Result, ok, err, godl, panic, invalid_instruction_data,
  not_enough_account_keys, legacy_deploy_expired, not_authorized, already_deployed_this_round,
  ◌>>=◌, ◌>>◌, require, reject, ltb, leb, ◌==◌, if◌then◌else◌, add_u64, sub_u64, checked_add,
  checked_mul, u64_max, get_or, replicate,
}
use godl_program.Base.Int.{ℤ, pos, ltb_ℤ}
use godl_program.Consts.{
  one_day_slots, legacy_instruction_expiry_ts, checkpoint_fee, lamports_per_sol,
}
use godl_program.Numeric.{Numeric}
use godl_program.Treasury.{Clock}
use godl_program.Miner.{Miner, default_key}
use godl_program.Gold.{GoldVault, MinerExtended, init}
use godl_program.Round.{Board, Config, Round, round_slots, all_equal}
use godl_program.Pool.{PoolMember, PoolRound}
use godl_program.Automation.{AutomationV2, AutomationV2Strategy, get_strategy, get_is_pooled}
use godl_program.Runtime.{
  Steel, Effect, Seeds, Var, send, collect, create, close, next_var, demand, miner, pool_member,
  automation_v2, gold_vault, miner_extended,
}
use godl_program.Extended.{load_or_create_miner_extended}
use godl_program.Squares.{
  Bet, Deployment, mask_squares, generate_random_mask, squares_to_deploy, deploy_squares,
}

-- the instruction's data
pub record DeployArgs : Type 0 where
  pub amount : ℕ
  pub squares : ℕ
  pub is_pooled : ℕ

unfoldable pub reset_miner : {N : Type 0} → Miner N → Round → Result (Miner N)
reset_miner m r =
    if m.round_id == r.id
    then (do reject (not (all_equal 0 m.deployed)) (godl already_deployed_this_round); ok m)
    else (do
      require (m.checkpoint_id == m.round_id) panic
      ok (record m { deployed = replicate 25 0; cumulative = r.deployed; round_id = r.id }))

-- can the automation fund all the squares?
unfoldable pub can_fund : Option AutomationV2 → ℕ → ℕ → Result Bool
can_fund none amount squares = ok true
can_fund (some a) amount squares = do
  cost ← checked_mul amount squares invalid_instruction_data
  required ← checked_add cost a.fee invalid_instruction_data
  ok (leb required a.balance)

-- the account that is opened for a new pool member
abbrev pub opened_member : ℕ → PoolMember
opened_member authority = record {
  authority = authority;
  round_id = 0;
  deployed = replicate 25 0;
  total_deployed = 0;
}

module _ {N A : Type 0} ⦃num : Numeric N⦄ (steel : Steel N A) where
  open steel use {
    key, data_is_empty, is_signer, is_writable, has_address, has_seeds, is_system_program,
    is_entropy_program, as_board, as_config, as_miner, as_round, as_pool_member, as_pool_round,
    as_gold_vault, as_miner_extended, as_automation, as_var, hashv,
  }

  -- the accounts of the two instructions; the two before the entropy accounts are of
  -- `DeployWithMinerExtended`
  pub record Accounts : Type 0 where
    pub signer_info : A
    pub authority_info : A
    pub automation_v2_info : A
    pub board_info : A
    pub miner_info : A
    pub round_info : A
    pub pool_round_info : A
    pub pool_member_info : A
    pub config_info : A
    pub system_program : A
    pub gold_vault_info : A
    pub miner_extended_info : A
    -- the var and the entropy program, if they are given
    pub entropy_accounts : Option (A × A)

  -- what the instruction writes
  pub record Deployed : Type 0 where
    pub board : Board
    pub round_after : Round
    pub pool_round : PoolRound
    pub pool_member : Option PoolMember
    pub miner : Miner N
    pub automation : Option AutomationV2
    pub extended : Option (MinerExtended N)
    pub effects : List (Effect A)

  unfoldable pub var_of : Accounts → Result (A × A)
  var_of a = elim a.entropy_accounts [ none ↦ err not_enough_account_keys | some p ↦ ok p ]

  -- wait until the first deploy to start the round
  unfoldable pub start_round :
      Accounts → Clock → Config → Board → Round → Result (Board × Round × List (Effect A))
  start_round a clock c b r = if not (b.end_slot == u64_max) then ok (b, r, []) else do
    end ← add_u64 clock.slot (round_slots c)
    expires ← add_u64 end one_day_slots
    (var_info, entropy_program) ← var_of a
    has_address var_info c.var_address
    v ← as_var var_info
    demand (v.authority == key a.board_info)
    is_entropy_program entropy_program
    ok (
      record b { start_slot = clock.slot; end_slot = end },
      record r { expires_at = expires },
      next_var a.board_info var_info end ∷ [],
    )

  unfoldable pub load_automation : Accounts → Result (Option AutomationV2)
  load_automation a =
      if data_is_empty a.automation_v2_info
      then (do require (key a.signer_info == key a.authority_info) (godl not_authorized); ok none)
      else (do
        automation ← as_automation a.automation_v2_info
        demand (automation.executor == key a.signer_info)
        demand (automation.authority == key a.authority_info)
        ok (some automation))

  unfoldable pub automated_squares : AutomationV2 → Round → AutomationV2Strategy → List Bool
  automated_squares automation r AutomationV2Strategy.preferred = mask_squares 25 automation.mask
  automated_squares automation r AutomationV2Strategy.random =
      generate_random_mask (min (automation.mask % 256) 25) (hashv automation.authority r.id)

  -- the amount and the squares
  unfoldable pub choose : DeployArgs → Option AutomationV2 → Round → Result (ℕ × List Bool)
  choose args none r = ok (args.amount, mask_squares 25 args.squares)
  choose args (some automation) r = do
    strategy ← get_strategy automation
    ok (automation.amount, automated_squares automation r strategy)

  unfoldable pub pooled : DeployArgs → Option AutomationV2 → Bool
  pooled args none = not (args.is_pooled == 0)
  pooled args (some automation) = get_is_pooled automation

  -- a new miner's account is zero but for its authority
  abbrev pub opened_miner : ℕ → Miner N
  opened_miner authority = record {
    authority = authority;
    referrer = default_key;
    deployed = replicate 25 0;
    cumulative = replicate 25 0;
    checkpoint_fee = 0;
    checkpoint_id = 0;
    last_claim_godl_at = pos 0;
    last_claim_sol_at = pos 0;
    rewards_factor = num.nought;
    rewards_sol = 0;
    rewards_godl = 0;
    refined_godl = 0;
    round_id = 0;
    lifetime_deployed = 0;
    lifetime_rewards_sol = 0;
    lifetime_rewards_godl = 0;
  }

  abbrev owner : Accounts → Option AutomationV2 → ℕ
  owner a none = key a.authority_info
  owner a (some automation) = automation.authority

  unfoldable pub open_miner : Accounts → Option AutomationV2 → Result (Miner N × List (Effect A))
  open_miner a automation =
      if data_is_empty a.miner_info
      then ok (
        opened_miner (key a.authority_info),
        create a.miner_info (miner (key a.authority_info)) a.signer_info ∷ [],
      )
      else (do m ← as_miner a.miner_info; demand (m.authority == owner a automation); ok (m, []))

  -- the pool member's account where the loop first meets it
  unfoldable pub open_member : Accounts → Result (PoolMember × List (Effect A))
  open_member a =
      if data_is_empty a.pool_member_info
      then ok (
        opened_member (key a.authority_info),
        create a.pool_member_info (pool_member (key a.authority_info)) a.signer_info ∷ [],
      )
      else (do
        p ← as_pool_member a.pool_member_info
        demand (p.authority == key a.authority_info)
        ok (p, []))

  unfoldable pub top_up : Accounts → Miner N → Miner N × List (Effect A)
  top_up a m =
      if m.checkpoint_fee == 0
      then (
        record m { checkpoint_fee = checkpoint_fee },
        collect a.miner_info checkpoint_fee a.signer_info ∷ [],
      )
      else (m, [])

  unfoldable pub pool_total : Accounts → Option PoolMember → Result ℕ
  pool_total a (some p) = ok p.total_deployed
  pool_total a none = do p ← as_pool_member a.pool_member_info; ok p.total_deployed

  unfoldable pub check_pool : Accounts → Bool → Option PoolMember → Result (Unit {0})
  check_pool a is_pooled p =
      if not is_pooled
      then ok tt
      else do total ← pool_total a p; reject (ltb lamports_per_sol total) invalid_instruction_data

  -- the transfer of the SOL
  unfoldable pub pay_deploy :
      Accounts → Option AutomationV2 → ℕ → Result (Option AutomationV2 × List (Effect A))
  pay_deploy a none total = ok (none, collect a.round_info total a.signer_info ∷ [])
  pay_deploy a (some automation) total = do
    spent ← add_u64 total automation.fee
    balance ← sub_u64 automation.balance spent
    next ← add_u64 automation.amount automation.fee
    ok (
      some (record automation { balance = balance }),
      send a.automation_v2_info total a.round_info
          ∷ send a.automation_v2_info automation.fee a.signer_info
          ∷ (if ltb balance next then close a.automation_v2_info a.authority_info ∷ [] else []),
    )

  abbrev bet : Accounts → Option AutomationV2 → Bool → ℕ → Bet A
  bet a automation is_pooled amount = record {
    amount = amount;
    is_pooled = is_pooled;
    automation = automation;
    member = open_member a;
  }

  -- the loop, and all that follows it
  unfoldable pub place :
      Accounts
      → Option AutomationV2
      → Bool
      → ℕ
      → List Bool
      → Deployment N A
      → Result (Deployment N A × Option AutomationV2)
  place a automation is_pooled amount squares d = do
    d' ← deploy_squares (bet a automation is_pooled amount) 0 squares d
    lifetime ← add_u64 d'.miner.lifetime_deployed d'.total_amount
    let (m, fee_effects) = top_up a (record d'.miner { lifetime_deployed = lifetime })
    check_pool a is_pooled d'.pool_member
    (automation', sends) ← pay_deploy a automation d'.total_amount
    ok (record d' { miner = m; effects = d'.effects ++ (fee_effects ++ sends) }, automation')

  -- an automation that cannot fund all its squares is closed, and nothing is placed
  unfoldable pub place_if_funded :
      Accounts
      → Option AutomationV2
      → Bool
      → ℕ
      → List Bool
      → Deployment N A
      → Result (Deployment N A × Option AutomationV2)
  place_if_funded a automation is_pooled amount squares d = do
    funded ← can_fund automation amount (squares_to_deploy d.miner.deployed 0 squares)
    if funded
        then place a automation is_pooled amount squares d
        else ok (
          record d { effects = d.effects ++ (close a.automation_v2_info a.authority_info ∷ []) },
          automation,
        )

  unfoldable pub open_gold :
      Accounts → Option (GoldVault N) → Result (Option (MinerExtended N) × List (Effect A))
  open_gold a none = ok (none, [])
  open_gold a (some vault) =
      load_or_create_miner_extended steel a.miner_extended_info vault (key a.authority_info)
        a.signer_info true

  -- the config, the board that is open, its round and the pool's round
  unfoldable pub load_open : Accounts → Clock → Result (Config × Board × Round × PoolRound)
  load_open a clock = do
    let authority = key a.authority_info
    is_signer a.signer_info
    is_writable a.authority_info
    is_writable a.automation_v2_info
    has_seeds a.automation_v2_info (automation_v2 authority)
    c ← as_config a.config_info
    b ← as_board a.board_info
    demand (leb b.start_slot clock.slot && ltb clock.slot b.end_slot)
    r ← as_round a.round_info
    demand (r.id == b.round_id)
    pool ← as_pool_round a.pool_round_info
    demand (pool.id == r.id)
    is_writable a.miner_info
    has_seeds a.miner_info (miner authority)
    is_writable a.pool_member_info
    has_seeds a.pool_member_info (pool_member authority)
    is_system_program a.system_program
    ok (c, b, r, pool)

  -- the deployment in a round that has started
  unfoldable pub play :
      Accounts
      → DeployArgs
      → Option (GoldVault N)
      → Board
      → Round
      → PoolRound
      → List (Effect A)
      → Result Deployed
  play a args vault b r pool started = do
    automation ← load_automation a
    (amount, squares) ← choose args automation r
    (m, opened) ← open_miner a automation
    (extended, opened_gold) ← open_gold a vault
    m' ← reset_miner m r
    (d, automation') ←
        place_if_funded a automation (pooled args automation) amount squares (record {
          miner = m';
          round = r;
          pool_round = pool;
          pool_member = none;
          total_amount = 0;
          total_squares = 0;
          effects = started ++ (opened ++ opened_gold);
        })
    ok (record {
      board = b;
      round_after = d.round;
      pool_round = d.pool_round;
      pool_member = d.pool_member;
      miner = d.miner;
      automation = automation';
      extended = extended;
      effects = d.effects;
    })

  -- what the two instructions share; `gold` loads the gold vault, or nothing
  unfoldable pub deploy :
      Accounts → Clock → DeployArgs → Result (Option (GoldVault N)) → Result Deployed
  deploy a clock args gold = do
    (c, b, r, pool) ← load_open a clock
    vault ← gold
    (b', r', started) ← start_round a clock c b r
    play a args vault b' r' pool started

  unfoldable pub process_deploy : Accounts → Clock → DeployArgs → Result Deployed
  process_deploy a clock args = do
    require (ltb_ℤ clock.unix_timestamp (pos legacy_instruction_expiry_ts))
        (godl legacy_deploy_expired)
    deploy a clock args (ok none)

  unfoldable pub process_deploy_with_miner_extended :
      Accounts → Clock → DeployArgs → Result Deployed
  process_deploy_with_miner_extended a clock args = deploy a clock args (do
    has_seeds a.gold_vault_info gold_vault
    vault ← as_gold_vault a.gold_vault_info
    ok (some vault))
