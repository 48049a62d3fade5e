-- ===== src/Lib.antt =====
-- A model of the GODL mining program on Solana, with its correctness theorems.
--
-- The program runs rounds on a board of 25 squares. Miners deploy SOL on squares; when a round is
-- closed a random number picks the winning square, the SOL of the other squares is divided among
-- the winners, a vault and fees, and GODL is minted for the winners. A miner checkpoints the round
-- to be credited. Claimed GODL pays a refining fee to those who have not claimed; staked GODL earns
-- by weight; and gold (XAUt0) is shared among the holders of unclaimed GODL.
--
-- Files and the code they are about:
--   Base and below     results and errors (api/src/error.rs), machine words, arrays, signed integers
--   Consts             api/src/consts.rs
--   Numeric            the interface of steel's fixed-point Numeric, with its laws; Numeric/Fixed
--                      meets them by numbers of units of 2^-48
--   Treasury           api/src/state/treasury.rs
--   Isqrt, StakeV2     api/src/state/stake_v2.rs: isqrt_u128 and effective_multiplier, and the methods
--                      of StakeV2 under their names (StakeV2::effective_multiplier is
--                      applied_multiplier); accrue, raise_total, lower_total, boosted and flip_weight
--                      are parts of those methods
--   Stake              api/src/state/stake.rs and program/src/stake/deposit.rs
--   Staking            what the instructions of program/src/stake_v2 share; they are in Staking/Deposits,
--                      Withdrawals, Merge, Upkeep and Nfts, and those of program/src/stake in First.
--                      Staking/Lifecycle is the relation of the positions and treasuries they lead to
--   Referrer           api/src/state/referrer.rs and the referral in program/src/miner/claim_sol.rs
--   Miner              api/src/state/miner.rs; charge_fee is the last part of claim_godl, and
--                      credit_round what a checkpoint writes into a miner and the treasury
--   Gold               api/src/state/gold_vault.rs, miner_extended.rs and sol_motherlode.rs
--   Round, Pool        api/src/state/round.rs, board.rs, config.rs, pool_member.rs, pool_round.rs
--   Automation         api/src/state/automation_v2.rs; Automation/Bytes reads the packed bytes back
--   Squares            the choice of squares and the loop over them, of program/src/miner/deploy.rs;
--                      its parts are named for what they enter. Squares/History has the plays of a
--                      round as a relation
--   Deploy             program/src/miner/deploy.rs and deploy_with_miner_extended.rs: one body, with the
--                      loading of the gold vault as an argument
--   Round/Phases       what deploys and resets do to the board, as a machine of two phases
--   Runtime            what the handlers ask of the Solana runtime and of steel, as a record of
--                      checks and loads, and the calls that they make, as a list of effects;
--                      Runtime/Flows adds up what they move
--   Checkpoint         program/src/miner/checkpoint.rs and checkpoint_with_miner_extended.rs: one
--                      body, with the gold settlement as an argument
--   Reset              program/src/miner/reset.rs and reset_permissionless.rs: one body, with the
--                      choice of the top miner and the sends of the admin fee as arguments;
--                      Reset/Parts has what asks nothing of the runtime
--   Extended           program/src/gold/mod.rs: the extended account of a miner
--   Claim              program/src/miner/claim_sol.rs and close.rs; Claim/Godl has claim_godl.rs and
--                      inject_godl_motherlode.rs, and Claim/Gold the XAUt0 of program/src/gold
--   Bury               program/src/admin/bury.rs and bury_tokens.rs
--   Admin              program/src/admin: pre_bury.rs, withdraw_vault.rs, the two rebases and
--                      inject_unrefined_rewards.rs; Admin/Spending is about the first two
--   Automate           program/src/automation: what the authority and the executor of an automation do
--   Otc                api/src/state/otc_treasury.rs and otc_user.rs; Otc/Desk has
--                      program/src/otc/initialize_otc_treasury.rs, fund_godl_otc.rs and
--                      withdraw_sol_otc.rs, and Otc/Quotes and Otc/Trade execute_otc_trade.rs; Otc/Ledger
--                      is the relation of the desks that these four lead to
--   Referral           program/src/referral; Referral/Paid is the relation of a referrer's uses
--   Setup              program/src/initialize.rs and admin/initialize_sol_motherlode.rs in
--                      Setup/Genesis; the settings of program/src/admin in Setup/Settings;
--                      program/src/gold/initialize_gold_vault.rs, create_miner_extended.rs and
--                      pre_buy_gold.rs in Setup/Vaults; Setup/Purchase is about the last
--   Instruction        api/src/instruction.rs: the instructions, their discriminants and their data
--   Client             api/src/sdk.rs, by the group of instructions; Client/Onchain is a runtime that
--                      sees just what a client sends
--   Tests              runs on sample states, and the theorems at them
--
-- A handler is a function from accounts to a result: the states that it writes and, in order, its
-- calls of the runtime. The checked operators of Rust panic where a value does not fit, as the
-- build profiles ask for overflow checks; a panic and an error both undo the whole instruction, so
-- the errors keep the code's kinds and the order of independent checks is the code's. Keys are
-- 256-bit numbers, arrays are lists, i64 times are integers.
--
-- The loop of isqrt_u128 recurs on the fact that its variable falls; no function runs on fuel.
--
-- Not modelled: events and logs (api/src/event.rs, program/src/miner/log.rs) and the client's
-- program_log; the automation of the first kind (api/src/state/automation.rs), which no instruction
-- reads; the derivation of addresses and the bytes of accounts, which are behind Runtime and
-- Addresses; what other programs do when they are called, which is an argument (AfterSwap) or an
-- effect; the bytes of instructions, which the steel library writes and reads; the call of each
-- handler by its discriminant in program/src/lib.rs; the command line (cli).
pub mod Base
pub mod Consts
pub mod Numeric
pub mod Isqrt
pub mod Treasury
pub mod StakeV2
pub mod Stake
pub mod Referrer
pub mod Miner
pub mod Gold
pub mod Round
pub mod Pool
pub mod Automation
pub mod Runtime
pub mod Squares
pub mod Checkpoint
pub mod Extended
pub mod Deploy
pub mod Automate
pub mod Bury
pub mod Admin
pub mod Otc
pub mod Referral
pub mod Setup
pub mod Instruction
pub mod Client
pub mod Staking
pub mod Reset
pub mod Claim
pub mod Tests
