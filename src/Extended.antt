-- ===== src/Extended.antt =====
-- program/src/gold/mod.rs: the extended account of a miner, which its gold accrues on.
use godl_program.Base.{
  ℕ, Bool, List, [], ◌∷◌, Option, some, none, Result, ok, panic, ◌>>=◌, ◌>>◌, require, ◌==◌,
  if◌then◌else◌,
}
use godl_program.Numeric.{Numeric}
use godl_program.Miner.{Miner}
use godl_program.Gold.{GoldVault, MinerExtended, init, update_rewards}
use godl_program.Runtime.{Steel, Effect, create, demand, miner_extended}

module _ {N A : Type 0} (steel : Steel N A) where
  open steel use {data_is_empty, is_writable, has_seeds, as_miner_extended}

  -- the account, if it exists or is created, with the calls
  unfoldable pub load_or_create_miner_extended :
      A → GoldVault N → ℕ → A → Bool → Result (Option (MinerExtended N) × List (Effect A))
  load_or_create_miner_extended info vault authority payer creates = do
    is_writable info
    has_seeds info (miner_extended authority)
    if data_is_empty info
        then (if creates
            then ok (some (init authority vault), create info (miner_extended authority) payer ∷ [])
            else ok (none, []))
        else (do
          extended ← as_miner_extended info
          demand (extended.authority == authority)
          ok (some extended, []))

module _ {N : Type 0} ⦃num : Numeric N⦄ where
  unfoldable pub sync_gold_rewards :
      Option (MinerExtended N) → GoldVault N → Miner N → Result (Option (MinerExtended N))
  sync_gold_rewards none vault m = do require (m.rewards_godl == 0) panic; ok none
  sync_gold_rewards (some extended) vault m = do
    require (extended.authority == m.authority) panic
    extended' ← update_rewards extended vault m.rewards_godl
    ok (some extended')
