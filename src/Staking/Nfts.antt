-- ===== src/Staking/Nfts.antt =====
-- program/src/stake_v2/stake_nft.rs and unstake_nft.rs: an NFT of the boost collection goes to a
-- position, or comes back from it.
use godl_program.Base.{ℕ, List, [], ◌∷◌, Result, ok, ◌>>=◌, ◌>>◌, ◌==◌}
use godl_program.Consts.{nft_boost_collection, mpl_core_program}
use godl_program.Numeric.{Numeric}
use godl_program.Treasury.{Treasury}
use godl_program.StakeV2.{StakeV2, stake_nft, unstake_nft, migrate_weight}
use godl_program.Runtime.{Steel, Effect, move_nft, demand, stake_v2}

module _ {N A : Type 0} ⦃num : Numeric N⦄ (steel : Steel N A) where
  open steel use {
    key, is_signer, has_address, has_seeds, is_system_program, as_treasury, as_stake_v2,
  }

  pub record NftAccounts : Type 0 where
    pub signer_info : A
    pub asset_info : A
    pub collection_info : A
    pub stake_info : A
    pub treasury_info : A
    pub mpl_core_program : A
    pub system_program : A

  -- the checks and loads that both instructions start with
  unfoldable pub load_for_nft : NftAccounts → ℕ → Result (StakeV2 N × Treasury N)
  load_for_nft a id = do
    is_signer a.signer_info
    has_address a.collection_info nft_boost_collection
    has_address a.mpl_core_program mpl_core_program
    is_system_program a.system_program
    has_seeds a.stake_info (stake_v2 (key a.signer_info) id)
    s ← as_stake_v2 a.stake_info
    demand (s.id == id)
    demand (s.authority == key a.signer_info)
    t ← as_treasury a.treasury_info
    ok (s, t)

  unfoldable pub process_stake_nft :
      NftAccounts → ℕ → Result (StakeV2 N × Treasury N × List (Effect A))
  process_stake_nft a id = do
    (s, t) ← load_for_nft a id
    (s₁, t₁) ← migrate_weight s t
    (s₂, t₂) ← stake_nft s₁ t₁
    ok (s₂, t₂, move_nft a.asset_info a.signer_info a.stake_info ∷ [])

  unfoldable pub process_unstake_nft :
      NftAccounts → ℕ → Result (StakeV2 N × Treasury N × List (Effect A))
  process_unstake_nft a id = do
    (s, t) ← load_for_nft a id
    (s₁, t₁) ← migrate_weight s t
    (s₂, t₂) ← unstake_nft s₁ t₁
    ok (s₂, t₂, move_nft a.asset_info a.stake_info a.signer_info ∷ [])
