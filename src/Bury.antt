-- ===== src/Bury.antt =====
-- program/src/admin/bury.rs and bury_tokens.rs: GODL that was bought, or that the treasury holds, is
-- shared with the stakers and the admin, and the rest is burnt or goes to the warchest.
pub mod Shares
use godl_program.Base.{
  ℕ, ◌+◌, ◌-◌, ◌*◌, ◌/◌, Bool, true, false, not, List, [], ◌∷◌, ◌++◌, Result, ok, panic, ◌>>=◌,
  ◌>>◌, require, ltb, leb, ◌==◌, if◌then◌else◌, mul_u64, sub_u64,
}
use godl_program.Consts.{
  mint_address, admin_godl_fee, chest_address, stakers_bps, admin_bps, denominator_bps,
}
use godl_program.Numeric.{Numeric}
use godl_program.Treasury.{Treasury}
use godl_program.Miner.{default_key}
use godl_program.Runtime.{Steel, Effect, transfer, burn, sync_native, swap, demand}

-- what the swap leaves: the treasury's tokens and lamports, and the supply of GODL
pub record AfterSwap : Type 0 where
  pub godl : ℕ
  pub sol : ℕ
  pub lamports : ℕ
  pub supply : ℕ

module _ {N : Type 0} ⦃num : Numeric N⦄ where
  -- the stakers' part, and the treasury with its factor raised; `always` is whether a part of nothing
  -- goes through the factor too
  unfoldable pub share : Bool → ℕ → Treasury N → Result (ℕ × Treasury N)
  share always amount t = if t.total_staked == 0 then ok (0, t) else do
    scaled ← mul_u64 amount stakers_bps
    let shared = scaled / denominator_bps
    if always
        then (do
          fraction ← num.from_fraction shared t.total_staked
          factor ← num.plus t.stake_rewards_factor fraction
          ok (shared, record t { stake_rewards_factor = factor }))
        else if shared == 0
        then ok (shared, t)
        else (do
          fraction ← num.from_fraction shared t.total_staked
          factor ← num.plus t.stake_rewards_factor fraction
          ok (shared, record t { stake_rewards_factor = factor }))

module _ {N A : Type 0} ⦃num : Numeric N⦄ (steel : Steel N A) where
  open steel use {
    key, lamports, is_signer, is_writable, has_address, is_token_program, is_godl_program, as_board,
    as_config, as_mint, as_tokens, as_treasury, as_wsol,
  }

  pub record Accounts : Type 0 where
    pub signer_info : A
    pub board_info : A
    pub config_info : A
    pub mint_info : A
    pub treasury_info : A
    pub treasury_godl_info : A
    pub treasury_sol_info : A
    pub admin_info : A
    pub admin_godl_info : A
    pub warchest_info : A
    pub warchest_godl_info : A
    pub token_program : A
    pub godl_program : A

  -- is there a warchest? It is checked if so
  unfoldable pub load_warchest : Accounts → Result Bool
  load_warchest a =
      let active = not (key a.warchest_info == default_key) in
      if active
      then (do
        require (not (key a.warchest_godl_info == default_key)) panic
        has_address a.warchest_info chest_address
        is_writable a.warchest_godl_info
        _ ← as_tokens a.warchest_godl_info (key a.warchest_info)
        ok true)
      else (do require (key a.warchest_godl_info == default_key) panic; ok false)

  -- the shares and the rest
  unfoldable pub spread :
      Accounts → Bool → Bool → ℕ → Treasury N → Result (Treasury N × List (Effect A))
  spread a always warchest amount t = do
    (shared, t') ← share always amount t
    scaled ← mul_u64 amount admin_bps
    let admin_amount = scaled / denominator_bps
    unshared ← sub_u64 amount shared
    rest ← sub_u64 unshared admin_amount
    ok (
      t',
      (if ltb 0 admin_amount
            then transfer a.treasury_godl_info a.admin_godl_info admin_amount ∷ []
            else [])
          ++ (if ltb 0 rest
              then ((if warchest
                    then transfer a.treasury_godl_info a.warchest_godl_info rest
                    else burn a.treasury_godl_info rest)
                  ∷ [])
              else []),
    )

  -- the checks of what the swap has left, and what it has bought
  unfoldable pub bought : AfterSwap → ℕ → ℕ → ℕ → Result ℕ
  bought after godl lamports supply = do
    require (after.lamports == lamports) panic
    require (after.supply == supply) panic
    total ← sub_u64 after.godl godl
    require (after.sol == 0) panic
    ok total

  -- `after` is what the swap program does
  unfoldable pub process_bury : Accounts → AfterSwap → Result (Treasury N × List (Effect A))
  process_bury a after = do
    is_signer a.signer_info
    _ ← as_board a.board_info
    c ← as_config a.config_info
    demand (c.bury_authority == key a.signer_info)
    has_address a.mint_info mint_address
    supply ← as_mint a.mint_info
    t ← as_treasury a.treasury_info
    godl ← as_tokens a.treasury_godl_info (key a.treasury_info)
    sol ← as_wsol a.treasury_sol_info (key a.treasury_info)
    has_address a.admin_info admin_godl_fee
    _ ← as_tokens a.admin_godl_info (key a.admin_info)
    warchest ← load_warchest a
    is_token_program a.token_program
    is_godl_program a.godl_program
    require (ltb 0 sol) panic
    total ← bought after godl (lamports a.treasury_info) supply
    (t', es) ← spread a true warchest total t
    ok (t', sync_native a.treasury_sol_info ∷ swap c.swap_program a.treasury_info ∷ es)

  unfoldable pub process_bury_tokens : Accounts → ℕ → Result (Treasury N × List (Effect A))
  process_bury_tokens a amount = do
    is_signer a.signer_info
    _ ← as_board a.board_info
    c ← as_config a.config_info
    demand (c.bury_authority == key a.signer_info)
    has_address a.mint_info mint_address
    _ ← as_mint a.mint_info
    t ← as_treasury a.treasury_info
    godl ← as_tokens a.treasury_godl_info (key a.treasury_info)
    has_address a.admin_info admin_godl_fee
    _ ← as_tokens a.admin_godl_info (key a.admin_info)
    warchest ← load_warchest a
    is_token_program a.token_program
    is_godl_program a.godl_program
    require (ltb 0 amount) panic
    require (leb amount godl) panic
    spread a false warchest amount t
