-- ===== src/Otc/Trade.antt =====
-- program/src/otc/execute_otc_trade.rs: a quote that the buyer and the oracle have signed. The buyer
-- pays SOL, and gets GODL in a new locked position and a bonus as unrefined rewards.
use godl_program.Base.{
  ℕ, List, [], ◌∷◌, ◌++◌, Option, none, Result, ok, err, godl, panic, not_enough_account_keys,
  arithmetic_overflow, stake_already_exists, insufficient_otc_godl_balance, ◌>>=◌, ◌>>◌, require,
  ltb, leb, ◌==◌, if◌then◌else◌, checked_add, replicate, true,
}
use godl_program.Consts.{mint_address, otc_oracle_signer}
use godl_program.Numeric.{Numeric}
use godl_program.Treasury.{Clock, Treasury}
use godl_program.Miner.{Miner}
use godl_program.Gold.{GoldVault, MinerExtended}
use godl_program.StakeV2.{StakeV2, deposit}
use godl_program.Extended.{load_or_create_miner_extended, sync_gold_rewards}
use godl_program.Deploy.{opened_miner}
use godl_program.Staking.{received}
use godl_program.Staking.Deposits.{fresh_stake}
use godl_program.Otc.{OtcTreasury, OtcUser}
use godl_program.Otc.Quotes.{Quote, check_quote, book_trade, record_trade}
use godl_program.StakeV2
use godl_program.Miner
use godl_program.Runtime.{
  Steel, Effect, create, collect, transfer, open_tokens, demand, miner, otc_user, otc_treasury,
  treasury, stake_v2, gold_vault, miner_extended,
}

module _ {N A : Type 0} ⦃num : Numeric N⦄ (steel : Steel N A) where
  open steel use {
    key, data_is_empty, is_signer, is_writable, has_address, has_seeds, is_system_program,
    is_token_program, is_associated_token_program, as_mint, as_tokens, as_gold_vault, as_treasury,
    as_miner, as_otc_treasury, as_otc_user,
  }

  pub record TradeAccounts : Type 0 where
    pub buyer_info : A
    pub oracle_info : A
    pub mint_info : A
    pub miner_info : A
    pub otc_user_info : A
    pub otc_treasury_info : A
    pub otc_treasury_tokens_info : A
    pub treasury_info : A
    pub treasury_tokens_info : A
    pub stake_info : A
    pub stake_tokens_info : A
    pub system_program : A
    pub token_program : A
    pub associated_token_program : A
    pub gold_vault_info : A
    pub miner_extended_info : A

  -- the handler's accounts, in order
  unfoldable pub trade_accounts : List A → Result TradeAccounts
  trade_accounts
        (a₁ ∷ a₂ ∷ a₃ ∷ a₄ ∷ a₅ ∷ a₆ ∷ a₇ ∷ a₈ ∷ a₉ ∷ b₁ ∷ b₂ ∷ b₃ ∷ b₄ ∷ b₅ ∷ b₆ ∷ b₇ ∷ []) =
      ok (record {
        buyer_info = a₁;
        oracle_info = a₂;
        mint_info = a₃;
        miner_info = a₄;
        otc_user_info = a₅;
        otc_treasury_info = a₆;
        otc_treasury_tokens_info = a₇;
        treasury_info = a₈;
        treasury_tokens_info = a₉;
        stake_info = b₁;
        stake_tokens_info = b₂;
        system_program = b₃;
        token_program = b₄;
        associated_token_program = b₅;
        gold_vault_info = b₆;
        miner_extended_info = b₇;
      })
  trade_accounts _ = err not_enough_account_keys

  -- what a trade writes, and what the position's token account holds at the end
  pub record Traded : Type 0 where
    pub desk_after : OtcTreasury
    pub miner_after : Miner N
    pub extended_after : Option (MinerExtended N)
    pub user_after : OtcUser
    pub stake_after : StakeV2 N
    pub treasury_after : Treasury N
    pub vault : ℕ
    pub effects : List (Effect A)

  -- the accounts' checks: the tokens in the desk's account, and the gold vault
  unfoldable pub check_trade : TradeAccounts → ℕ → Result (ℕ × GoldVault N)
  check_trade a stake_id = do
    is_signer a.buyer_info
    is_signer a.oracle_info
    has_address a.oracle_info otc_oracle_signer
    has_address a.mint_info mint_address
    _ ← as_mint a.mint_info
    is_writable a.miner_info
    has_seeds a.miner_info (miner (key a.buyer_info))
    is_writable a.otc_user_info
    has_seeds a.otc_user_info (otc_user (key a.buyer_info))
    is_writable a.otc_treasury_info
    has_seeds a.otc_treasury_info otc_treasury
    is_writable a.otc_treasury_tokens_info
    available ← as_tokens a.otc_treasury_tokens_info (key a.otc_treasury_info)
    is_writable a.treasury_info
    has_seeds a.treasury_info treasury
    is_writable a.treasury_tokens_info
    _ ← as_tokens a.treasury_tokens_info (key a.treasury_info)
    is_writable a.stake_info
    has_seeds a.stake_info (stake_v2 (key a.buyer_info) stake_id)
    is_writable a.stake_tokens_info
    is_system_program a.system_program
    is_token_program a.token_program
    is_associated_token_program a.associated_token_program
    has_seeds a.gold_vault_info gold_vault
    vault ← as_gold_vault a.gold_vault_info
    has_seeds a.miner_extended_info (miner_extended (key a.buyer_info))
    ok (available, vault)

  unfoldable pub open_buyer : TradeAccounts → Result (Miner N × List (Effect A))
  open_buyer a =
      if data_is_empty a.miner_info
      then ok (
        opened_miner steel (key a.buyer_info),
        create a.miner_info (miner (key a.buyer_info)) a.buyer_info ∷ [],
      )
      else (do m ← as_miner a.miner_info; demand (m.authority == key a.buyer_info); ok (m, []))

  abbrev pub opened_user : ℕ → OtcUser
  opened_user authority = record {
    authority = authority;
    total_sol_in = 0;
    total_godl_out = 0;
    total_godl_bonus = 0;
    buffer = replicate 32 0;
  }

  unfoldable pub open_user : TradeAccounts → Result (OtcUser × List (Effect A))
  open_user a =
      if data_is_empty a.otc_user_info
      then ok (
        opened_user (key a.buyer_info),
        create a.otc_user_info (otc_user (key a.buyer_info)) a.buyer_info ∷ [],
      )
      else (do
        u ← as_otc_user a.otc_user_info
        demand (u.authority == key a.buyer_info)
        ok (u, []))

  -- the position's token account, created or checked
  unfoldable pub open_stake_tokens : TradeAccounts → Result (ℕ × List (Effect A))
  open_stake_tokens a =
      if data_is_empty a.stake_tokens_info
      then ok (0, open_tokens a.stake_tokens_info a.stake_info ∷ [])
      else (do held ← as_tokens a.stake_tokens_info (key a.stake_info); ok (held, []))

  -- the new position gets the GODL in full: it, the treasury, what its token account then holds, and
  -- the calls
  unfoldable pub lock_in :
      TradeAccounts
      → Clock
      → Quote
      → ℕ
      → Treasury N
      → Result (StakeV2 N × Treasury N × ℕ × List (Effect A))
  lock_in a clock q available t = do
    let buyer = key a.buyer_info
    s ← StakeV2.update_rewards (fresh_stake buyer buyer clock q.stake_id q.lock_duration t) t
    (held, opened) ← open_stake_tokens a
    (deposited, s', t') ← deposit s q.godl_out clock t available
    require (deposited == q.godl_out) (godl insufficient_otc_godl_balance)
    vault ← received held deposited
    ok (
      s',
      t',
      vault,
      create a.stake_info (stake_v2 buyer q.stake_id) a.buyer_info
          ∷ (opened ++ (transfer a.otc_treasury_tokens_info a.stake_tokens_info deposited ∷ [])),
    )

  -- the bonus is credited to the settled miner
  unfoldable pub add_bonus : ℕ → Miner N → Treasury N → Result (Miner N × Treasury N)
  add_bonus bonus m t = do
    rewards ← checked_add m.rewards_godl bonus arithmetic_overflow
    lifetime ← checked_add m.lifetime_rewards_godl bonus arithmetic_overflow
    unclaimed ← checked_add t.total_unclaimed bonus arithmetic_overflow
    ok (
      record m { rewards_godl = rewards; lifetime_rewards_godl = lifetime },
      record t { total_unclaimed = unclaimed },
    )

  unfoldable pub pay_bonus :
      TradeAccounts
      → ℕ
      → GoldVault N
      → Miner N
      → Treasury N
      → Result (Miner N × Treasury N × Option (MinerExtended N) × List (Effect A))
  pay_bonus a bonus vault m t = do
    (extended, created) ←
        load_or_create_miner_extended steel a.miner_extended_info vault (key a.buyer_info)
          a.buyer_info true
    settled ← Miner.update_rewards m t
    extended' ← sync_gold_rewards extended vault settled
    (m', t') ← add_bonus bonus settled t
    ok (
      m',
      t',
      extended',
      transfer a.otc_treasury_tokens_info a.treasury_tokens_info bonus ∷ created,
    )

  -- only for a bonus
  unfoldable pub bonus_leg :
      TradeAccounts
      → ℕ
      → GoldVault N
      → Miner N
      → Treasury N
      → Result (Miner N × Treasury N × Option (MinerExtended N) × List (Effect A))
  bonus_leg a bonus vault m t =
      if ltb 0 bonus then pay_bonus a bonus vault m t else ok (m, t, none, [])

  -- the trade, from where the desk has been booked
  unfoldable pub fill_trade :
      TradeAccounts → Clock → Quote → ℕ → GoldVault N → OtcTreasury → Result Traded
  fill_trade a clock q available vault o = do
    (m, created) ← open_buyer a
    (u, created_user) ← open_user a
    t ← as_treasury a.treasury_info
    (s, t₁, held, locked) ← lock_in a clock q available t
    (m', t₂, extended, paid) ← bonus_leg a q.godl_bonus vault m t₁
    u' ← record_trade q u
    require (leb s.balance held) panic
    ok (record {
      desk_after = o;
      miner_after = m';
      extended_after = extended;
      user_after = u';
      stake_after = s;
      treasury_after = t₂;
      vault = held;
      effects =
          collect a.otc_treasury_info q.sol_in a.buyer_info
          ∷ (created ++ (created_user ++ (locked ++ paid)));
    })

  -- the trade with the loaded desk
  unfoldable pub trade :
      TradeAccounts → Clock → Quote → ℕ → GoldVault N → ℕ → OtcTreasury → Result Traded
  trade a clock q available vault total o = do
    booked ← book_trade total q.sol_in o
    fill_trade a clock q available vault booked

  unfoldable pub process_execute_otc_trade : TradeAccounts → Clock → Quote → Result Traded
  process_execute_otc_trade a clock q = do
    (available, vault) ← check_trade a q.stake_id
    check_quote clock q
    require (data_is_empty a.stake_info) (godl stake_already_exists)
    total_godl_required ← checked_add q.godl_out q.godl_bonus arithmetic_overflow
    require (leb total_godl_required available) (godl insufficient_otc_godl_balance)
    o ← as_otc_treasury a.otc_treasury_info
    trade a clock q available vault total_godl_required o
