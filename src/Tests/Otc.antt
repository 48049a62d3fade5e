-- ===== src/Tests/Otc.antt =====
-- A trade over the counter.
use godl_program.Base.{ℕ, ◌+◌, ◌*◌, ◌≡◌, refl, some, [], ◌∷◌, ok}
use godl_program.Base.Int.{pos}
use godl_program.Consts.{one_month}
use godl_program.Isqrt.{isqrt_u128, newton_from, bit_length}
use godl_program.Numeric.{one}
use godl_program.Numeric.Fixed.{units}
use godl_program.Runtime.{
  Steel, collect, create, open_tokens, transfer, send, otc_user, otc_treasury, stake_v2,
  miner_extended,
}
use godl_program.Runtime.Flows.{token_flow, collected}
use godl_program.StakeV2.{
  deposit, weighted_units, apply_multiplier, applied_multiplier, effective_multiplier, raise_total,
}
use godl_program.Miner.{accrue}
use godl_program.Gold.{init}
use godl_program.Extended.{load_or_create_miner_extended, sync_gold_rewards}
use godl_program.Staking.Deposits.{fresh_stake, stake_multiplier, saturate}
use godl_program.Otc.{OtcTreasury}
use godl_program.Otc.Desk.{
  DeskAccounts, opened_desk, process_initialize_otc_treasury, open_desk_tokens, load_to_fund, fund,
  process_fund_godl_otc, load_to_drain, drain, process_withdraw_sol_otc,
}
use godl_program.Otc.Quotes.{Quote, check_quote, book_trade, record_trade}
use godl_program.Otc.Trade.{
  TradeAccounts, Traded, opened_user, process_execute_otc_trade, check_trade, trade, fill_trade,
  open_buyer, open_user, open_stake_tokens, lock_in, bonus_leg, pay_bonus, add_bonus,
}
use godl_program.Otc.Ledger.{
  Dealt, Filled, opens, funds, trades, drains, trade_settles, Dealt-books,
}
use godl_program.StakeV2
use godl_program.Miner
use godl_program.Gold
use godl_program.Tests.Samples.{runtime, clock, otc_desk, treasury, miner, vault}

abbrev rich : Steel ℕ ℕ
rich = record runtime { as_tokens = λ a o. ok 5000 }

abbrev quote : Quote
quote = record {
  stake_id = 3;
  sol_in = 10;
  godl_out = 500;
  godl_bonus = 50;
  expiry_slot = 2000;
  lock_duration = pos one_month;
}

abbrev accounts : TradeAccounts rich
accounts = record {
  buyer_info = 9;
  oracle_info = 1;
  mint_info = 2;
  miner_info = 3;
  otc_user_info = 99;
  otc_treasury_info = 4;
  otc_treasury_tokens_info = 5;
  treasury_info = 6;
  treasury_tokens_info = 7;
  stake_info = 99;
  stake_tokens_info = 99;
  system_program = 8;
  token_program = 8;
  associated_token_program = 8;
  gold_vault_info = 10;
  miner_extended_info = 99;
}

abbrev traded : Traded rich
traded = record {
  desk_after = record otc_desk { sol_balance = 10; godl_balance = 350 };
  miner_after = record miner {
    rewards_factor = 3 * one;
    rewards_godl = 70;
    refined_godl = 25;
    lifetime_rewards_godl = 90;
  };
  extended_after = some (init 9 vault);
  user_after = record (opened_user rich 9) {
    total_sol_in = 10;
    total_godl_out = 500;
    total_godl_bonus = 50;
  };
  stake_after = record (fresh_stake 9 9 clock 3 (pos one_month) treasury) {
    balance = 500;
    last_deposit_at = pos 500;
  };
  treasury_after = record treasury { total_staked = 667; total_unclaimed = 110 };
  vault = 500;
  effects =
      collect 4 10 9
      ∷ create 99 (otc_user 9) 9
      ∷ create 99 (stake_v2 9 3) 9
      ∷ open_tokens 99 99
      ∷ transfer 5 99 500
      ∷ transfer 5 7 50
      ∷ create 99 (miner_extended 9) 9
      ∷ [];
}

trade_run : process_execute_otc_trade rich accounts clock quote ≡ ok traded
unfolding process_execute_otc_trade check_trade check_quote trade book_trade fill_trade open_buyer
    open_user open_stake_tokens lock_in bonus_leg pay_bonus add_bonus record_trade
    StakeV2.update_rewards deposit weighted_units apply_multiplier applied_multiplier
    effective_multiplier isqrt_u128 newton_from bit_length raise_total stake_multiplier saturate
    load_or_create_miner_extended sync_gold_rewards Miner.update_rewards Gold.update_rewards accrue
    init
trade_run = refl

trade_settles_example :
    (350 + token_flow traded.effects ≡ 900)
    × (10 ≡ 0 + collected traded.effects)
    × Filled rich quote treasury traded
trade_settles_example =
    trade_settles rich accounts clock quote otc_desk treasury traded refl refl trade_run

-- the desk's history: it is opened, funded, trades, and is drained
abbrev desk_accounts : DeskAccounts rich
desk_accounts = record {
  signer_info = 1;
  mint_info = 2;
  signer_tokens_info = 11;
  otc_treasury_info = 4;
  otc_treasury_tokens_info = 5;
  chest_info = 12;
  system_program = 8;
  token_program = 8;
  associated_token_program = 8;
}

abbrev at_desk : OtcTreasury → Steel ℕ ℕ
at_desk o = record rich { as_otc_treasury = λ a. ok o }

-- the same accounts, whatever the desk's state
abbrev accounts_at : (o : OtcTreasury) → DeskAccounts (at_desk o)
accounts_at o = record {
  signer_info = 1;
  mint_info = 2;
  signer_tokens_info = 11;
  otc_treasury_info = 4;
  otc_treasury_tokens_info = 5;
  chest_info = 12;
  system_program = 8;
  token_program = 8;
  associated_token_program = 8;
}

opened : Dealt ℕ ℕ (opened_desk rich) 0 0 0 0
unfolding process_initialize_otc_treasury open_desk_tokens
opened = opens rich desk_accounts _ (create 4 otc_treasury 1 ∷ []) refl

funded : Dealt ℕ ℕ otc_desk 900 0 0 0
unfolding process_fund_godl_otc load_to_fund fund
funded =
    funds (at_desk (opened_desk rich)) (accounts_at (opened_desk rich)) 900 (opened_desk rich)
      otc_desk (transfer 11 5 900 ∷ []) 0 0 0 0 refl refl opened

traded_desk : Dealt ℕ ℕ traded.desk_after 900 550 10 0
traded_desk =
    trades rich accounts clock quote otc_desk treasury traded 900 0 0 0 refl refl trade_run funded

drained : Dealt ℕ ℕ (record otc_desk { sol_balance = 0; godl_balance = 350 }) 900 550 10 10
unfolding process_withdraw_sol_otc load_to_drain drain
drained =
    drains (at_desk traded.desk_after) (accounts_at traded.desk_after) traded.desk_after _
      (send 4 10 12 ∷ []) 900 550 10 0 refl refl traded_desk

Dealt-books_example : (350 + 550 ≡ 900) × (0 + 10 ≡ 10)
Dealt-books_example =
    Dealt-books ℕ ℕ (record otc_desk { sol_balance = 0; godl_balance = 350 }) 900 550 10 10 drained
