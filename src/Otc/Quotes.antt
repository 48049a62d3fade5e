-- ===== src/Otc/Quotes.antt =====
-- program/src/otc/execute_otc_trade.rs: the quote, its guards, and what it does to the books of the desk
-- and of the buyer.
use godl_program.Base.{
  ℕ, ◌-◌, ◌||◌, List, [], ◌∷◌, Result, ok, err, godl, invalid_instruction_data, u64_mod, ◌^◌,
  amount_too_small, arithmetic_overflow, otc_quote_expired, invalid_lock_duration,
  insufficient_otc_godl_balance, ◌>>=◌, ◌>>◌, require, reject, ltb, leb, ◌==◌, if◌then◌else◌,
  checked_add, checked_sub,
}
use godl_program.Base.Int.{ℤ, pos, negsuc, ltb_ℤ}
use godl_program.Consts.{max_lock_duration, one_month}
use godl_program.Treasury.{Clock}
use godl_program.Otc.{OtcTreasury, OtcUser}

pub record Quote : Type 0 where
  pub stake_id : ℕ
  pub sol_in : ℕ
  pub godl_out : ℕ
  pub godl_bonus : ℕ
  pub expiry_slot : ℕ
  pub lock_duration : ℤ

-- `i64::from_le_bytes`, from the `u64` of the same bytes
unfoldable pub i64_of_bits : ℕ → ℤ
i64_of_bits n = if ltb n (2 ^ 63) then pos n else negsuc (u64_mod - 1 - n)

-- the instruction's data
unfoldable pub quote_of : List ℕ → Result Quote
quote_of (stake_id ∷ sol_in ∷ godl_out ∷ godl_bonus ∷ expiry_slot ∷ lock_duration ∷ []) =
    ok (record {
      stake_id = stake_id;
      sol_in = sol_in;
      godl_out = godl_out;
      godl_bonus = godl_bonus;
      expiry_slot = expiry_slot;
      lock_duration = i64_of_bits lock_duration;
    })
quote_of _ = err invalid_instruction_data

-- the quote's own guards, before the position's account is looked at
unfoldable pub check_quote : Clock → Quote → Result (Unit {0})
check_quote clock q = do
  reject (ltb q.expiry_slot clock.slot) (godl otc_quote_expired)
  reject (q.sol_in == 0 || q.godl_out == 0) (godl amount_too_small)
  reject (ltb_ℤ q.lock_duration (pos one_month) || ltb_ℤ (pos max_lock_duration) q.lock_duration)
      (godl invalid_lock_duration)

-- the desk's books
unfoldable pub book_trade : ℕ → ℕ → OtcTreasury → Result OtcTreasury
book_trade total_godl_required sol_in o = do
  require (leb total_godl_required o.godl_balance) (godl insufficient_otc_godl_balance)
  sol ← checked_add o.sol_balance sol_in arithmetic_overflow
  rest ← checked_sub o.godl_balance total_godl_required (godl insufficient_otc_godl_balance)
  ok (record o { sol_balance = sol; godl_balance = rest })

-- the buyer's totals
unfoldable pub record_trade : Quote → OtcUser → Result OtcUser
record_trade q u = do
  sol ← checked_add u.total_sol_in q.sol_in arithmetic_overflow
  out ← checked_add u.total_godl_out q.godl_out arithmetic_overflow
  bonus ← checked_add u.total_godl_bonus q.godl_bonus arithmetic_overflow
  ok (record u { total_sol_in = sol; total_godl_out = out; total_godl_bonus = bonus })
