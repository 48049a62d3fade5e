-- ===== src/Otc.antt =====
-- The over-the-counter desk, which sells GODL for SOL: its accounts, api/src/state/otc_treasury.rs
-- and otc_user.rs. The instructions are program/src/otc.
pub mod Desk
pub mod Quotes
pub mod Trade
pub mod Books
pub mod Ledger
pub mod Stakes
use godl_program.Base.{ℕ, List}

pub record OtcTreasury : Type 0 where
  pub sol_balance : ℕ
  pub godl_balance : ℕ
  pub buffer : List ℕ

pub record OtcUser : Type 0 where
  pub authority : ℕ
  pub total_sol_in : ℕ
  pub total_godl_out : ℕ
  pub total_godl_bonus : ℕ
  pub buffer : List ℕ
