-- ===== src/Admin/Spending.antt =====
-- What pre_bury and withdraw_vault take out of the treasury's SOL.
use godl_program.Base.{ℕ, ◌+◌, ◌≡◌, ◌≤◌, List, ok, arith}
use godl_program.Numeric.{Numeric}
use godl_program.Treasury.{Treasury}
use godl_program.Round.{Config}
use godl_program.Runtime.{Steel, Effect}
use godl_program.Runtime.Flows.{outflow}
use godl_program.Admin.{
  Accounts, check_bury_authority, take_from_vault, process_pre_bury, process_withdraw_vault,
}

module _ {N A : Type 0} ⦃num : Numeric N⦄ (steel : Steel N A) where
  -- the two instructions that send SOL of the treasury, and what they send
  pub data Spends (a : Accounts steel) : Treasury N → List (Effect A) → Type 0 where
    pre_buries :
        (bury chest admin : ℕ) (t' : Treasury N) (es : List (Effect A))
        → process_pre_bury steel a bury chest admin ≡ ok (t', es)
        → Spends a t' es
    withdraws :
        (amount : ℕ) (t' : Treasury N) (es : List (Effect A))
        → process_withdraw_vault steel a amount ≡ ok (t', es)
        → Spends a t' es

  -- what a spending leaves of a treasury
  record Spent (a : Accounts steel) (c : Config) (t t' : Treasury N) (out : ℕ) : Type 0 where
    authorised : c.bury_authority ≡ steel.key a.signer_info
    booked : t'.balance + out ≡ t.balance
    covered : steel.treasury_struct_rent + out ≤ steel.lamports a.treasury_info
    only : t' ≡ record t { balance = t'.balance }

  module _ (a : Accounts steel) (c : Config) (t : Treasury N)
      (current : steel.as_config a.config_info ≡ ok c)
      (loaded : steel.as_treasury a.treasury_info ≡ ok t) where
    pre_bury-eq-ok :
        (bury chest admin : ℕ) (t' : Treasury N) (es : List (Effect A))
        → process_pre_bury steel a bury chest admin ≡ ok (t', es)
        → Spent a c t t' (outflow es)
    unfolding process_pre_bury take_from_vault check_bury_authority
    pre_bury-eq-ok bury chest admin t' es h = record {
      authorised = ground arith;
      booked = ground arith;
      covered = ground arith;
      only = ground arith;
    }

    withdraw_vault-eq-ok :
        (amount : ℕ) (t' : Treasury N) (es : List (Effect A))
        → process_withdraw_vault steel a amount ≡ ok (t', es)
        → Spent a c t t' (outflow es)
    unfolding process_withdraw_vault take_from_vault check_bury_authority
    withdraw_vault-eq-ok amount t' es h = record {
      authorised = ground arith;
      booked = ground arith;
      covered = ground arith;
      only = ground arith;
    }

    -- A pre_bury or a withdraw_vault only goes through for the bury authority. Just what it sends
    -- leaves the recorded balance, and nothing else changes; and the account holds what is sent on top
    -- of the minimum balance for the size of the struct `Treasury`, which leaves out the account's
    -- discriminator.
    pub Spends-exact :
        (t' : Treasury N) (es : List (Effect A))
        → Spends a t' es
        → (c.bury_authority ≡ steel.key a.signer_info)
          × (t'.balance + outflow es ≡ t.balance)
          × (steel.treasury_struct_rent + outflow es ≤ steel.lamports a.treasury_info)
          × (t' ≡ record t { balance = t'.balance })
    Spends-exact t' es (pre_buries bury chest admin _ _ h) =
        let r = pre_bury-eq-ok bury chest admin t' es h in
        (r.authorised, r.booked, r.covered, r.only)
    Spends-exact t' es (withdraws amount _ _ h) =
        let r = withdraw_vault-eq-ok amount t' es h in (r.authorised, r.booked, r.covered, r.only)
