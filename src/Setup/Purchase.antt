-- ===== src/Setup/Purchase.antt =====
-- What pre_buy_gold takes out of the motherlode's SOL.
use godl_program.Base.{ℕ, ◌+◌, ◌*◌, ◌-◌, ◌/◌, ◌≡◌, ◌≤◌, List, [], ◌∷◌, ok, arith}
use godl_program.Consts.{rush_sol_motherlode_bps, denominator_bps}
use godl_program.Numeric.{Numeric}
use godl_program.Treasury.{Clock}
use godl_program.Round.{Config}
use godl_program.Gold.{SolMotherlode, split_payout}
use godl_program.Runtime.{Steel, Effect, send}
use godl_program.Runtime.Flows.{outflow}
use godl_program.Setup.Vaults.{VaultAccounts, move_motherlode, process_pre_buy_gold}

module _ {N A : Type 0} ⦃num : Numeric N⦄ (steel : Steel N A) where
  -- A pre_buy_gold only goes through for the bury authority. It sends just what it is asked for, a
  -- tenth rounded down to the rush vault and the rest to the gold vault; just this leaves the recorded
  -- amount, and what the account holds covers it beyond the account's rent.
  pub pre_buy_exact :
      (a : VaultAccounts steel) (clock : Clock) (amount : ℕ) (c : Config) (l l' : SolMotherlode)
      (es : List (Effect A))
      → steel.as_config a.config_info ≡ ok c
      → steel.as_sol_motherlode a.sol_motherlode_info ≡ ok l
      → process_pre_buy_gold steel a clock amount ≡ ok (l', es)
      → (c.bury_authority ≡ steel.key a.signer_info)
        × (es
            ≡ send a.sol_motherlode_info
                (amount * rush_sol_motherlode_bps / denominator_bps)
                a.rush_sol_vault_info
              ∷ send a.sol_motherlode_info
                  (amount - amount * rush_sol_motherlode_bps / denominator_bps)
                  a.gold_vault_sol_info
              ∷ [])
        × (outflow es ≡ amount)
        × (l'.amount + outflow es ≡ l.amount)
        × (steel.sol_motherlode_rent + outflow es ≤ steel.lamports a.sol_motherlode_info)
  unfolding process_pre_buy_gold move_motherlode split_payout
  pre_buy_exact a clock amount c l l' es ec el h =
      (ground arith, ground arith, ground arith, ground arith, ground arith)
