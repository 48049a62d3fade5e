-- ===== src/Staking/Lifecycle.antt =====
-- The positions and the treasury that the staking instructions lead to, as a relation.
use godl_program.Base.{ℕ, ◌+◌, ◌≡◌, refl, sym, List, [], ◌∷◌, ◌++◌, ok, arith}
use mathlib.Core.Path.{subst}
use godl_program.Base.Int.{ℤ}
use godl_program.Numeric.{Numeric}
use godl_program.Treasury.{Clock, Treasury}
use godl_program.StakeV2.{StakeV2, claim, stake_nft, unstake_nft, migrate_weight}
use godl_program.StakeV2.Frame.{
  stake_nft-Tracks, unstake_nft-Tracks, migrate_weight-Tracks, claim-SameWeight,
}
use godl_program.Runtime.{Steel, Effect}
use godl_program.Staking.{Accounts, Staked}
use godl_program.Staking.Deposits.{fill_new_stake, top_up, compound}
use godl_program.Staking.Withdrawals.{withdraw_loaded, close_empty}
use godl_program.Staking.Merge.{MergeAccounts, Merged, merge_loaded}
use godl_program.Otc.Quotes.{Quote}
use godl_program.Otc.Trade.{TradeAccounts, lock_in}
use godl_program.Otc.Stakes.{lock_in-Tracks}
use godl_program.Staking.Upkeep.{reconcile}
use godl_program.Staking.Weights.{
  Tracks-SameWeight, top_up-Follows, compound-Follows, withdraw_loaded-Follows,
}
use godl_program.Stake.{Stake}
use godl_program.Stake
use godl_program.Stake.Totals.{claim-balance}
use godl_program.Staking.First.{withdraw_first}
use godl_program.Staking.Upkeep.{process_close_phantom_stake_v2}
use godl_program.Staking.Totals.{
  balances, WeightsSum, WeightsSum-lower, Tracks-WeightsSum, WeightsSum-to_front, empty_units,
  fill-WeightsSum, merge-WeightsSum, close-WeightsSum, reconcile-Tracks, phantom-keeps,
  withdraw_first-moves,
}

module _ {N A : Type 0} ⦃num : Numeric N⦄ (steel : Steel N A) where
  -- All the positions, in some order, and the treasury. An instruction acts on the position in
  -- front, and any position can be brought there. The
  -- positions of the first kind are those there are: nothing opens one. Of what the rest of the
  -- program does to the treasury, it has what leaves `total_staked`: the admin's rebase of it is not
  -- among the steps. The instructions are taken from where their accounts have been loaded, with any
  -- amounts in the token accounts.
  pub data Reachable : List (Stake N) → List (StakeV2 N) → Treasury N → Type 0 where
    no_stakes :
        (fs : List (Stake N)) (t : Treasury N) → t.total_staked ≡ balances fs → Reachable fs [] t
    others :
        (fs : List (Stake N)) (ss : List (StakeV2 N)) (t t' : Treasury N)
        → t'.total_staked ≡ t.total_staked
        → Reachable fs ss t
        → Reachable fs ss t'
    to_front :
        (fs : List (Stake N)) (xs ys : List (StakeV2 N)) (s : StakeV2 N) (t : Treasury N)
        → Reachable fs (xs ++ (s ∷ ys)) t
        → Reachable fs (s ∷ (xs ++ ys)) t
    deposits :
        (fs : List (Stake N)) (a : Accounts steel) (c : Clock) (id amount available : ℕ) (lock : ℤ)
        (ss : List (StakeV2 N)) (t : Treasury N) (r : Staked steel)
        → fill_new_stake steel a c id amount lock available t ≡ ok r
        → Reachable fs ss t
        → Reachable fs (r.stake_after ∷ ss) r.treasury_after
    trades :
        (fs : List (Stake N)) (a : TradeAccounts steel) (c : Clock) (q : Quote) (available held : ℕ)
        (s : StakeV2 N) (ss : List (StakeV2 N)) (t t' : Treasury N) (es : List (Effect A))
        → lock_in steel a c q available t ≡ ok (s, t', held, es)
        → Reachable fs ss t
        → Reachable fs (s ∷ ss) t'
    tops_up :
        (fs : List (Stake N)) (a : Accounts steel) (c : Clock) (amount available : ℕ)
        (s : StakeV2 N) (ss : List (StakeV2 N)) (t : Treasury N) (r : Staked steel)
        → top_up steel a c amount available s t ≡ ok r
        → Reachable fs (s ∷ ss) t
        → Reachable fs (r.stake_after ∷ ss) r.treasury_after
    compounds :
        (fs : List (Stake N)) (a : Accounts steel) (c : Clock) (held : ℕ) (s : StakeV2 N)
        (ss : List (StakeV2 N)) (t : Treasury N) (r : Staked steel)
        → compound steel a c held s t ≡ ok r
        → Reachable fs (s ∷ ss) t
        → Reachable fs (r.stake_after ∷ ss) r.treasury_after
    withdraws :
        (fs : List (Stake N)) (a : Accounts steel) (c : Clock) (amount held : ℕ) (s : StakeV2 N)
        (ss : List (StakeV2 N)) (t : Treasury N) (r : Staked steel)
        → withdraw_loaded steel a c amount held s t ≡ ok r
        → Reachable fs (s ∷ ss) t
        → Reachable fs (r.stake_after ∷ ss) r.treasury_after
    claims_yield :
        (fs : List (Stake N)) (c : Clock) (amount paid : ℕ) (s s' : StakeV2 N)
        (ss : List (StakeV2 N)) (t : Treasury N)
        → claim s amount c t ≡ ok (paid, s')
        → Reachable fs (s ∷ ss) t
        → Reachable fs (s' ∷ ss) t
    merges :
        (fs : List (Stake N)) (a : MergeAccounts steel) (c : Clock) (target source : StakeV2 N)
        (held held' : ℕ) (ss : List (StakeV2 N)) (t : Treasury N) (r : Merged steel)
        → merge_loaded steel a c target source held held' t ≡ ok r
        → Reachable fs (target ∷ source ∷ ss) t
        → Reachable fs (r.target_after ∷ ss) r.treasury_after
    closes :
        (fs : List (Stake N)) (a : Accounts steel) (c : Clock) (s : StakeV2 N)
        (ss : List (StakeV2 N)) (t : Treasury N) (r : StakeV2 N × List (Effect A))
        → close_empty steel a c s t ≡ ok r
        → Reachable fs (s ∷ ss) t
        → Reachable fs ss t
    reconciles :
        (fs : List (Stake N)) (c : Clock) (held : ℕ) (s s' : StakeV2 N) (ss : List (StakeV2 N))
        (t t' : Treasury N)
        → reconcile steel c held s t ≡ ok (s', t')
        → Reachable fs (s ∷ ss) t
        → Reachable fs (s' ∷ ss) t'
    migrates :
        (fs : List (Stake N)) (s s' : StakeV2 N) (ss : List (StakeV2 N)) (t t' : Treasury N)
        → migrate_weight s t ≡ ok (s', t')
        → Reachable fs (s ∷ ss) t
        → Reachable fs (s' ∷ ss) t'
    stakes_nft :
        (fs : List (Stake N)) (s s' : StakeV2 N) (ss : List (StakeV2 N)) (t t' : Treasury N)
        → stake_nft s t ≡ ok (s', t')
        → Reachable fs (s ∷ ss) t
        → Reachable fs (s' ∷ ss) t'
    unstakes_nft :
        (fs : List (Stake N)) (s s' : StakeV2 N) (ss : List (StakeV2 N)) (t t' : Treasury N)
        → unstake_nft s t ≡ ok (s', t')
        → Reachable fs (s ∷ ss) t
        → Reachable fs (s' ∷ ss) t'
    sets_executor :
        (fs : List (Stake N)) (executor : ℕ) (s : StakeV2 N) (ss : List (StakeV2 N))
        (t : Treasury N)
        → Reachable fs (s ∷ ss) t
        → Reachable fs (record s { executor = executor } ∷ ss) t
    closes_phantom :
        (fs : List (Stake N)) (chain : Steel N A) (a : Accounts chain) (s : StakeV2 N)
        (ss : List (StakeV2 N)) (t t' : Treasury N) (es : List (Effect A))
        → chain.as_stake_v2 a.stake_info ≡ ok s
        → chain.as_treasury a.treasury_info ≡ ok t
        → process_close_phantom_stake_v2 chain a ≡ ok (t', es)
        → Reachable fs (s ∷ ss) t
        → Reachable fs ss t'
    first_to_front :
        (es fs : List (Stake N)) (f : Stake N) (ss : List (StakeV2 N)) (t : Treasury N)
        → Reachable (es ++ (f ∷ fs)) ss t
        → Reachable (f ∷ (es ++ fs)) ss t
    withdraws_first :
        (a : Accounts steel) (c : Clock) (amount held : ℕ) (f f' : Stake N) (fs : List (Stake N))
        (ss : List (StakeV2 N)) (t t' : Treasury N) (es : List (Effect A))
        → withdraw_first steel a c amount held f t ≡ ok (f', t', es)
        → Reachable (f ∷ fs) ss t
        → Reachable (f' ∷ fs) ss t'
    claims_first :
        (c : Clock) (amount paid : ℕ) (f f' : Stake N) (fs : List (Stake N)) (ss : List (StakeV2 N))
        (t : Treasury N)
        → Stake.claim f amount c t ≡ ok (paid, f')
        → Reachable (f ∷ fs) ss t
        → Reachable (f' ∷ fs) ss t

  balances-to_front :
      (es fs : List (Stake N)) (f : Stake N)
      → balances (es ++ (f ∷ fs)) ≡ f.balance + balances (es ++ fs)
  balances-to_front [] fs f = refl
  balances-to_front (e ∷ es) fs f = omega (arith, balances-to_front es fs f)

  -- Whatever staking instructions of both kinds are carried out, in whatever order and on whatever
  -- positions, the weights of all positions are computed without overflow and add up to
  -- `total_staked` with the balances of the positions of the first kind. It is so at the start, and
  -- the admin's rebase of `total_staked` is not carried out.
  pub Reachable-IsBalanced :
      (fs : List (Stake N)) (ss : List (StakeV2 N)) (t : Treasury N)
      → Reachable fs ss t
      → WeightsSum (balances fs) ss t.total_staked
  Reachable-IsBalanced fs [] _ (no_stakes _ t z) = z
  Reachable-IsBalanced fs ss _ (others _ _ t t' e p) =
      subst (WeightsSum (balances fs) ss) (sym e) (Reachable-IsBalanced fs ss t p)
  Reachable-IsBalanced fs _ _ (to_front _ xs ys s t p) =
      WeightsSum-to_front steel (balances fs) xs ys s t.total_staked
        (Reachable-IsBalanced fs (xs ++ (s ∷ ys)) t p)
  Reachable-IsBalanced fs _ _ (deposits _ a c id amount available lock ss t r h p) =
      fill-WeightsSum steel (balances fs) a c id amount available lock ss t r h
        (Reachable-IsBalanced fs ss t p)
  Reachable-IsBalanced fs _ _ (trades _ a c q available held s ss t t' es h p) =
      let (s₀, empty, k) = lock_in-Tracks steel a c q available held s t t' es h in
      Tracks-WeightsSum steel (balances fs) s₀ s ss t t' k (
        k.before,
        t.total_staked,
        k.before_units,
        Reachable-IsBalanced fs ss t p,
        omega (arith, empty_units steel s₀ k.before empty k.before_units),
      )
  Reachable-IsBalanced fs _ _ (tops_up _ a c amount available s ss t r h p) =
      let sum = Reachable-IsBalanced fs (s ∷ ss) t p in
      let (u, _, w, _, _) = sum in
      Tracks-WeightsSum steel (balances fs) s r.stake_after ss t r.treasury_after
        (top_up-Follows steel a c amount available u s t r w h) sum
  Reachable-IsBalanced fs _ _ (compounds _ a c held s ss t r h p) =
      let sum = Reachable-IsBalanced fs (s ∷ ss) t p in
      let (u, _, w, _, _) = sum in
      Tracks-WeightsSum steel (balances fs) s r.stake_after ss t r.treasury_after
        (compound-Follows steel a c held u s t r w h) sum
  Reachable-IsBalanced fs _ _ (withdraws _ a c amount held s ss t r h p) =
      let sum = Reachable-IsBalanced fs (s ∷ ss) t p in
      let (u, _, w, _, _) = sum in
      Tracks-WeightsSum steel (balances fs) s r.stake_after ss t r.treasury_after
        (withdraw_loaded-Follows steel a c amount held u s t r w h) sum
  Reachable-IsBalanced fs _ _ (claims_yield _ c amount paid s s' ss t h p) =
      let sum = Reachable-IsBalanced fs (s ∷ ss) t p in
      let (u, _, w, _, _) = sum in
      Tracks-WeightsSum steel (balances fs) s s' ss t t
        (Tracks-SameWeight s s' t u w (claim-SameWeight s s' t amount paid c h)) sum
  Reachable-IsBalanced fs _ _ (merges _ a c target source held held' ss t r h p) =
      merge-WeightsSum steel (balances fs) a c target source held held' ss t r h
        (Reachable-IsBalanced fs (target ∷ source ∷ ss) t p)
  Reachable-IsBalanced fs _ _ (closes _ a c s ss t r h p) =
      close-WeightsSum steel (balances fs) a c s ss t r h (Reachable-IsBalanced fs (s ∷ ss) t p)
  Reachable-IsBalanced fs _ _ (reconciles _ c held s s' ss t t' h p) =
      Tracks-WeightsSum steel (balances fs) s s' ss t t' (reconcile-Tracks steel c held s s' t t' h)
        (Reachable-IsBalanced fs (s ∷ ss) t p)
  Reachable-IsBalanced fs _ _ (migrates _ s s' ss t t' h p) =
      let sum = Reachable-IsBalanced fs (s ∷ ss) t p in
      let (u, _, w, _, _) = sum in
      Tracks-WeightsSum steel (balances fs) s s' ss t t' (migrate_weight-Tracks s s' t t' u w h) sum
  Reachable-IsBalanced fs _ _ (stakes_nft _ s s' ss t t' h p) =
      Tracks-WeightsSum steel (balances fs) s s' ss t t' (stake_nft-Tracks s s' t t' h)
        (Reachable-IsBalanced fs (s ∷ ss) t p)
  Reachable-IsBalanced fs _ _ (unstakes_nft _ s s' ss t t' h p) =
      Tracks-WeightsSum steel (balances fs) s s' ss t t' (unstake_nft-Tracks s s' t t' h)
        (Reachable-IsBalanced fs (s ∷ ss) t p)
  Reachable-IsBalanced fs _ _ (sets_executor _ executor s ss t p) =
      let sum = Reachable-IsBalanced fs (s ∷ ss) t p in
      let (u, _, w, _, _) = sum in
      Tracks-WeightsSum steel (balances fs) s (record s { executor = executor }) ss t t
        (Tracks-SameWeight s (record s { executor = executor }) t u w (refl, refl, refl, refl)) sum
  Reachable-IsBalanced fs _ _ (closes_phantom _ chain a s ss t t' es loaded current h p) =
      let (u, m, w, rest, e) = Reachable-IsBalanced fs (s ∷ ss) t p in
      let (empty, kept) = phantom-keeps chain a s t t' es loaded current h in
      let nothing = empty_units steel s u empty w in
      subst (WeightsSum (balances fs) ss) (omega arith) rest
  Reachable-IsBalanced _ ss _ (first_to_front es fs f _ t p) =
      subst (λ z. WeightsSum z ss t.total_staked) (balances-to_front es fs f)
        (Reachable-IsBalanced (es ++ (f ∷ fs)) ss t p)
  Reachable-IsBalanced _ ss _ (withdraws_first a c amount held f f' fs _ t t' es h p) =
      let (n, balance, total) = withdraw_first-moves steel a c amount held f f' t t' es h in
      WeightsSum-lower (f.balance + balances fs) (f'.balance + balances fs) n ss t.total_staked
        t'.total_staked (omega arith) total (Reachable-IsBalanced (f ∷ fs) ss t p)
  Reachable-IsBalanced _ ss _ (claims_first c amount paid f f' fs _ t h p) =
      subst (λ z. WeightsSum (z + balances fs) ss t.total_staked)
        (sym (claim-balance f f' amount paid c t h)) (Reachable-IsBalanced (f ∷ fs) ss t p)
