-- ===== src/Staking/Backing.antt =====
-- The checks of a token account against the position's balance.
use godl_program.Base.{
  ℕ, ◌+◌, ◌-◌, ◌≡◌, ◌≤◌, ◌<◌, refl, sym, ap, true, List, [], ◌∷◌, ◌++◌, ok, arith, >>=-eq-ok,
  ok-injective_triple, min, u64_mod, ◌==◌, leb, ltb, if◌then◌else◌,
}
use godl_program.Numeric.{Numeric}
use godl_program.Treasury.{Clock, Treasury}
use godl_program.StakeV2.{StakeV2, weighted_units, update_rewards, withdraw, lower_total}
use godl_program.StakeV2.Frame.{update_rewards-SameWeight}
use godl_program.Runtime.{Steel, Effect, transfer, close, close_tokens}
use godl_program.Staking.{Accounts, open_recipient}
use godl_program.Staking.Withdrawals.{take_out}
use godl_program.Staking.Merge.{MergeAccounts, Merged, merge, merge_effects, merge_loaded}
use godl_program.Staking.Locks.{merge-lock}

module _ {N : Type 0} ⦃num : Numeric N⦄ where
  withdraw-balance :
      (c : Clock) (amount n : ℕ) (s s' : StakeV2 N) (t t' : Treasury N)
      → withdraw s amount c t ≡ ok (n, s', t')
      → s'.balance + n ≡ s.balance
  unfolding withdraw
  withdraw-balance c amount n s s' t t' h =
      let (s₁, e₁, h₁) = >>=-eq-ok (update_rewards s t) _ h in
      let (u, e₂, h₂) = >>=-eq-ok (weighted_units s₁) _ h₁ in
      let taken = min s₁.balance amount in
      let s₂ = record s₁ { balance = s₁.balance - taken; last_withdraw_at = c.unix_timestamp } in
      let (v, e₃, h₃) = >>=-eq-ok (weighted_units s₂) _ h₂ in
      let (t₁, e₄, h₄) = >>=-eq-ok (lower_total u v t) _ h₃ in
      let (p, q, _) = ok-injective_triple taken n s₂ s' t₁ t' h₄ in
      let (b, _, _, _) = update_rewards-SameWeight s s₁ t e₁ in
      let left : s'.balance ≡ s₁.balance - taken = ap (λ x. x.balance) (sym q) in omega arith

module _ {N A : Type 0} ⦃num : Numeric N⦄ (steel : Steel N A) where
  -- If a position's token account backs its balance, then a withdrawal that the position's own method
  -- accepts, to a recipient that can be opened, passes the transfer and the safety check, and what is
  -- left backs what is left.
  pub take_out_backed :
      (a : Accounts steel) (c : Clock) (amount held n : ℕ) (opened : List (Effect A))
      (s s' : StakeV2 N) (t t' : Treasury N)
      → s.balance ≤ held
      → open_recipient steel a ≡ ok opened
      → withdraw s amount c t ≡ ok (n, s', t')
      → (take_out steel a c amount held s t
          ≡ ok (record {
            stake_after = s';
            treasury_after = t';
            vault = held - n;
            effects = opened ++ (transfer a.stake_tokens_info a.recipient_info n ∷ []);
          }))
        × (s'.balance ≤ held - n)
  unfolding take_out
  take_out_backed a c amount held n opened s s' t t' backed o w =
      let left = withdraw-balance c amount n s s' t t' w in
      let enough : leb n held ≡ true = ground arith in
      let safe : leb s'.balance (held - n) ≡ true = ground arith in
      (rw (o, w, enough, safe) refl, omega arith)

  -- Two positions without an NFT whose token accounts back them, and together hold a u64, can always
  -- be merged, if their weights can: the checks pass, and the calls move all that the source's token
  -- account holds, if anything, to the target's, and then close the source's two accounts to the
  -- signer. What the target's token account then holds backs the merged balance.
  pub merge_backed :
      (a : MergeAccounts steel) (c : Clock) (held held' : ℕ) (x y s : StakeV2 N) (t t' : Treasury N)
      → x.is_nft_staked ≡ 0
      → y.is_nft_staked ≡ 0
      → x.balance ≤ held
      → y.balance ≤ held'
      → held + held' < u64_mod
      → merge c x y t ≡ ok (s, t')
      → (r : Merged steel) × (merge_loaded steel a c x y held held' t ≡ ok r)
        × (r.target_after ≡ s)
        × (r.treasury_after ≡ t')
        × (r.effects
            ≡ (if ltb 0 held'
                then transfer a.source_tokens_info a.target_tokens_info held' ∷ []
                else [])
              ++ (close_tokens a.source_tokens_info a.signer_info
                  ∷ close a.source_stake_info a.signer_info
                  ∷ []))
        × (r.vault ≡ held + held')
        × (s.balance ≤ r.vault)
  unfolding merge_loaded
  merge_backed a c held held' x y s t t' nx ny bx by fits m =
      let (_, _, _, balance) = merge-lock c x y s t t' m in
      let no_nft_x : x.is_nft_staked == 0 ≡ true = ground arith in
      let no_nft_y : y.is_nft_staked == 0 ≡ true = ground arith in
      let backed_x : leb x.balance held ≡ true = ground arith in
      let backed_y : leb y.balance held' ≡ true = ground arith in
      let holds : ltb (held + held') u64_mod ≡ true = ground arith in
      let backed : leb s.balance (held + held') ≡ true = ground arith in
      (
        record {
          target_after = s;
          treasury_after = t';
          vault = held + held';
          effects = merge_effects steel a held';
        },
        rw (no_nft_x, no_nft_y, backed_x, backed_y, m, holds, backed) refl,
        refl,
        refl,
        refl,
        refl,
        omega arith,
      )
