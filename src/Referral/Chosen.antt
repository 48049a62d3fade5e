-- ===== src/Referral/Chosen.antt =====
-- A miner's choice of a referrer.
use godl_program.Base.{
  ℕ, Bool, true, false, ◌≡◌, ◌≢◌, refl, sym, ap, ◌∙◌, reject, godl, invalid_referrer_account,
  ok-injective_pair, List, [], ◌∷◌, Option, some, none, ok, arith, ◌==◌, if◌then◌else◌, >>=-eq-ok,
}
use mathlib.Core.Path.{subst}
use godl_program.Miner.{Miner, default_key, referrer_locked_sentinel}
use godl_program.Referrer.{Referrer}
use godl_program.Referral.{count_referral, choose_first, choose_referrer}
use godl_program.Runtime.{Steel, referrer}

some_same : (r r' : Referrer) (o : Option Referrer) → some r ≡ o → o ≡ some r' → r ≡ r'
some_same r r' o p q = cc

module _ {N A : Type 0} (steel : Steel N A)
    -- steel's `has_address` compares the account's key
    (has_address-key : (info : A) (k : ℕ)
      → steel.has_address info k ≡ ok tt
      → steel.key info ≡ k) where
  count_referral-eq-ok :
      (desired chosen : ℕ) (rest : List A) (m : Miner N) (r : Referrer)
      → count_referral steel desired rest m ≡ ok (chosen, r)
      → (chosen ≡ desired) × (r.authority ≢ m.authority)
  unfolding count_referral
  count_referral-eq-ok desired chosen (i ∷ []) m r h =
      let (r₀, e₁, h₁) = >>=-eq-ok (steel.as_referrer i) _ h in
      let (_, e₂, h₂) = >>=-eq-ok (steel.is_writable i) _ h₁ in
      let (_, e₃, h₃) = >>=-eq-ok (steel.has_address i desired) _ h₂ in
      let (_, e₄, h₄) = >>=-eq-ok (steel.has_seeds i (referrer r₀.authority)) _ h₃ in
      let same = has_address-key i desired e₃ in (ground (arith, same), ground arith)
  count_referral-eq-ok desired chosen [] m r h = cc
  count_referral-eq-ok desired chosen (_ ∷ _ ∷ _) m r h = cc

  -- what a first choice leads to
  record First (desired : ℕ) (m m' : Miner N) (o : Option Referrer) : Type 0 where
    is_set : m'.referrer ≢ default_key
    as_asked : m'.referrer ≡ (if desired == default_key then referrer_locked_sentinel else desired)
    no_self : (r : Referrer) → o ≡ some r → r.authority ≢ m.authority

  choose_first-First :
      (desired : ℕ) (rest : List A) (m m' : Miner N) (o : Option Referrer) (nobody : Bool)
      → (desired == default_key) ≡ nobody
      → choose_first steel desired rest m ≡ ok (m', o)
      → First desired m m' o
  unfolding choose_first
  choose_first-First desired rest m m' o true p h =
      let (q, e) = ok-injective_pair _ m' none o (rw p at h) in
      record { is_set = rw (← q) (ground arith); as_asked = rw (p, ← q) refl; no_self = λ r s. cc }
  choose_first-First desired rest m m' o false p h =
      let (_, e₁, h₁) =
        >>=-eq-ok (reject (desired == referrer_locked_sentinel) (godl invalid_referrer_account)) _
          (rw p at h) in
      let ((chosen, r), e₂, h₂) = >>=-eq-ok (count_referral steel desired rest m) _ h₁ in
      let (q, e) = ok-injective_pair _ m' (some r) o h₂ in
      let (same, no_self) = count_referral-eq-ok desired chosen rest m r e₂ in
      let chosen_is : m'.referrer ≡ desired = ap (λ z. z.referrer) (sym q) ∙ same in
      record {
        is_set = ground (arith, chosen_is);
        as_asked = rw p chosen_is;
        no_self = λ r' s. subst (λ z. z.authority ≢ m.authority) (some_same r r' o e s) no_self;
      }

  -- A choice that goes through sets a referrer that is not the default key and so is final: it is
  -- what was asked for, or the sentinel if nobody was, and any later choice leaves the miner as it
  -- is. A referrer that is counted does not refer itself.
  pub choice_final :
      (desired again : ℕ) (rest others : List A) (m m' : Miner N) (o : Option Referrer)
      → m.referrer ≡ default_key
      → choose_referrer steel desired rest m ≡ ok (m', o)
      → (m'.referrer ≢ default_key)
        × (m'.referrer ≡ (if desired == default_key then referrer_locked_sentinel else desired))
        × (choose_referrer steel again others m' ≡ ok (m', none))
        × ((r : Referrer) → o ≡ some r → r.authority ≢ m.authority)
  unfolding choose_referrer
  choice_final desired again rest others m m' o new h =
      let is_new : (m.referrer == default_key) ≡ true = ground arith in
      let f =
        choose_first-First desired rest m m' o (desired == default_key) refl (rw is_new at h) in
      let is_old : (m'.referrer == default_key) ≡ false = ground (arith, f.is_set) in
      (f.is_set, f.as_asked, rw is_old refl, f.no_self)
