-- ===== src/Core/Tiers/Agreement.antt =====
-- `computeTierProgress` and the tier loop of `applyTiers` name one rate on tiers that pass
-- `validateTiers`: the sort changes nothing there, and the two loops move in step.
use mathlib.Core.List.{append-nil, append_assoc}
use comission_mgmt.Prelude.{
  ◌≡◌, refl, sym, ◌∙◌, inl, inr, true, false, Option, none, some, List, [], ◌∷◌, ◌++◌, arith,
  Bool-cases, All, All-map,
}
use comission_mgmt.Core.Number.{Number, IsOrdered, lt}
use comission_mgmt.Core.Tiers.Scan.{
  TierRule, TierProgressInput, compute_tier_progress, insert, sort_from, sort, scan, select_tier,
  rate_of, replaces, ascends, validate_tiers,
}
use comission_mgmt.Core.Tiers.Sorting.{lt-le, lt-le_trans}

module _ {A : Type 0} ⦃n : Number A⦄ where
  insert_last :
      (t : TierRule A) (us : List (TierRule A))
      → All (λ u. lt t.threshold u.threshold ≡ false) us
      → insert t us ≡ us ++ (t ∷ [])
  unfolding insert
  insert_last t [] h = refl
  insert_last t (u ∷ us) h = rw (h.0, insert_last t us h.1)

  ascends-validate_tiers :
      (x : A) (ts : List (TierRule A)) → ascends x ts ≡ true → validate_tiers ts ≡ true
  unfolding validate_tiers
  ascends-validate_tiers x [] h = refl
  ascends-validate_tiers x (t ∷ ts) h = ground arith

  module _ (laws : IsOrdered A) where
    above-not_lt : (x y : A) → lt x y ≡ true → lt y x ≡ false
    above-not_lt x y h = ground (arith, lt-le laws x y h)

    lt_trans : (x y z : A) → lt x y ≡ true → lt y z ≡ true → lt x z ≡ true
    lt_trans x y z h k = lt-le_trans laws x y z h (lt-le laws y z k)

    All-ascends :
        (x : A) (ts : List (TierRule A))
        → ascends x ts ≡ true
        → All (λ u. lt x u.threshold ≡ true) ts
    All-ascends x [] h = tt
    All-ascends x (t ∷ ts) h =
        let first : lt x t.threshold ≡ true = ground arith in
        let rest : ascends t.threshold ts ≡ true = ground arith in
        (
          first,
          All-map _ _ (λ u k. lt_trans x t.threshold u.threshold first k) ts
              (All-ascends t.threshold ts rest),
        )

    snoc-All :
        (t v : TierRule A) (us : List (TierRule A))
        → lt t.threshold v.threshold ≡ true
        → All (λ u. lt v.threshold u.threshold ≡ false) us
        → All (λ u. lt v.threshold u.threshold ≡ false) (us ++ (t ∷ []))
    snoc-All t v [] h hs = (above-not_lt t.threshold v.threshold h, tt)
    snoc-All t v (u ∷ us) h hs = (hs.0, snoc-All t v us h hs.1)

    cross-snoc :
        (t : TierRule A) (us vs : List (TierRule A))
        → All (λ v. lt t.threshold v.threshold ≡ true) vs
        → All (λ v. All (λ u. lt v.threshold u.threshold ≡ false) us) vs
        → All (λ v. All (λ u. lt v.threshold u.threshold ≡ false) (us ++ (t ∷ []))) vs
    cross-snoc t us [] h hs = tt
    cross-snoc t us (v ∷ vs) h hs = (snoc-All t v us h.0 hs.0, cross-snoc t us vs h.1 hs.1)

    sort_from_ascending :
        (us ts : List (TierRule A))
        → validate_tiers ts ≡ true
        → All (λ v. All (λ u. lt v.threshold u.threshold ≡ false) us) ts
        → sort_from us ts ≡ us ++ ts
    unfolding sort_from validate_tiers
    sort_from_ascending us [] h c = sym (append-nil us)
    sort_from_ascending us (t ∷ ts) h c = rw (insert_last t us c.0) (
        sort_from_ascending (us ++ (t ∷ [])) ts (ascends-validate_tiers t.threshold ts h)
          (cross-snoc t us ts (All-ascends t.threshold ts h) c.1)
        ∙ append_assoc us (t ∷ []) ts)

    -- The two loops move in step on ascending tiers.
    scan-eq-select_tier :
        (p base rate : A) (selected : Option (TierRule A)) (ts behind : List (TierRule A))
        → rate ≡ rate_of selected base
        → validate_tiers ts ≡ true
        → All (λ u. replaces selected u ≡ true) ts
        → (scan p ts rate behind).0 ≡ rate_of (select_tier p selected ts) base
    unfolding scan select_tier validate_tiers
    scan-eq-select_tier p base rate selected [] behind e v h = e
    scan-eq-select_tier p base rate selected (t ∷ ts) behind e v h =
        elim (Bool-cases (n.le t.threshold p)) [
          | inl le ↦
              rw (le, h.0, scan, select_tier)
                (scan-eq-select_tier p base t.rate (some t) ts ts refl
                  (ascends-validate_tiers t.threshold ts v) (All-ascends t.threshold ts v))
          | inr le ↦
              rw (le, scan, select_tier)
                (scan-eq-select_tier p base rate selected ts behind e
                  (ascends-validate_tiers t.threshold ts v) h.1)
        ]

    All-nil :
        (ts : List (TierRule A))
        → All {A = TierRule A}
            (λ v. All {A = TierRule A} (λ u. lt v.threshold u.threshold ≡ false) [])
            ts
    All-nil [] = tt
    All-nil (t ∷ ts) = (tt, All-nil ts)

    All-replaces : (ts : List (TierRule A)) → All (λ u. replaces none u ≡ true) ts
    All-replaces [] = tt
    All-replaces (t ∷ ts) = (refl, All-replaces ts)

    -- On tiers that pass `validateTiers` the reported rate is the rate that the engine applies at
    -- that production.
    pub current_tier_rate-eq-select_tier :
        (i : TierProgressInput A)
        → validate_tiers i.tiers ≡ true
        → (compute_tier_progress i).current_tier_rate
          ≡ rate_of (select_tier i.current_period_production none i.tiers) i.base_rate
    unfolding compute_tier_progress sort
    current_tier_rate-eq-select_tier i v = rw (sort_from_ascending [] i.tiers v (All-nil i.tiers)) (
        scan-eq-select_tier i.current_period_production i.base_rate i.base_rate none i.tiers i.tiers
          refl v (All-replaces i.tiers))
