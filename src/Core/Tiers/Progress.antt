-- ===== src/Core/Tiers/Progress.antt =====
-- `computeTierProgress` against a specification that knows no order of the tiers.
use mathlib.Core.Path.{subst}
use comission_mgmt.Prelude.{
  ◌≡◌, refl, ◌⊎◌, inl, inr, true, Option, none, some, List, [], ◌∷◌, arith, Bool-cases, All, Any,
  All-map, Any-map, Any-with_All,
}
use comission_mgmt.Core.Number.{Number, IsOrdered, lt, ◌≼◌, ◌⊖◌}
use comission_mgmt.Core.Tiers.Scan.{
  TierRule, TierProgressInput, scan, sort, compute_tier_progress, next_of, remaining_of,
}
use comission_mgmt.Core.Tiers.Sorting.{
  IsSorted, All-of_sort, Any-of_sort, sort-IsSorted, lt-le_trans,
}

module _ {A : Type 0} ⦃n : Number A⦄ where
  -- The rate is the base rate if no tier is reached, or else that of a reached tier which no
  -- reached tier tops.
  abbrev pub IsCurrent : A → A → List (TierRule A) → A → Type 0
  IsCurrent production base ts rate =
      All (λ t. lt production t.threshold ≡ true) ts × (rate ≡ base)
      ⊎ Any
          (λ t.
            (t.threshold ≼ production)
            × (rate ≡ t.rate)
            × All (λ u. (lt production u.threshold ≡ true) ⊎ (u.threshold ≼ t.threshold)) ts)
          ts

  -- The next threshold is the least of those above the production; there is none exactly if all
  -- tiers are reached.
  abbrev pub IsNext : A → List (TierRule A) → Option A → Type 0
  IsNext production ts none = All (λ t. t.threshold ≼ production) ts
  IsNext production ts (some th) =
      (lt production th ≡ true)
      × Any (λ t. t.threshold ≡ th) ts
      × All (λ t. (t.threshold ≼ production) ⊎ (th ≼ t.threshold)) ts

  -- What remains is the distance to the next threshold, and is above zero.
  abbrev pub IsRemaining : A → Option A → Option A → Type 0
  IsRemaining production none o = o ≡ none
  IsRemaining production (some th) o =
      (o ≡ some (th ⊖ production)) × (lt n.nought (th ⊖ production) ≡ true)

  IsNext-cons :
      (p : A) (t : TierRule A) (ts : List (TierRule A)) (o : Option A)
      → t.threshold ≼ p
      → IsNext p ts o
      → IsNext p (t ∷ ts) o
  IsNext-cons p t ts none h next = (h, next)
  IsNext-cons p t ts (some th) h (above, any, all) = (above, inr any, (inl h, all))

  scan_reached :
      (p rate : A) (t : TierRule A) (ts behind : List (TierRule A))
      → t.threshold ≼ p
      → scan p ts t.rate ts ≡ scan p (t ∷ ts) rate behind
  unfolding scan
  scan_reached p rate t ts behind h = rw h

  -- Nothing of a list above the production changes the scan.
  scan_above :
      (p rate : A) (ts behind : List (TierRule A))
      → All (λ t. lt p t.threshold ≡ true) ts
      → (rate, behind) ≡ scan p ts rate behind
  unfolding scan
  scan_above p rate [] behind h = refl
  scan_above p rate (t ∷ ts) behind h = elim (Bool-cases (n.le t.threshold p)) [
    | inl e ↦ absurd (ground arith)
    | inr e ↦ rw e (scan_above p rate ts behind h.1)
  ]

  module _ (laws : IsOrdered A) where
    open laws use {le_refl, subtract_pos}

    All-above :
        (p x : A) (ts : List (TierRule A))
        → lt p x ≡ true
        → All (λ u. x ≼ u.threshold) ts
        → All (λ u. lt p u.threshold ≡ true) ts
    All-above p x [] h hs = tt
    All-above p x (t ∷ ts) h hs = (lt-le_trans laws p x t.threshold h hs.0, All-above p x ts h hs.1)

    scan-IsNext :
        (p rate : A) (ts : List (TierRule A))
        → IsSorted ts
        → IsNext p ts (next_of (scan p ts rate ts).1)
    unfolding scan
    scan-IsNext p rate [] s = tt
    scan-IsNext p rate (t ∷ ts) s = elim (Bool-cases (n.le t.threshold p)) [
      | inl e ↦
          subst (λ r. IsNext p (t ∷ ts) (next_of r.1)) (scan_reached p rate t ts (t ∷ ts) e)
            (IsNext-cons p t ts _ e (scan-IsNext p t.rate ts s.1))
      | inr e ↦
          let above : lt p t.threshold ≡ true = ground arith in
          subst (λ r. IsNext p (t ∷ ts) (next_of r.1))
            (scan_above p rate (t ∷ ts) (t ∷ ts) (above, All-above p t.threshold ts above s.0))
            (
              above,
              inl refl,
              (
                inr (le_refl t.threshold),
                All-map _ (λ u. (u.threshold ≼ p) ⊎ (t.threshold ≼ u.threshold)) (λ u. inr) ts s.0,
              ),
            )
    ]

    IsCurrent-cons :
        (p base : A) (t : TierRule A) (ts : List (TierRule A)) (rate : A)
        → t.threshold ≼ p
        → All (λ u. t.threshold ≼ u.threshold) ts
        → IsCurrent p t.rate ts rate
        → IsCurrent p base (t ∷ ts) rate
    IsCurrent-cons p base t ts rate h s (inl (above, e)) =
        inr (inl (h, e, (inr (le_refl t.threshold), All-map _ _ (λ u. inl) ts above)))
    IsCurrent-cons p base t ts rate h s (inr any) =
        inr (
          inr (Any-with_All _ _ _ (λ v le (reached, e, all). (reached, e, (inr le, all))) ts s any))

    scan-IsCurrent :
        (p rate : A) (ts behind : List (TierRule A))
        → IsSorted ts
        → IsCurrent p rate ts (scan p ts rate behind).0
    unfolding scan
    scan-IsCurrent p rate [] behind s = inl (tt, refl)
    scan-IsCurrent p rate (t ∷ ts) behind s = elim (Bool-cases (n.le t.threshold p)) [
      | inl e ↦
          subst (λ r. IsCurrent p rate (t ∷ ts) r.0) (scan_reached p rate t ts behind e)
            (IsCurrent-cons p rate t ts _ e s.0 (scan-IsCurrent p t.rate ts ts s.1))
      | inr e ↦
          let above : lt p t.threshold ≡ true = ground arith in
          let all : All (λ u. lt p u.threshold ≡ true) (t ∷ ts) =
            (above, All-above p t.threshold ts above s.0) in
          subst (λ r. IsCurrent p rate (t ∷ ts) r.0) (scan_above p rate (t ∷ ts) behind all)
            (inl (all, refl))
    ]

    IsNext-of_sort :
        (p : A) (ts : List (TierRule A)) (o : Option A) → IsNext p (sort ts) o → IsNext p ts o
    IsNext-of_sort p ts none h = All-of_sort _ ts h
    IsNext-of_sort p ts (some th) (above, any, all) =
        (above, Any-of_sort _ ts any, All-of_sort _ ts all)

    IsCurrent-of_sort :
        (p base : A) (ts : List (TierRule A)) (rate : A)
        → IsCurrent p base (sort ts) rate
        → IsCurrent p base ts rate
    IsCurrent-of_sort p base ts rate (inl (above, e)) = inl (All-of_sort _ ts above, e)
    IsCurrent-of_sort p base ts rate (inr any) =
        inr (Any-of_sort _ ts (Any-map _ _ (λ t (h, e, all). (h, e, All-of_sort _ ts all)) _ any))

    remaining_of-IsRemaining :
        (p : A) (ts : List (TierRule A)) (o : Option A)
        → IsNext p ts o
        → IsRemaining p o (remaining_of p o)
    remaining_of-IsRemaining p ts none h = refl
    remaining_of-IsRemaining p ts (some th) h = ground (arith, subtract_pos th p h.0)

    -- The report of `computeTierProgress`, for tiers in any order: the rate is the current one, the
    -- next threshold the least above the production, and the amount remaining is the distance to it.
    pub compute_tier_progress_lem :
        (i : TierProgressInput A)
        → let out = compute_tier_progress i in
          (out.current_period_production ≡ i.current_period_production)
          × IsCurrent i.current_period_production i.base_rate i.tiers out.current_tier_rate
          × IsNext i.current_period_production i.tiers out.next_tier_threshold
          × IsRemaining i.current_period_production out.next_tier_threshold
              out.remaining_to_next_tier
    unfolding compute_tier_progress
    compute_tier_progress_lem i =
        let p = i.current_period_production in
        let s = sort-IsSorted laws i.tiers in
        let next = IsNext-of_sort p i.tiers _ (scan-IsNext p i.base_rate (sort i.tiers) s) in
        (
          refl,
          IsCurrent-of_sort p i.base_rate i.tiers _
              (scan-IsCurrent p i.base_rate (sort i.tiers) (sort i.tiers) s),
          next,
          remaining_of-IsRemaining p i.tiers _ next,
        )
