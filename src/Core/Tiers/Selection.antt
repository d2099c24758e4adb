-- ===== src/Core/Tiers/Selection.antt =====
-- The tier loop of `applyTiers` against the specification of the current rate.
use mathlib.Core.Path.{subst}
use mathlib.Core.Option.{some-injective}
use comission_mgmt.Prelude.{
  ◌≡◌, refl, ◌⊎◌, inl, inr, true, ◌&&◌, Option, none, some, List, [], ◌∷◌, if◌then◌else◌, arith,
  All, Any, Any-map,
}
use comission_mgmt.Core.Number.{Number, IsOrdered, lt, ◌≼◌}
use comission_mgmt.Core.Tiers.Scan.{TierRule, select_tier, rate_of, replaces}
use comission_mgmt.Core.Tiers.Progress.{IsCurrent}

module _ {A : Type 0} ⦃n : Number A⦄ where
  -- One round of the loop of `applyTiers`.
  abbrev better : A → Option (TierRule A) → TierRule A → Option (TierRule A)
  better p selected t = if n.le t.threshold p && replaces selected t then some t else selected

  abbrev IsUpTo : A → Option (TierRule A) → TierRule A → Type 0
  IsUpTo p none u = lt p u.threshold ≡ true
  IsUpTo p (some t) u = (lt p u.threshold ≡ true) ⊎ (u.threshold ≼ t.threshold)

  abbrev Selected : A → Option (TierRule A) → TierRule A → Type 0
  Selected p o t = (o ≡ some t) × (t.threshold ≼ p)

  IsFrom : A → Option (TierRule A) → List (TierRule A) → Option (TierRule A) → Type 0
  IsFrom p selected ts o = (o ≡ selected) ⊎ Any (Selected p o) ts

  IsFrom-cons :
      (p : A) (selected : Option (TierRule A)) (t : TierRule A) (ts : List (TierRule A))
      (o : Option (TierRule A))
      → IsFrom p (better p selected t) ts o
      → IsFrom p selected (t ∷ ts) o
  unfolding IsFrom
  IsFrom-cons p selected t ts o (inl e) = ground arith
  IsFrom-cons p selected t ts o (inr h) = inr (inr h)

  select_tier-IsFrom :
      (p : A) (selected : Option (TierRule A)) (ts : List (TierRule A))
      → IsFrom p selected ts (select_tier p selected ts)
  unfolding select_tier IsFrom
  select_tier-IsFrom p selected [] = inl refl
  select_tier-IsFrom p selected (t ∷ ts) =
      IsFrom-cons p selected t ts _ (select_tier-IsFrom p (better p selected t) ts)

  IsCurrent-of_parts :
      (p base : A) (ts : List (TierRule A)) (o : Option (TierRule A))
      → All (IsUpTo p o) ts
      → IsFrom p none ts o
      → IsCurrent p base ts (rate_of o base)
  unfolding IsFrom
  IsCurrent-of_parts p base ts none all from = inl (all, refl)
  IsCurrent-of_parts p base ts (some t) all (inl e) = cc
  IsCurrent-of_parts p base ts (some t) all (inr any) = inr (
      Any-map _ _
        (λ u (e, h).
          let e' = some-injective t u e in
          (
            h,
            cc,
            subst (λ v. All (λ w. (lt p w.threshold ≡ true) ⊎ (w.threshold ≼ v.threshold)) ts) e'
                all,
          ))
        ts any)

  module _ (laws : IsOrdered A) where
    open laws use {le_refl, le_trans, le_total}

    better-IsUpTo :
        (p : A) (selected : Option (TierRule A)) (t : TierRule A) → IsUpTo p (better p selected t) t
    better-IsUpTo p none t = ground (arith, le_refl t.threshold)
    better-IsUpTo p (some s) t = ground (arith, le_refl t.threshold)

    IsUpTo-better :
        (p : A) (selected : Option (TierRule A)) (t u : TierRule A)
        → IsUpTo p selected u
        → IsUpTo p (better p selected t) u
    IsUpTo-better p none t u h = ground arith
    IsUpTo-better p (some s) t u h =
        ground
          (arith, le_total s.threshold t.threshold, le_trans u.threshold s.threshold t.threshold)

    IsUpTo-select_tier :
        (p : A) (selected : Option (TierRule A)) (ts : List (TierRule A)) (u : TierRule A)
        → IsUpTo p selected u
        → IsUpTo p (select_tier p selected ts) u
    unfolding select_tier
    IsUpTo-select_tier p selected [] u h = h
    IsUpTo-select_tier p selected (t ∷ ts) u h =
        IsUpTo-select_tier p (better p selected t) ts u (IsUpTo-better p selected t u h)

    select_tier-IsUpTo :
        (p : A) (selected : Option (TierRule A)) (ts : List (TierRule A))
        → All (IsUpTo p (select_tier p selected ts)) ts
    unfolding select_tier
    select_tier-IsUpTo p selected [] = tt
    select_tier-IsUpTo p selected (t ∷ ts) = (
      IsUpTo-select_tier p (better p selected t) ts t (better-IsUpTo p selected t),
      select_tier-IsUpTo p (better p selected t) ts,
    )

    -- The rate that the engine applies is the current one, for tiers in any order.
    pub select_tier-IsCurrent :
        (p base : A) (ts : List (TierRule A))
        → IsCurrent p base ts (rate_of (select_tier p none ts) base)
    select_tier-IsCurrent p base ts =
        IsCurrent-of_parts p base ts _ (select_tier-IsUpTo p none ts) (select_tier-IsFrom p none ts)
