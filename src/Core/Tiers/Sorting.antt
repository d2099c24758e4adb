-- ===== src/Core/Tiers/Sorting.antt =====
-- The sort of `computeTierProgress` keeps the tiers and puts them in order.
use comission_mgmt.Prelude.{
  ◌≡◌, ◌⊎◌, inl, inr, true, false, List, [], ◌∷◌, arith, Bool-cases, All, Any,
}
use comission_mgmt.Core.Number.{Number, IsOrdered, lt, ◌≼◌}
use comission_mgmt.Core.Tiers.Scan.{TierRule, insert, sort_from, sort}

module _ {A : Type 0} ⦃n : Number A⦄ where
  abbrev pub IsSorted : List (TierRule A) → Type 0
  IsSorted [] = Unit
  IsSorted (t ∷ ts) = All (λ u. t.threshold ≼ u.threshold) ts × IsSorted ts

  module _ (P : TierRule A → Type 0) where
    All-insert : (t : TierRule A) (us : List (TierRule A)) → P t → All P us → All P (insert t us)
    unfolding insert
    All-insert t [] h hs = (h, tt)
    All-insert t (u ∷ us) h hs = elim (Bool-cases (lt t.threshold u.threshold)) [
      | inl e ↦ rw e (h, hs)
      | inr e ↦ rw e (hs.0, All-insert t us h hs.1)
    ]

    All-of_insert : (t : TierRule A) (us : List (TierRule A)) → All P (insert t us) → P t × All P us
    unfolding insert
    All-of_insert t [] h = h
    All-of_insert t (u ∷ us) h = elim (Bool-cases (lt t.threshold u.threshold)) [
      | inl e ↦ rw e at h
      | inr e ↦
          let h' : P u × All P (insert t us) = rw e at h in
          let (ht, hus) = All-of_insert t us h'.1 in (ht, (h'.0, hus))
    ]

    Any-of_insert : (t : TierRule A) (us : List (TierRule A)) → Any P (insert t us) → P t ⊎ Any P us
    unfolding insert
    Any-of_insert t [] h = h
    Any-of_insert t (u ∷ us) h = elim (Bool-cases (lt t.threshold u.threshold)) [
      | inl e ↦ rw e at h
      | inr e ↦
          let h' : P u ⊎ Any P (insert t us) = rw e at h in
          elim h' [ inl p ↦ inr (inl p) | inr q ↦ ground (arith, Any-of_insert t us q) ]
    ]

    All-of_sort_from : (us ts : List (TierRule A)) → All P (sort_from us ts) → All P us × All P ts
    unfolding sort_from
    All-of_sort_from us [] h = (h, tt)
    All-of_sort_from us (t ∷ ts) h =
        let (front, back) = All-of_sort_from (insert t us) ts h in
        let (ht, hus) = All-of_insert t us front in (hus, (ht, back))

    Any-of_sort_from : (us ts : List (TierRule A)) → Any P (sort_from us ts) → Any P us ⊎ Any P ts
    unfolding sort_from
    Any-of_sort_from us [] h = inl h
    Any-of_sort_from us (t ∷ ts) h = elim (Any-of_sort_from (insert t us) ts h) [
      | inl front ↦ elim (Any-of_insert t us front) [ inl p ↦ inr (inl p) | inr q ↦ inl q ]
      | inr back ↦ inr (inr back)
    ]

    -- What holds of all sorted tiers holds of all the given ones.
    pub All-of_sort : (ts : List (TierRule A)) → All P (sort ts) → All P ts
    unfolding sort
    All-of_sort ts h = (All-of_sort_from [] ts h).1

    -- What holds of one sorted tier holds of one of the given ones.
    pub Any-of_sort : (ts : List (TierRule A)) → Any P (sort ts) → Any P ts
    unfolding sort
    Any-of_sort ts h = elim (Any-of_sort_from [] ts h) [ inl e ↦ elim e [ ] | inr q ↦ q ]

  module _ (laws : IsOrdered A) where
    open laws use {le_refl, le_trans, le_total}

    pub lt-le : (x y : A) → lt x y ≡ true → x ≼ y
    lt-le x y h = ground (arith, le_total x y)

    pub not_lt-le : (x y : A) → lt x y ≡ false → y ≼ x
    not_lt-le x y h = ground arith

    pub lt-le_trans : (x y z : A) → lt x y ≡ true → y ≼ z → lt x z ≡ true
    lt-le_trans x y z h k = ground (arith, le_trans y z x k)

    All-le_trans :
        (x y : A) (ts : List (TierRule A))
        → x ≼ y
        → All (λ u. y ≼ u.threshold) ts
        → All (λ u. x ≼ u.threshold) ts
    All-le_trans x y [] h hs = tt
    All-le_trans x y (t ∷ ts) h hs = (le_trans x y t.threshold h hs.0, All-le_trans x y ts h hs.1)

    insert-IsSorted :
        (t : TierRule A) (us : List (TierRule A)) → IsSorted us → IsSorted (insert t us)
    unfolding insert
    insert-IsSorted t [] s = (tt, tt)
    insert-IsSorted t (u ∷ us) s = elim (Bool-cases (lt t.threshold u.threshold)) [
      | inl e ↦
          let le = lt-le t.threshold u.threshold e in
          rw e ((le, All-le_trans t.threshold u.threshold us le s.0), s)
      | inr e ↦ rw e (
        All-insert (λ v. u.threshold ≼ v.threshold) t us (not_lt-le t.threshold u.threshold e) s.0,
        insert-IsSorted t us s.1,
      )
    ]

    sort_from-IsSorted : (us ts : List (TierRule A)) → IsSorted us → IsSorted (sort_from us ts)
    unfolding sort_from
    sort_from-IsSorted us [] s = s
    sort_from-IsSorted us (t ∷ ts) s = sort_from-IsSorted (insert t us) ts (insert-IsSorted t us s)

    pub sort-IsSorted : (ts : List (TierRule A)) → IsSorted (sort ts)
    unfolding sort
    sort-IsSorted ts = sort_from-IsSorted [] ts tt
