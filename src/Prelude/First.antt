-- ===== src/Prelude/First.antt =====
-- `ORDER BY ... LIMIT 1` on the rows that a condition selects: the first of them in an order, and of
-- several such rows the one that the table has first.
use mathlib.Core.Path.{◌≡◌, refl, subst}
use mathlib.Core.Logic.{inl, inr}
use mathlib.Core.Bool.{Bool, true, false, ◌&&◌}
use mathlib.Core.Option.{Option, none, some, some-injective, some-ne-none}
use mathlib.Core.List.{List, [], ◌∷◌}
use comission_mgmt.Prelude.Tests.{if◌then◌else◌, Bool-cases}
use comission_mgmt.Prelude.Lists.{select, All, Any}

module _ {A : Type 0} where
  unfoldable pub first_from : (A → A → Bool) → A → List A → A
  first_from before best [] = best
  first_from before best (x ∷ xs) = first_from before (if before x best then x else best) xs

  unfoldable pub first_by : (A → A → Bool) → List A → Option A
  unfolding first_from
  first_by before [] = none
  first_by before (x ∷ xs) = some (first_from before x xs)

  -- A strict order, the rows of which that are not before one another are equivalent.
  pub record IsWeakOrder (before : A → A → Bool) : Type 0 where
    pub before_self : (x : A) → before x x ≡ false
    pub before_through :
        (x best y : A) → before x best ≡ true → before x y ≡ false → before best y ≡ false
    pub before_trans :
        (x best y : A) → before x best ≡ false → before best y ≡ false → before x y ≡ false

  -- A row of the list that no row of the list comes before.
  abbrev pub IsFirstOf : (A → A → Bool) → A → List A → Type 0
  IsFirstOf before y xs = Any (λ x. x ≡ y) xs × All (λ x. before x y ≡ false) xs

  module _ (before : A → A → Bool) (order : IsWeakOrder before) where
    open order use {before_self, before_through, before_trans}

    IsFirstOf-resp : (x y : A) (xs : List A) → x ≡ y → IsFirstOf before x xs → IsFirstOf before y xs
    IsFirstOf-resp x y xs e h = subst (λ z. IsFirstOf before z xs) e h

    first_from-IsFirstOf :
        (best : A) (xs : List A) → IsFirstOf before (first_from before best xs) (best ∷ xs)
    unfolding first_from
    first_from-IsFirstOf best [] = (inl refl, (before_self best, tt))
    first_from-IsFirstOf best (x ∷ xs) = elim (Bool-cases (before x best)) [
      | inl h ↦
          let (here, rest) = first_from-IsFirstOf x xs in
          IsFirstOf-resp (first_from before x xs) (first_from before best (x ∷ xs)) (best ∷ x ∷ xs)
            (rw h refl) (inr here, (before_through x best (first_from before x xs) h rest.0, rest))
      | inr h ↦
          let (here, rest) = first_from-IsFirstOf best xs in
          IsFirstOf-resp (first_from before best xs) (first_from before best (x ∷ xs))
            (best ∷ x ∷ xs) (rw h refl)
            (
              elim here [ inl e ↦ inl e | inr a ↦ inr (inr a) ],
              (rest.0, (before_trans x best (first_from before best xs) h rest.0, rest.1)),
            )
    ]

    first_by-IsFirstOf : (y : A) (xs : List A) → first_by before xs ≡ some y → IsFirstOf before y xs
    unfolding first_by
    first_by-IsFirstOf y [] e = absurd (cc)
    first_by-IsFirstOf y (x ∷ xs) e =
        IsFirstOf-resp (first_from before x xs) y (x ∷ xs) (some-injective _ _ e)
          (first_from-IsFirstOf x xs)

    -- The first of the selected rows is one of them, and none of them comes before it.
    pub first_by-select :
        (f : A → Bool) (y : A) (xs : List A)
        → first_by before (select f xs) ≡ some y
        → Any (λ x. (x ≡ y) × (f x ≡ true)) xs × All (λ x. f x && before x y ≡ false) xs
    first_by-select f y xs e =
        let (here, first) = first_by-IsFirstOf y (select f xs) e in
        (select-Any f y xs here, select-All f y xs first)
      where
        select-Any :
            (f : A → Bool) (y : A) (xs : List A)
            → Any (λ x. x ≡ y) (select f xs)
            → Any (λ x. (x ≡ y) × (f x ≡ true)) xs
        select-Any f y [] h = h
        select-Any f y (x ∷ xs) h = elim (Bool-cases (f x)) [
          | inl e ↦ elim (rw e at h) [
            | inl same ↦ inl (same, e)
            | inr a ↦ inr (select-Any f y xs a)
          ]
          | inr e ↦ inr (select-Any f y xs (rw e at h))
        ]

        select-All :
            (f : A → Bool) (y : A) (xs : List A)
            → All (λ x. before x y ≡ false) (select f xs)
            → All (λ x. f x && before x y ≡ false) xs
        select-All f y [] h = tt
        select-All f y (x ∷ xs) h = elim (Bool-cases (f x)) [
          | inl e ↦ let k = rw e at h in rw e (k.0, select-All f y xs k.1)
          | inr e ↦ rw e (refl, select-All f y xs (rw e at h))
        ]

    -- Rows of which none is selected have no first one, and only they.
    pub first_by-none :
        (f : A → Bool) (xs : List A)
        → first_by before (select f xs) ≡ none
        → All (λ x. f x ≡ false) xs
    unfolding first_by
    first_by-none f [] e = tt
    first_by-none f (x ∷ xs) e = elim (Bool-cases (f x)) [
      | inl h ↦ absurd (some-ne-none _ (rw h at e))
      | inr h ↦ (h, first_by-none f xs (rw h at e))
    ]
