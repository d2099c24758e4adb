-- ===== src/Prelude/Distinct.antt =====
-- Lists whose members have distinct keys.
use Prim.Native.Nat.{ℕ}
use mathlib.Core.Path.{◌≡◌, refl, sym, ap, ◌∙◌, subst}
use mathlib.Core.Logic.{◌⊎◌, inl, inr}
use mathlib.Core.Bool.{Bool, true, false}
use mathlib.Core.Option.{none, some, some-ne-none}
use mathlib.Core.List.{List, [], ◌∷◌, ◌++◌}
use native.Mathlib.Omega.{arith}
use comission_mgmt.Prelude.Tests.{◌==◌, Bool-cases}
use comission_mgmt.Prelude.Lists.{find, update_where, All, Any, All-map, Zip}

module _ {A : Type 0} where
  -- No two members have the same key.
  abbrev pub Distinct : (A → ℕ) → List A → Type 0
  Distinct key [] = Unit
  Distinct key (x ∷ xs) = All (λ y. key y == key x ≡ false) xs × Distinct key xs

  -- An update changes the rows that pass its test, of which the list has a property.
  pub Zip-update_where-All :
      (Q : A → Type 0) (p : A → Bool) (f : A → A)
      → (xs : List A) → All (λ x. p x ≡ true → Q x) xs
      → Zip (λ x y. (y ≡ x) ⊎ (Q x × (y ≡ f x))) xs (update_where p f xs)
  Zip-update_where-All Q p f [] h = tt
  Zip-update_where-All Q p f (x ∷ xs) h = elim (Bool-cases (p x)) [
    | inl e ↦ rw e (inr (h.0 e, refl), Zip-update_where-All Q p f xs h.1)
    | inr e ↦ rw e (inl refl, Zip-update_where-All Q p f xs h.1)
  ]

  pub find-none_of : (p : A → Bool) (xs : List A) → All (λ x. p x ≡ false) xs → find p xs ≡ none
  find-none_of p [] h = refl
  find-none_of p (x ∷ xs) h = rw h.0 (find-none_of p xs h.1)

  pub update_where-none_of :
      (p : A → Bool) (f : A → A) (xs : List A)
      → All (λ x. p x ≡ false) xs
      → update_where p f xs ≡ xs
  update_where-none_of p f [] h = refl
  update_where-none_of p f (x ∷ xs) h = rw h.0 (ap (λ ys. x ∷ ys) (update_where-none_of p f xs h.1))

  -- A search that fails excludes the key.
  pub find-none : (f : A → Bool) (xs : List A) → find f xs ≡ none → All (λ x. f x ≡ false) xs
  find-none f [] e = tt
  find-none f (x ∷ xs) e = elim (Bool-cases (f x)) [
    | inl h ↦ absurd (some-ne-none _ (rw h at e))
    | inr h ↦ (h, find-none f xs (rw h at e))
  ]

  pub find-append :
      (f : A → Bool) (xs : List A) (y : A)
      → find f xs ≡ none
      → f y ≡ true
      → find f (xs ++ (y ∷ [])) ≡ some y
  find-append f [] y e h = rw h refl
  find-append f (x ∷ xs) y e h = elim (Bool-cases (f x)) [
    | inl k ↦ absurd (some-ne-none _ (rw k at e))
    | inr k ↦ rw k (find-append f xs y (rw k at e) h)
  ]

  pub All-append : (P : A → Type 0) (xs : List A) (y : A) → All P xs → P y → All P (xs ++ (y ∷ []))
  All-append P [] y h k = (k, tt)
  All-append P (x ∷ xs) y h k = (h.0, All-append P xs y h.1 k)

  pub Distinct-append :
      (key : A → ℕ) (xs : List A) (y : A)
      → Distinct key xs
      → All (λ x. key x == key y ≡ false) xs
      → Distinct key (xs ++ (y ∷ []))
  Distinct-append key [] y d h = (tt, tt)
  Distinct-append key (x ∷ xs) y d h = (
    All-append (λ z. key z == key x ≡ false) xs y d.0 (ground (arith, h.0)),
    Distinct-append key xs y d.1 h.1,
  )

  keys-update_where :
      (key : A → ℕ) (p : A → Bool) (f : A → A) (n : ℕ)
      → ((x : A) → key (f x) ≡ key x)
      → (xs : List A) → All (λ y. key y == n ≡ false) xs
      → All (λ y. key y == n ≡ false) (update_where p f xs)
  keys-update_where key p f n same [] h = tt
  keys-update_where key p f n same (x ∷ xs) h = elim (Bool-cases (p x)) [
    | inl e ↦ rw e (ap (λ k. k == n) (same x) ∙ h.0, keys-update_where key p f n same xs h.1)
    | inr e ↦ rw e (h.0, keys-update_where key p f n same xs h.1)
  ]

  -- An update that keeps the keys keeps them distinct.
  pub Distinct-update_where :
      (key : A → ℕ) (p : A → Bool) (f : A → A)
      → ((x : A) → key (f x) ≡ key x)
      → (xs : List A) → Distinct key xs
      → Distinct key (update_where p f xs)
  Distinct-update_where key p f same [] d = tt
  Distinct-update_where key p f same (x ∷ xs) d = elim (Bool-cases (p x)) [
    | inl e ↦ rw e (
      keys-update_where key p f (key (f x)) same xs
          (subst (λ n. All (λ y. key y == n ≡ false) xs) (sym (same x)) d.0),
      Distinct-update_where key p f same xs d.1,
    )
    | inr e ↦
        rw e
          (keys-update_where key p f (key x) same xs d.0, Distinct-update_where key p f same xs d.1)
  ]

  other_key :
      (key : A → ℕ) (n : ℕ) (y : A) (xs : List A)
      → All (λ x. key x == n ≡ false) xs
      → Any (λ x. x ≡ y) xs
      → n == key y ≡ false
  other_key key n y [] h a = elim a [ ]
  other_key key n y (x ∷ xs) h (inl e) = let k : key x ≡ key y = ap key e in ground (arith, k, h.0)
  other_key key n y (x ∷ xs) h (inr a) = other_key key n y xs h.1 a

  -- A member is the only one with its key.
  pub Distinct-only :
      (key : A → ℕ) (y : A) (xs : List A)
      → Distinct key xs
      → Any (λ x. x ≡ y) xs
      → All (λ x. (key x == key y ≡ false) ⊎ (x ≡ y)) xs
  Distinct-only key y [] d a = elim a [ ]
  Distinct-only key y (x ∷ xs) d (inl e) = (
    inr e,
    All-map (λ z. key z == key x ≡ false) (λ z. (key z == key y ≡ false) ⊎ (z ≡ y))
        (λ z h. inl (subst (λ n. key z == n ≡ false) (ap key e) h)) xs d.0,
  )
  Distinct-only key y (x ∷ xs) d (inr a) =
      (inl (other_key key (key x) y xs d.0 a), Distinct-only key y xs d.1 a)
