-- ===== src/Prelude/Lists.antt =====
-- Lists: length, Boolean search and selection, the predicates that hold of all or of some member.
use Prim.Native.Nat.{ℕ, suc, ◌+◌}
use mathlib.Core.Path.{◌≡◌, refl, ap, ◌∙◌}
use mathlib.Core.Logic.{◌⊎◌, inl, inr}
use mathlib.Core.Bool.{Bool, true, false, ◌&&◌, ◌||◌}
use mathlib.Core.Option.{Option, none, some}
use mathlib.Core.List.{List, [], ◌∷◌, ◌++◌}
use native.Mathlib.Omega.{arith}
use comission_mgmt.Prelude.Tests.{if◌then◌else◌, ltb, Bool-cases}

module _ {ℓ} {A : Type ℓ} where
  abbrev pub length : List A → ℕ
  length [] = 0
  length (x ∷ xs) = suc (length xs)

  abbrev pub any : (A → Bool) → List A → Bool
  any p [] = false
  any p (x ∷ xs) = p x || any p xs

  abbrev pub all : (A → Bool) → List A → Bool
  all p [] = true
  all p (x ∷ xs) = p x && all p xs

  abbrev pub find : (A → Bool) → List A → Option A
  find p [] = none
  find p (x ∷ xs) = if p x then some x else find p xs

  abbrev pub select : (A → Bool) → List A → List A
  select p [] = []
  select p (x ∷ xs) = let rest = select p xs in if p x then x ∷ rest else rest

  -- `UPDATE ... SET f WHERE p`.
  abbrev pub update_where : (A → Bool) → (A → A) → List A → List A
  update_where p f [] = []
  update_where p f (x ∷ xs) = (if p x then f x else x) ∷ update_where p f xs

  abbrev pub All {κ} : (A → Type κ) → List A → Type κ
  All P [] = Unit
  All P (x ∷ xs) = P x × All P xs

  abbrev pub Any : (A → Type 0) → List A → Type 0
  Any P [] = ⊥
  Any P (x ∷ xs) = P x ⊎ Any P xs

  pub length-append : (xs ys : List A) → length (xs ++ ys) ≡ length xs + length ys
  length-append [] ys = omega arith
  length-append (x ∷ xs) ys = omega (arith, length-append xs ys)

  pub length-update_where :
      (p : A → Bool) (f : A → A) (xs : List A) → length (update_where p f xs) ≡ length xs
  length-update_where p f [] = refl
  length-update_where p f (x ∷ xs) = ap suc (length-update_where p f xs)

  pub All-map : (P Q : A → Type 0) → ((x : A) → P x → Q x) → (xs : List A) → All P xs → All Q xs
  All-map P Q f [] h = tt
  All-map P Q f (x ∷ xs) h = (f x h.0, All-map P Q f xs h.1)

  pub All-map2 :
      (P Q R : A → Type 0)
      → ((x : A) → P x → Q x → R x)
      → (xs : List A) → All P xs
      → All Q xs
      → All R xs
  All-map2 P Q R f [] h k = tt
  All-map2 P Q R f (x ∷ xs) h k = (f x h.0 k.0, All-map2 P Q R f xs h.1 k.1)

  pub Any-map : (P Q : A → Type 0) → ((x : A) → P x → Q x) → (xs : List A) → Any P xs → Any Q xs
  Any-map P Q f [] h = elim h [ ]
  Any-map P Q f (x ∷ xs) (inl h) = inl (f x h)
  Any-map P Q f (x ∷ xs) (inr h) = inr (Any-map P Q f xs h)

  pub Any-with_All :
      (P Q R : A → Type 0)
      → ((x : A) → P x → Q x → R x)
      → (xs : List A) → All P xs
      → Any Q xs
      → Any R xs
  Any-with_All P Q R f [] a h = elim h [ ]
  Any-with_All P Q R f (x ∷ xs) a (inl h) = inl (f x a.0 h)
  Any-with_All P Q R f (x ∷ xs) a (inr h) = inr (Any-with_All P Q R f xs a.1 h)

  -- What holds of the changed rows that a test selects and of the other rows holds of all.
  pub All-update_where :
      (Q : A → Type 0) (p : A → Bool) (f : A → A)
      → ((x : A) → p x ≡ true → Q (f x))
      → ((x : A) → p x ≡ false → Q x)
      → (xs : List A) → All Q (update_where p f xs)
  All-update_where Q p f yea nay [] = tt
  All-update_where Q p f yea nay (x ∷ xs) = elim (Bool-cases (p x)) [
    | inl e ↦ rw e (yea x e, All-update_where Q p f yea nay xs)
    | inr e ↦ rw e (nay x e, All-update_where Q p f yea nay xs)
  ]

  -- An update that keeps a property of the rows it changes.
  pub All-update_where_kept :
      (Q : A → Type 0) (p : A → Bool) (f : A → A)
      → (xs : List A) → All Q xs
      → All (λ x. p x ≡ true → Q x → Q (f x)) xs
      → All Q (update_where p f xs)
  All-update_where_kept Q p f [] a h = tt
  All-update_where_kept Q p f (x ∷ xs) a h = elim (Bool-cases (p x)) [
    | inl e ↦ rw e (h.0 e a.0, All-update_where_kept Q p f xs a.1 h.1)
    | inr e ↦ rw e (a.0, All-update_where_kept Q p f xs a.1 h.1)
  ]

  pub All-of : (Q : A → Type 0) → ((x : A) → Q x) → (xs : List A) → All Q xs
  All-of Q h [] = tt
  All-of Q h (x ∷ xs) = (h x, All-of Q h xs)

  -- Two lists of one length whose members are related place by place.
  abbrev pub Zip : (A → A → Type 0) → List A → List A → Type 0
  Zip R [] [] = Unit
  Zip R (x ∷ xs) (y ∷ ys) = R x y × Zip R xs ys
  Zip R _ _ = ⊥

  pub Zip-update_where :
      (R : A → A → Type 0) (p : A → Bool) (f : A → A)
      → ((x : A) → p x ≡ true → R x (f x))
      → ((x : A) → R x x)
      → (xs : List A) → Zip R xs (update_where p f xs)
  Zip-update_where R p f change keep [] = tt
  Zip-update_where R p f change keep (x ∷ xs) = elim (Bool-cases (p x)) [
    | inl e ↦ rw e (change x e, Zip-update_where R p f change keep xs)
    | inr e ↦ rw e (keep x, Zip-update_where R p f change keep xs)
  ]

  -- The same, where a row that is not changed has failed the test.
  pub Zip-update_where_if :
      (R : A → A → Type 0) (p : A → Bool) (f : A → A)
      → ((x : A) → p x ≡ true → R x (f x))
      → ((x : A) → p x ≡ false → R x x)
      → (xs : List A) → Zip R xs (update_where p f xs)
  Zip-update_where_if R p f change keep [] = tt
  Zip-update_where_if R p f change keep (x ∷ xs) = elim (Bool-cases (p x)) [
    | inl e ↦ rw e (change x e, Zip-update_where_if R p f change keep xs)
    | inr e ↦ rw e (keep x e, Zip-update_where_if R p f change keep xs)
  ]

  pub Zip-of : (R : A → A → Type 0) → ((x : A) → R x x) → (xs : List A) → Zip R xs xs
  Zip-of R h [] = tt
  Zip-of R h (x ∷ xs) = (h x, Zip-of R h xs)

  pub Zip-chain :
      (R : A → A → Type 0)
      → ((x y z : A) → R x y → R y z → R x z)
      → (xs ys zs : List A) → Zip R xs ys
      → Zip R ys zs
      → Zip R xs zs
  Zip-chain R c [] [] [] h k = tt
  Zip-chain R c [] [] (z ∷ zs) h k = elim k [ ]
  Zip-chain R c [] (y ∷ ys) zs h k = elim h [ ]
  Zip-chain R c (x ∷ xs) [] zs h k = elim h [ ]
  Zip-chain R c (x ∷ xs) (y ∷ ys) [] h k = elim k [ ]
  Zip-chain R c (x ∷ xs) (y ∷ ys) (z ∷ zs) h k = (c x y z h.0 k.0, Zip-chain R c xs ys zs h.1 k.1)

  -- What a related row keeps, all rows keep.
  pub Zip-All :
      (R : A → A → Type 0) (P : A → Type 0)
      → ((x y : A) → R x y → P x → P y)
      → (xs ys : List A) → Zip R xs ys
      → All P xs
      → All P ys
  Zip-All R P f [] [] h k = tt
  Zip-All R P f [] (y ∷ ys) h k = elim h [ ]
  Zip-All R P f (x ∷ xs) [] h k = elim h [ ]
  Zip-All R P f (x ∷ xs) (y ∷ ys) h k = (f x y h.0 k.0, Zip-All R P f xs ys h.1 k.1)

  -- `ORDER BY key ASC`, rows of one key in the order of the table.
  abbrev pub insert_by : (A → ℕ) → A → List A → List A
  insert_by key x [] = x ∷ []
  insert_by key x (y ∷ ys) =
      let rest = insert_by key x ys in if ltb (key y) (key x) then y ∷ rest else x ∷ y ∷ ys

  abbrev pub sort_by : (A → ℕ) → List A → List A
  sort_by key [] = []
  sort_by key (x ∷ xs) = insert_by key x (sort_by key xs)

  length-insert_by :
      (key : A → ℕ) (x : A) (ys : List A) → length (insert_by key x ys) ≡ suc (length ys)
  length-insert_by key x [] = refl
  length-insert_by key x (y ∷ ys) = elim (Bool-cases (ltb (key y) (key x))) [
    | inl e ↦ rw e (ap suc (length-insert_by key x ys))
    | inr e ↦ rw e refl
  ]

  pub length-sort_by : (key : A → ℕ) (xs : List A) → length (sort_by key xs) ≡ length xs
  length-sort_by key [] = refl
  length-sort_by key (x ∷ xs) =
      length-insert_by key x (sort_by key xs) ∙ ap suc (length-sort_by key xs)
