-- ===== src/Security/Window.antt =====
-- The sliding window: how many requests of one key the limiter lets through.
use comission_mgmt.Prelude.{
  ℕ, ◌≤◌, ◌≡◌, refl, sym, ap, ◌∙◌, inl, inr, Bool, true, false, List, [], ◌∷◌, ◌++◌, ◌==◌, length,
  select, arith, All, All-map, Bool-cases,
}
use comission_mgmt.Prelude.Distinct.{Distinct}
use comission_mgmt.Security.RateLimiter.{timestamps_of, set, live, is_empty, clean}

module _ {A : Type 0} where
  pub select-append :
      (f : A → Bool) (xs ys : List A) → select f (xs ++ ys) ≡ select f xs ++ select f ys
  select-append f [] ys = refl
  select-append f (x ∷ xs) ys = elim (Bool-cases (f x)) [
    | inl e ↦ rw e (ap (λ zs. x ∷ zs) (select-append f xs ys))
    | inr e ↦ rw e (select-append f xs ys)
  ]

  pub length-select : (f : A → Bool) (xs : List A) → length (select f xs) ≤ length xs
  length-select f [] = omega arith
  length-select f (x ∷ xs) = elim (Bool-cases (f x)) [
    | inl e ↦ rw e (omega (arith, length-select f xs))
    | inr e ↦ rw e (omega (arith, length-select f xs))
  ]

-- What is live later is live now.
pub live-live :
    (w now now' : ℕ) (ts : List ℕ) → now ≤ now' → live w now' (live w now ts) ≡ live w now' ts
live-live w now now' [] h = refl
live-live w now now' (t ∷ ts) h = ground (arith, live-live w now now' ts h)

pub timestamps_of-set :
    (key : ℕ) (ts : List ℕ) (es : List (ℕ × List ℕ)) → timestamps_of key (set key ts es) ≡ ts
timestamps_of-set key ts [] = ground arith
timestamps_of-set key ts (e ∷ es) = elim (Bool-cases (e.0 == key)) [
  | inl h ↦ rw h (rw h refl)
  | inr h ↦ rw h (rw h (timestamps_of-set key ts es))
]

pub timestamps_of-set_other :
    (k key : ℕ) (ts : List ℕ) (es : List (ℕ × List ℕ))
    → key == k ≡ false
    → timestamps_of k (set key ts es) ≡ timestamps_of k es
timestamps_of-set_other k key ts [] h = rw h refl
timestamps_of-set_other k key ts (e ∷ es) h = ground (arith, timestamps_of-set_other k key ts es h)

-- A key that no entry has.
abbrev IsAbsent : ℕ → List (ℕ × List ℕ) → Type 0
IsAbsent key es = All (λ e. e.0 == key ≡ false) es

absent-timestamps_of :
    (key : ℕ) (es : List (ℕ × List ℕ)) → IsAbsent key es → timestamps_of key es ≡ []
absent-timestamps_of key [] h = refl
absent-timestamps_of key (e ∷ es) h = rw h.0 (absent-timestamps_of key es h.1)

set-IsAbsent :
    (k key : ℕ) (ts : List ℕ) (es : List (ℕ × List ℕ))
    → key == k ≡ false
    → IsAbsent k es
    → IsAbsent k (set key ts es)
set-IsAbsent k key ts [] n h = (n, tt)
set-IsAbsent k key ts (e ∷ es) n h = elim (Bool-cases (e.0 == key)) [
  | inl s ↦ rw s (h.0, h.1)
  | inr s ↦ rw s (h.0, set-IsAbsent k key ts es n h.1)
]

clean-IsAbsent :
    (k w now : ℕ) (es : List (ℕ × List ℕ)) → IsAbsent k es → IsAbsent k (clean w now es)
clean-IsAbsent k w now [] h = tt
clean-IsAbsent k w now (e ∷ es) h = elim (Bool-cases (is_empty (live w now e.1))) [
  | inl s ↦ rw s (clean-IsAbsent k w now es h.1)
  | inr s ↦ rw s (h.0, clean-IsAbsent k w now es h.1)
]

-- The keys of the map stay distinct.
pub set-Distinct :
    (key : ℕ) (ts : List ℕ) (es : List (ℕ × List ℕ))
    → Distinct (λ e. e.0) es
    → Distinct (λ e. e.0) (set key ts es)
set-Distinct key ts [] d = (tt, tt)
set-Distinct key ts (e ∷ es) d = elim (Bool-cases (e.0 == key)) [
  | inl s ↦ rw s d
  | inr s ↦ rw s (set-IsAbsent e.0 key ts es (ground arith) d.0, set-Distinct key ts es d.1)
]

pub clean-Distinct :
    (w now : ℕ) (es : List (ℕ × List ℕ))
    → Distinct (λ e. e.0) es
    → Distinct (λ e. e.0) (clean w now es)
clean-Distinct w now [] d = tt
clean-Distinct w now (e ∷ es) d = elim (Bool-cases (is_empty (live w now e.1))) [
  | inl s ↦ rw s (clean-Distinct w now es d.1)
  | inr s ↦ rw s (clean-IsAbsent e.0 w now es d.0, clean-Distinct w now es d.1)
]

empty_live : (ts : List ℕ) → is_empty ts ≡ true → ts ≡ []
empty_live [] e = refl
empty_live (t ∷ ts) e = absurd (cc)

same-IsAbsent : (n k : ℕ) (es : List (ℕ × List ℕ)) → n == k ≡ true → IsAbsent n es → IsAbsent k es
same-IsAbsent n k es h = All-map _ (λ e. e.0 == k ≡ false) (λ e a. ground arith) es

-- A cleanup loses no timestamp that is live.
pub live-clean :
    (k w now : ℕ) (es : List (ℕ × List ℕ))
    → Distinct (λ e. e.0) es
    → live w now (timestamps_of k (clean w now es)) ≡ live w now (timestamps_of k es)
live-clean k w now [] d = refl
live-clean k w now (e ∷ es) d = elim (Bool-cases (is_empty (live w now e.1))) [
  | inl s ↦ elim (Bool-cases (e.0 == k)) [
    | inl h ↦
        let absent = clean-IsAbsent k w now es (same-IsAbsent e.0 k es h d.0) in
        rw (s, h)
          (ap (live w now) (absent-timestamps_of k (clean w now es) absent)
            ∙ sym (empty_live (live w now e.1) s))
    | inr h ↦ rw (s, h) (live-clean k w now es d.1)
  ]
  | inr s ↦ elim (Bool-cases (e.0 == k)) [
    | inl h ↦ rw (s, h) (live-live w now now e.1 (omega arith))
    | inr h ↦ rw (s, h) (live-clean k w now es d.1)
  ]
]
