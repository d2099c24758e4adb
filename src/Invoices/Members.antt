-- ===== src/Invoices/Members.antt =====
-- The selection of rows by the identifiers of rows that pass a test.
use mathlib.Core.Path.{subst}
use comission_mgmt.Prelude.{
  ℕ, ◌≡◌, refl, sym, ◌∙◌, inl, inr, Bool, true, false, List, [], ◌∷◌, ◌==◌, arith, All, All-map2,
  select, map, Bool-cases,
}
use comission_mgmt.Prelude.Distinct.{Distinct}
use comission_mgmt.Store.Tables.{Uuid, CommissionRecordRow}
use comission_mgmt.Invoices.Statements.{is_one_of}

abbrev pub record_id : CommissionRecordRow → Uuid
record_id c = c.id

pub false-ne-true : (false ≡ true) → ⊥
false-ne-true h = cc

-- The members of a selection, found again by their identifiers, pass the test of the selection.
is_one_of-absent :
    (g : CommissionRecordRow → Bool) (x : CommissionRecordRow) (cs : List CommissionRecordRow)
    → All (λ y. y.id == x.id ≡ false) cs
    → is_one_of (map record_id (select g cs)) x.id ≡ false
is_one_of-absent g x [] h = refl
is_one_of-absent g x (c ∷ cs) h = elim (Bool-cases (g c)) [
  | inl e ↦ rw e (rw h.0 (is_one_of-absent g x cs h.1))
  | inr e ↦ rw e (is_one_of-absent g x cs h.1)
]

skip_head :
    (g : CommissionRecordRow → Bool) (x y : CommissionRecordRow) (ids : List Uuid)
    → y.id == x.id ≡ false
    → (is_one_of ids y.id ≡ true → g y ≡ true)
    → is_one_of (x.id ∷ ids) y.id ≡ true
    → g y ≡ true
skip_head g x y ids ne h found = h (rw (the_other x.id y.id ne) at found)
  where
    the_other : (a b : ℕ) → b == a ≡ false → a == b ≡ false
    the_other a b k = ground arith

pub members-selected :
    (g : CommissionRecordRow → Bool) (cs : List CommissionRecordRow)
    → Distinct record_id cs
    → All (λ c. is_one_of (map record_id (select g cs)) c.id ≡ true → g c ≡ true) cs
members-selected g [] d = tt
members-selected g (x ∷ cs) d = elim (Bool-cases (g x)) [
  | inl e ↦ subst (ByIds (x ∷ cs)) (sym (select_yes e)) (
    λ found. e,
    All-map2 (λ y. y.id == x.id ≡ false) (selects (map record_id (select g cs)))
        (selects (x.id ∷ map record_id (select g cs)))
        (λ y ne h. skip_head g x y (map record_id (select g cs)) ne h) cs d.0
        (members-selected g cs d.1),
  )
  | inr e ↦ subst (ByIds (x ∷ cs)) (sym (select_not e)) (
    λ found. absurd (false-ne-true (sym (is_one_of-absent g x cs d.0) ∙ found)),
    members-selected g cs d.1,
  )
]
  where
    selects : List Uuid → CommissionRecordRow → Type 0
    selects ids c = is_one_of ids c.id ≡ true → g c ≡ true

    ByIds : List CommissionRecordRow → List CommissionRecordRow → Type 0
    ByIds rows chosen = All (selects (map record_id chosen)) rows

    select_yes : g x ≡ true → select g (x ∷ cs) ≡ x ∷ select g cs
    select_yes e = rw e refl

    select_not : g x ≡ false → select g (x ∷ cs) ≡ select g cs
    select_not e = rw e refl
