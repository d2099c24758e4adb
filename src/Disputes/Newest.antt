-- ===== src/Disputes/Newest.antt =====
-- The order of a listing: the newest first.
use comission_mgmt.Prelude.{
  ◌≡◌, refl, inl, inr, false, true, List, [], ◌∷◌, ltb, arith, All, Any, All-map, Bool-cases,
  select, Bool,
}
use comission_mgmt.Store.Tables.{DisputeRow}
use comission_mgmt.Disputes.Statements.{insert_newest, newest_first}

-- No row is older than a later one.
abbrev pub IsNewestFirst : List DisputeRow → Type 0
IsNewestFirst [] = Unit
IsNewestFirst (d ∷ ds) = All (λ e. ltb d.created_at e.created_at ≡ false) ds × IsNewestFirst ds

insert_newest-All :
    (P : DisputeRow → Type 0) (d : DisputeRow) (es : List DisputeRow)
    → P d
    → All P es
    → All P (insert_newest d es)
insert_newest-All P d [] h k = (h, tt)
insert_newest-All P d (e ∷ es) h k = elim (Bool-cases (ltb d.created_at e.created_at)) [
  | inl b ↦ rw b (k.0, insert_newest-All P d es h k.1)
  | inr b ↦ rw b (h, k)
]

pub newest_first-All :
    (P : DisputeRow → Type 0) (ds : List DisputeRow) → All P ds → All P (newest_first ds)
newest_first-All P [] h = tt
newest_first-All P (d ∷ ds) h =
    insert_newest-All P d (newest_first ds) h.0 (newest_first-All P ds h.1)

-- The inserted row is there, and so are the others.
insert_newest-here :
    (P : DisputeRow → Type 0) (d : DisputeRow) (es : List DisputeRow)
    → P d
    → Any P (insert_newest d es)
insert_newest-here P d [] h = inl h
insert_newest-here P d (e ∷ es) h = elim (Bool-cases (ltb d.created_at e.created_at)) [
  | inl b ↦ rw b (inr (insert_newest-here P d es h))
  | inr b ↦ rw b (inl h)
]

insert_newest-there :
    (P : DisputeRow → Type 0) (d : DisputeRow) (es : List DisputeRow)
    → Any P es
    → Any P (insert_newest d es)
insert_newest-there P d [] h = elim h [ ]
insert_newest-there P d (e ∷ es) h = elim (Bool-cases (ltb d.created_at e.created_at)) [
  | inl b ↦
      rw b (elim h [ inl here ↦ inl here | inr later ↦ inr (insert_newest-there P d es later) ])
  | inr b ↦ rw b (inr h)
]

pub newest_first-Any :
    (P : DisputeRow → Type 0) (ds : List DisputeRow) → Any P ds → Any P (newest_first ds)
newest_first-Any P [] h = elim h [ ]
newest_first-Any P (d ∷ ds) (inl h) = insert_newest-here P d (newest_first ds) h
newest_first-Any P (d ∷ ds) (inr h) =
    insert_newest-there P d (newest_first ds) (newest_first-Any P ds h)

insert_newest-IsNewestFirst :
    (d : DisputeRow) (es : List DisputeRow) → IsNewestFirst es → IsNewestFirst (insert_newest d es)
insert_newest-IsNewestFirst d [] h = (tt, tt)
insert_newest-IsNewestFirst d (e ∷ es) h = elim (Bool-cases (ltb d.created_at e.created_at)) [
  | inl b ↦ rw b (
    insert_newest-All (λ x. ltb e.created_at x.created_at ≡ false) d es (ground arith) h.0,
    insert_newest-IsNewestFirst d es h.1,
  )
  | inr b ↦ rw b (
    (
      b,
      All-map (λ x. ltb e.created_at x.created_at ≡ false)
          (λ x. ltb d.created_at x.created_at ≡ false) (λ x k. ground arith) es h.0,
    ),
    h,
  )
]

pub newest_first-IsNewestFirst : (ds : List DisputeRow) → IsNewestFirst (newest_first ds)
newest_first-IsNewestFirst [] = tt
newest_first-IsNewestFirst (d ∷ ds) =
    insert_newest-IsNewestFirst d (newest_first ds) (newest_first-IsNewestFirst ds)

-- What a selection takes, and all that it takes.
pub select-All :
    (p : DisputeRow → Bool) (ds : List DisputeRow) → All (λ d. p d ≡ true) (select p ds)
select-All p [] = tt
select-All p (d ∷ ds) = elim (Bool-cases (p d)) [
  | inl b ↦ rw b (b, select-All p ds)
  | inr b ↦ rw b (select-All p ds)
]

pub select-Any :
    (p : DisputeRow → Bool) (x : DisputeRow) (ds : List DisputeRow)
    → p x ≡ true
    → Any (λ d. d ≡ x) ds
    → Any (λ d. d ≡ x) (select p ds)
select-Any p x [] h k = elim k [ ]
select-Any p x (d ∷ ds) h (inl same) = rw (same, h) (inl refl)
select-Any p x (d ∷ ds) h (inr later) = elim (Bool-cases (p d)) [
  | inl b ↦ rw b (inr (select-Any p x ds h later))
  | inr b ↦ rw b (select-Any p x ds h later)
]
