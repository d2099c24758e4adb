-- ===== src/Calculation/Unpaid.antt =====
-- A calculation before the placement's invoice is paid, and the payment after it.
use mathlib.Core.Path.{subst}
use comission_mgmt.Prelude.{
  ℕ, ◌≡◌, refl, sym, ap, ◌∙◌, inl, inr, Bool, true, false, Option, some, List, [], ◌∷◌, ◌++◌,
  ==_iff, arith, All, All-map, All-map2, Any, Zip, find, map, Bool-cases,
}
use comission_mgmt.Prelude.Distinct.{Distinct}
use comission_mgmt.Core.Number.{Number}
use comission_mgmt.Core.Explanation.Text.{Text, Format}
use comission_mgmt.Store.Tables.{
  Uuid, Tables, CommissionRecordRow, InvoiceRow, PlacementRow, ContributorRow, held,
  collection_gate,
}
use comission_mgmt.Store.Monad.{Environment, World, returned, reply, SessionClaims, json_body}
use comission_mgmt.Invoices.Statements.{is_gated, is_paid_now, released}
use comission_mgmt.Invoices.Handlers.{UpdateInvoiceBody, requested_status, handle_update_invoice}
use comission_mgmt.Invoices.Members.{record_id}
use comission_mgmt.Calculation.Statements.{invoice_collected_in, contributors_in}
use comission_mgmt.Calculation.Handler.{Reading, Created, handle_calculate_commission}
use comission_mgmt.Calculation.Resolved.{Pairs}
use comission_mgmt.Calculation.Loop.{grown, IsCreated}
use comission_mgmt.Calculation.Created.{handle_calculate_commission_ok}
use comission_mgmt.Calculation.Holds.{created-IsHeldFor}
use comission_mgmt.Calculation.Released.{IsOpened, handle_update_invoice-opens_gate}

module _ {A : Type 0} where
  found-passes : (p : A → Bool) (xs : List A) (x : A) → find p xs ≡ some x → p x ≡ true
  found-passes p [] x e = absurd (cc)
  found-passes p (y ∷ ys) x e = elim (Bool-cases (p y)) [
    | inl h ↦ ground (arith, h, e)
    | inr h ↦ found-passes p ys x (rw h at e)
  ]

  Any-append : (P : A → Type 0) (xs ys : List A) → Any P ys → Any P (xs ++ ys)
  Any-append P [] ys h = h
  Any-append P (x ∷ xs) ys h = inr (Any-append P xs ys h)

  Zip-Any :
      (R : A → A → Type 0) (P Q : A → Type 0)
      → ((x y : A) → R x y → P x → Q y)
      → (xs ys : List A) → Zip R xs ys
      → Any P xs
      → Any Q ys
  Zip-Any R P Q f [] [] h k = elim k [ ]
  Zip-Any R P Q f [] (y ∷ ys) h k = elim h [ ]
  Zip-Any R P Q f (x ∷ xs) [] h k = elim h [ ]
  Zip-Any R P Q f (x ∷ xs) (y ∷ ys) h (inl k) = inl (f x y h.0 k)
  Zip-Any R P Q f (x ∷ xs) (y ∷ ys) h (inr k) = inr (Zip-Any R P Q f xs ys h.1 k)

  -- Each member's row is among the rows.
  rows-Any : {B : Type 0} (g : A → B) (es : List A) → All (λ e. Any (λ c. c ≡ g e) (map g es)) es
  rows-Any g [] = tt
  rows-Any g (e ∷ es) = (
    inl refl,
    All-map (λ x. Any (λ c. c ≡ g x) (map g es)) (λ x. Any (λ c. c ≡ g x) (map g (e ∷ es)))
        (λ x h. inr h) es (rows-Any g es),
  )

module _ {A : Type 0} ⦃n : Number A⦄ ⦃f : Format A⦄ (reading : Reading A) (env : Environment)
    (claims : SessionClaims) where
  -- A record that was calculated before the collection.
  abbrev IsGatedEntry : Uuid → Created A → Type 0
  IsGatedEntry placement_id e =
      (is_gated claims.org_id placement_id e.row ≡ true)
      × (e.row.net_payable ≡ f.to_fixed n.nought 4)

  gated_columns :
      (row : CommissionRecordRow) (org_id placement_id : Uuid)
      → row.org_id ≡ org_id
      → row.placement_id ≡ placement_id
      → row.status ≡ held
      → row.hold_reason ≡ some collection_gate
      → is_gated org_id placement_id row ≡ true
  gated_columns row org_id placement_id a b c d = rw (a, b, c, d) (ground arith)

  gated_entry :
      (p : PlacementRow) (window : Option ℕ) (t : Tables) (c : ContributorRow) (e : Created A)
      → IsCreated reading env claims p false window t c e
      → IsGatedEntry p.id e
  gated_entry p window t c e made =
      let (v, version, pipeline, (id, row)) = made in
      let (state, reason, net) = created-IsHeldFor reading env claims p false window t c e made in
      (
        gated_columns e.row claims.org_id p.id (ap (λ x. x.org_id) row)
            (ap (λ x. x.placement_id) row) state reason,
        net refl,
      )

  gated_entries :
      (p : PlacementRow) (collected : Bool) (window : Option ℕ) (t : Tables)
      (cs : List ContributorRow) (es : List (Created A))
      → collected ≡ false
      → Pairs (IsCreated reading env claims p collected window t) cs es
      → All (IsGatedEntry p.id) es
  gated_entries p true window t cs es unpaid h = absurd (cc)
  gated_entries p false window t [] [] unpaid h = tt
  gated_entries p false window t [] (e ∷ es) unpaid h = absurd h
  gated_entries p false window t (c ∷ cs) [] unpaid h = absurd h
  gated_entries p false window t (c ∷ cs) (e ∷ es) unpaid (h, hs) =
      (gated_entry p window t c e h, gated_entries p false window t cs es unpaid hs)

  -- The row of an entry is there, released, and its net payable is zero.
  abbrev pub IsReleasedUnpaid : Tables → Created A → Type 0
  IsReleasedUnpaid t e =
      Any (λ c. c ≡ released e.row) t.commission_records
      × ((released e.row).net_payable ≡ f.to_fixed n.nought 4)

  opened_entry :
      (t t' : Tables) (placement_id : Uuid) (e : Created A)
      → Zip (IsOpened env claims placement_id) t.commission_records t'.commission_records
      → Any (λ c. c ≡ e.row) t.commission_records
      → IsGatedEntry placement_id e
      → IsReleasedUnpaid t' e
  opened_entry t t' placement_id e z there gated = (
    Zip-Any (IsOpened env claims placement_id) (λ c. c ≡ e.row) (λ d. d ≡ released e.row)
        (λ c d h same.
          h.1 (ap (is_gated claims.org_id placement_id) same ∙ gated.0) ∙ ap released same)
        t.commission_records t'.commission_records z there,
    gated.1,
  )

  written_rows :
      (t t' : Tables) (es : List (Created A))
      → t' ≡ grown es t
      → All (λ e. Any (λ c. c ≡ e.row) t'.commission_records) es
  written_rows t t' es e =
      let row = λ (x : Created A). x.row in
      subst (λ rs. All (λ x. Any (λ c. c ≡ x.row) rs) es) (sym (ap (λ x. x.commission_records) e))
        (All-map (λ x. Any (λ c. c ≡ x.row) (map row es))
          (λ x. Any (λ c. c ≡ x.row) (t.commission_records ++ map row es))
          (λ x h. Any-append (λ c. c ≡ x.row) t.commission_records (map row es) h) es
          (rows-Any row es))

  -- What a calculation wrote before the placement's invoices were all paid, and a payment of an
  -- invoice of the placement released, with no failing statement and with distinct identifiers of
  -- the commission records, is payable with a net payable of zero: the payment does not calculate
  -- the amount.
  pub released_unpaid :
      (placement_id : Uuid) (out : List (Created A)) (w w1 w2 : World) (is_numeric : Text → Bool)
      (id : Uuid) (b : UpdateInvoiceBody) (u : InvoiceRow) (count : ℕ)
      → handle_calculate_commission reading env claims placement_id w
        ≡ (returned (reply 200 out), w1)
      → invoice_collected_in claims.org_id placement_id w.tables ≡ false
      → ((s : ℕ) → env.fails s ≡ false)
      → Distinct record_id w1.tables.commission_records
      → is_paid_now (requested_status b.status) ≡ true
      → u.placement_id ≡ placement_id
      → handle_update_invoice env is_numeric id (json_body b) claims w1
        ≡ (returned (reply 200 (u, count)), w2)
      → All (IsReleasedUnpaid w2.tables) out
  released_unpaid placement_id out w w1 w2 is_numeric id b u count calculated uncollected sound
        distinct paid same e =
      let (p, found, (own, active, (pairs, tables))) =
        handle_calculate_commission_ok reading env claims placement_id out w w1 calculated in
      let this : p.id ≡ placement_id =
        (==_iff p.id placement_id).0 (found-passes _ w.tables.placements p found) in
      let (z, kept) =
        handle_update_invoice-opens_gate env claims is_numeric id b u count w1 w2 sound distinct
          paid e in
      let z' =
        subst
          (λ x.
            Zip (IsOpened env claims x) w1.tables.commission_records w2.tables.commission_records)
          (same ∙ sym this) z in
      All-map2 _ _ _ (λ x there gated. opened_entry w1.tables w2.tables p.id x z' there gated) out
        (written_rows w.tables w1.tables out tables)
        (gated_entries p _ _ w.tables (contributors_in p.id w.tables) out
          (ap (λ x. invoice_collected_in claims.org_id x w.tables) this ∙ uncollected) pairs)
