-- ===== src/Calculation/Released.antt =====
-- The payment of an invoice against the holds of a calculation.
use mathlib.Core.Path.{subst}
use comission_mgmt.Prelude.{
  ℕ, ◌≡◌, refl, sym, ap, ◌∙◌, inl, inr, Bool, true, false, List, [], ◌∷◌, arith, All, Zip, find,
  Bool-cases,
}
use comission_mgmt.Prelude.Distinct.{Distinct}
use comission_mgmt.Core.Explanation.Text.{Text}
use comission_mgmt.Store.Tables.{Uuid, Tables, CommissionRecordRow, InvoiceRow}
use comission_mgmt.Store.Monad.{Environment, World, returned, reply, SessionClaims, Body, json_body}
use comission_mgmt.Invoices.Statements.{
  UpdateInvoiceInput, is_gated, is_paid_now, released, sets_nothing,
}
use comission_mgmt.Invoices.Handlers.{
  UpdateInvoiceBody, requested_status, input_of, release_if_paid, handle_update_invoice,
}
use comission_mgmt.Invoices.Members.{record_id, false-ne-true}
use comission_mgmt.Invoices.Release.{IsFreed}
use comission_mgmt.Invoices.Paid.{release_paid-none_gated}
use comission_mgmt.Invoices.Payment.{
  updated_tables, handle_update_invoice-Ran, handle_update_invoice_ok,
}
use comission_mgmt.Calculation.Statements.{guarantee_in, guarantee_end_of, is_current_period}

same_body :
    (b c : UpdateInvoiceBody) → ◌≡◌ {A = Body UpdateInvoiceBody} (json_body b) (json_body c) → b ≡ c
same_body b c e = ground arith

module _ (env : Environment) (claims : SessionClaims) where
  updated-keeps :
      (id : Uuid) (input : UpdateInvoiceInput) (t : Tables)
      → ((updated_tables env claims id input t).commission_records ≡ t.commission_records)
        × ((updated_tables env claims id input t).guarantee_periods ≡ t.guarantee_periods)
  updated-keeps id input t = elim (Bool-cases (sets_nothing input)) [
    | inl k ↦ rw k (refl, refl)
    | inr k ↦ rw k (refl, refl)
  ]

  -- A record at the gate of the placement is released, and a record that does not wait stays.
  abbrev pub IsOpened : Uuid → CommissionRecordRow → CommissionRecordRow → Type 0
  IsOpened placement_id c d =
      (is_gated claims.org_id placement_id d ≡ false)
      × (is_gated claims.org_id placement_id c ≡ true → d ≡ released c)

  opened :
      (placement_id : Uuid) (linked : List Uuid) (c d : CommissionRecordRow)
      → IsFreed claims.org_id placement_id linked c d
      → is_gated claims.org_id placement_id d ≡ false
      → IsOpened placement_id c d
  opened placement_id linked c d (inl same) out = (
    out,
    λ k. absurd (false-ne-true (sym out ∙ ap (is_gated claims.org_id placement_id) same ∙ k)),
  )
  opened placement_id linked c d (inr (waits, freed)) out = (out, λ k. freed)

  Zip-IsOpened :
      (placement_id : Uuid) (linked : List Uuid) (cs ds : List CommissionRecordRow)
      → Zip (IsFreed claims.org_id placement_id linked) cs ds
      → All (λ d. is_gated claims.org_id placement_id d ≡ false) ds
      → Zip (IsOpened placement_id) cs ds
  Zip-IsOpened placement_id linked [] [] h k = tt
  Zip-IsOpened placement_id linked [] (d ∷ ds) h k = absurd h
  Zip-IsOpened placement_id linked (c ∷ cs) [] h k = absurd h
  Zip-IsOpened placement_id linked (c ∷ cs) (d ∷ ds) (h, hs) (k, ks) =
      (opened placement_id linked c d h k, Zip-IsOpened placement_id linked cs ds hs ks)

  none_gated :
      (paid : Bool) (u : InvoiceRow) (w1 : World)
      → paid ≡ true
      → ((s : ℕ) → env.fails s ≡ false)
      → Distinct record_id w1.tables.commission_records
      → All
          (λ c. is_gated claims.org_id u.placement_id c ≡ false)
          (release_if_paid env claims paid u w1).1.tables.commission_records
  none_gated true u w1 e sound d = release_paid-none_gated env claims.org_id u w1 (sound _) d
  none_gated false u w1 e sound d = absurd (cc)

  -- A payment that is answered with status 200, with no failing statement and with distinct
  -- identifiers of the commission records, releases every record that waits at the collection gate
  -- of the invoice's placement, and leaves none at it, whatever the placement's other invoices are;
  -- the guarantees still run as they did before.
  pub handle_update_invoice-opens_gate :
      (is_numeric : Text → Bool) (id : Uuid) (b : UpdateInvoiceBody) (u : InvoiceRow) (count : ℕ)
      (w w' : World)
      → ((s : ℕ) → env.fails s ≡ false)
      → Distinct record_id w.tables.commission_records
      → is_paid_now (requested_status b.status) ≡ true
      → handle_update_invoice env is_numeric id (json_body b) claims w
        ≡ (returned (reply 200 (u, count)), w')
      → Zip (IsOpened u.placement_id) w.tables.commission_records w'.tables.commission_records
        × ((today : ℕ) (placement_id : Uuid)
            → guarantee_in today claims.org_id placement_id w'.tables
              ≡ guarantee_in today claims.org_id placement_id w.tables)
  handle_update_invoice-opens_gate is_numeric id b u count w w' sound distinct paid e =
      let (b1, same, (found, row, (w1, tables, after))) =
        handle_update_invoice-Ran env claims is_numeric id (json_body b) u count w w' e in
      let (b2, same2, (found2, row2, unpaid, release)) =
        handle_update_invoice_ok env claims is_numeric id (json_body b) u count w w' e in
      let one : b ≡ b1 = same_body b b1 same in
      let two : b ≡ b2 = same_body b b2 same2 in
      let (records, periods) = updated-keeps id (input_of b2) w.tables in
      let records1 = updated-keeps id (input_of b1) w.tables in
      let (d, freed, frame) =
        release (subst (λ x. is_paid_now (requested_status x.status) ≡ true) two paid)
          (subst (Distinct record_id) (sym records) distinct) in
      let gone =
        none_gated (is_paid_now (requested_status b1.status)) u w1
          (subst (λ x. is_paid_now (requested_status x.status) ≡ true) one paid) sound
          (subst (Distinct record_id) (sym (ap (λ x. x.commission_records) tables ∙ records1.0))
            distinct) in
      (
        subst (λ cs. Zip (IsOpened u.placement_id) cs w'.tables.commission_records) records
            (Zip-IsOpened u.placement_id _ _ _ freed (
              subst
                (λ x.
                  All (λ c. is_gated claims.org_id u.placement_id c ≡ false) x.commission_records)
                (sym after) gone)),
        λ today placement_id.
            ap
              (λ gs.
                guarantee_end_of (find (is_current_period today claims.org_id placement_id) gs))
              (ap (λ x. x.guarantee_periods) frame ∙ periods),
      )
