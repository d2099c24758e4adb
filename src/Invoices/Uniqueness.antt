-- ===== src/Invoices/Uniqueness.antt =====
-- Every request on invoices keeps their numbers apart.
use comission_mgmt.Prelude.{
  ℕ, inl, inr, Bool, true, false, ◌==◌, Option, none, some, List, [], ◌∷◌, Bool-cases,
}
use comission_mgmt.Prelude.Codes.{is_blank}
use comission_mgmt.Core.Explanation.Text.{Text}
use comission_mgmt.Store.Tables.{
  Uuid, InvoiceRow, InvoiceStatus, PlacementRow, invoice_created, invoice_imported,
}
use comission_mgmt.Store.Monad.{
  Environment, World, M, return, attempt, ◌>>=◌, ◌>>◌, SessionClaims, Body, invalid_body, null_body,
  json_body, Response, reply,
}
use comission_mgmt.Store.Within.{Within, catch-Within}
use comission_mgmt.Clawback.Statements.{get_placement}
use comission_mgmt.Invoices.Statements.{
  CreateInvoiceInput, is_paid, create_invoice, update_invoice, get_invoice, release_collection_gate,
}
use comission_mgmt.Invoices.Handlers.{
  CreateInvoiceBody, UpdateInvoiceBody, or_zero, write_invoice_audit_log, created_answer,
  create_for, create_with, updated_answer, update_of, update_after, requested_status, input_of,
  is_unknown, may_move, is_bad_amount, handle_create_invoice, handle_update_invoice,
}
use comission_mgmt.Invoices.Csv.{Row, Parsed, parsed, failed_parse, parse_invoice_csv}
use comission_mgmt.Invoices.Import.{
  Upload, unreadable, without_file, csv_text, ImportBody, ImportRow, status_named, row_cells,
  upsert_for, release_imported, import_one, go_on, import_with_status, import_cells, import_rows,
  import_parsed, handle_import_invoices,
}
use comission_mgmt.Invoices.Numbers.{
  KeepsNumbers, KeepsNumbers-IsPreorder, create_invoice-Within, upsert-Within, query-Within,
  update_invoice-Within,
}
use comission_mgmt.Invoices.Requests.{
  chained, attempted, answered, gate-kept, updated-kept, placement-kept,
}
use comission_mgmt.Invoices.Numbers.{NoTwins}

module _ (env : Environment) (is_numeric : Text → Bool) where
  create_for-kept :
      (claims : SessionClaims) (input : CreateInvoiceInput) (found : Option (Option PlacementRow))
      → Within KeepsNumbers (create_for env claims input found)
  create_for-kept claims input none w = λ h. h
  create_for-kept claims input (some none) w = λ h. h
  create_for-kept claims input (some (some p)) w = elim (Bool-cases (p.org_id == claims.org_id)) [
    | inr e ↦ rw e (λ h. h)
    | inl e ↦ rw e (
        catch-Within KeepsNumbers KeepsNumbers-IsPreorder
          (create_invoice env input >>= created_answer env claims) _
          (chained (create_invoice env input) (created_answer env claims)
            (create_invoice-Within env input)
            (λ i. answered env claims invoice_created i.id (reply 201 i)))
          (λ x v h. h) w)
  ]

  create_with-kept :
      (claims : SessionClaims) (b : CreateInvoiceBody) (p : Option Uuid)
      (number amount : Option Text)
      → Within KeepsNumbers (create_with env is_numeric claims b p number amount)
  create_with-kept claims b none number amount w = λ h. h
  create_with-kept claims b (some p) none amount w = λ h. h
  create_with-kept claims b (some p) (some number) none w = λ h. h
  create_with-kept claims b (some p) (some number) (some amount) w =
      elim (Bool-cases (is_blank number)) [
        | inl e ↦ rw e (λ h. h)
        | inr e ↦ rw e (elim (Bool-cases (is_numeric amount)) [
          | inr k ↦ rw k (λ h. h)
          | inl k ↦ rw k (
              chained (attempt (get_placement env p)) (create_for env claims _)
                (attempted (get_placement env p) (placement-kept env p)) (create_for-kept claims _)
                w)
        ])
      ]

  create-kept :
      (body : Body CreateInvoiceBody) (claims : SessionClaims)
      → Within KeepsNumbers (handle_create_invoice env is_numeric body claims)
  unfolding handle_create_invoice
  create-kept invalid_body claims = λ w h. h
  create-kept null_body claims = λ w h. h
  create-kept (json_body b) claims =
      create_with-kept claims b b.placement_id b.invoice_number b.amount_billed

  update_of-kept :
      (id : Uuid) (b : UpdateInvoiceBody) (claims : SessionClaims)
      (found : Option (Option InvoiceRow))
      → Within KeepsNumbers (update_of env is_numeric id b claims found)
  update_of-kept id b claims none w = λ h. h
  update_of-kept id b claims (some none) w = λ h. h
  update_of-kept id b claims (some (some i)) w = elim (Bool-cases (is_unknown b.status)) [
    | inl e ↦ rw e (λ h. h)
    | inr e ↦ rw e (elim (Bool-cases (may_move i.status b.status)) [
      | inr k ↦ rw k (λ h. h)
      | inl k ↦ rw k (elim (Bool-cases (is_bad_amount is_numeric b.amount_collected)) [
        | inl l ↦ rw l (λ h. h)
        | inr l ↦ rw l (
            catch-Within KeepsNumbers KeepsNumbers-IsPreorder
              (update_invoice env claims.org_id id (input_of b)
                >>= updated_answer env claims (requested_status b.status))
              _
              (chained (update_invoice env claims.org_id id (input_of b))
                (updated_answer env claims (requested_status b.status))
                (update_invoice-Within env claims.org_id id (input_of b))
                (updated-kept env claims (requested_status b.status)))
              (λ x v h. h) w)
      ])
    ])
  ]

  update_after-kept :
      (id : Uuid) (body : Body UpdateInvoiceBody) (claims : SessionClaims)
      (found : Option (Option InvoiceRow))
      → Within KeepsNumbers (update_after env is_numeric id body claims found)
  update_after-kept id (json_body b) claims found = update_of-kept id b claims found
  update_after-kept id invalid_body claims none = λ w h. h
  update_after-kept id invalid_body claims (some none) = λ w h. h
  update_after-kept id invalid_body claims (some (some i)) = λ w h. h
  update_after-kept id null_body claims none = λ w h. h
  update_after-kept id null_body claims (some none) = λ w h. h
  update_after-kept id null_body claims (some (some i)) = λ w h. h

  looked_up-kept :
      (id : Uuid) (body : Body UpdateInvoiceBody) (claims : SessionClaims)
      → Within KeepsNumbers (
          attempt (get_invoice env claims.org_id id) >>= update_after env is_numeric id body claims)
  unfolding get_invoice
  looked_up-kept id body claims =
      chained (attempt (get_invoice env claims.org_id id))
        (update_after env is_numeric id body claims)
        (attempted (get_invoice env claims.org_id id) (query-Within env _))
        (update_after-kept id body claims)

  update-kept :
      (id : Uuid) (body : Body UpdateInvoiceBody) (claims : SessionClaims)
      → Within KeepsNumbers (handle_update_invoice env is_numeric id body claims)
  unfolding handle_update_invoice
  update-kept id invalid_body claims = λ w h. h
  update-kept id null_body claims = looked_up-kept id null_body claims
  update-kept id (json_body b) claims = looked_up-kept id (json_body b) claims

module _ (env : Environment) (uuid_of : Text → Option Uuid) (claims : SessionClaims) where
  upsert_for-kept :
      (r : ImportRow) (status : InvoiceStatus) (p : Option Uuid)
      → Within KeepsNumbers (upsert_for env uuid_of claims r status p)
  upsert_for-kept r status none = λ w h. h
  upsert_for-kept r status (some p) = upsert-Within env _

  imported-kept :
      (b : Bool) (i : InvoiceRow) → Within KeepsNumbers (release_imported env uuid_of claims b i)
  imported-kept false i = λ w h. h
  imported-kept true i =
      attempted (release_collection_gate env claims.org_id i.placement_id)
        (gate-kept env claims.org_id i.placement_id)

  one-kept :
      (r : ImportRow) (status : InvoiceStatus)
      → Within KeepsNumbers (import_one env uuid_of claims r status)
  one-kept r status =
      chained (upsert_for env uuid_of claims r status (uuid_of r.placement_id))
        (λ i. release_imported env uuid_of claims (is_paid status) i >>= λ released.
          write_invoice_audit_log env claims invoice_imported i.id >> return (i, or_zero released))
        (upsert_for-kept r status (uuid_of r.placement_id))
        (λ i.
          chained (release_imported env uuid_of claims (is_paid status) i)
            (λ released.
              write_invoice_audit_log env claims invoice_imported i.id
              >> return (i, or_zero released))
            (imported-kept (is_paid status) i)
            (λ released. answered env claims invoice_imported i.id (i, or_zero released)))

  go_on-kept :
      (rest : ImportBody → M (Response ImportBody)) (done : ImportBody)
      → ((d : ImportBody) → Within KeepsNumbers (rest d))
      → (r : Option (InvoiceRow × ℕ)) → Within KeepsNumbers (go_on env uuid_of claims rest done r)
  go_on-kept rest done h none = λ w k. k
  go_on-kept rest done h (some (i, n)) = h _

  status-kept :
      (rest : ImportBody → M (Response ImportBody)) (done : ImportBody)
      → ((d : ImportBody) → Within KeepsNumbers (rest d))
      → (r : ImportRow) (status : Option InvoiceStatus)
      → Within KeepsNumbers (import_with_status env uuid_of claims rest done r status)
  status-kept rest done h r none = λ w k. k
  status-kept rest done h r (some status) =
      chained (attempt (import_one env uuid_of claims r status))
        (go_on env uuid_of claims rest done)
        (attempted (import_one env uuid_of claims r status) (one-kept r status))
        (go_on-kept rest done h)

  cells-kept :
      (rest : ImportBody → M (Response ImportBody)) (done : ImportBody)
      → ((d : ImportBody) → Within KeepsNumbers (rest d))
      → (r : Option ImportRow) → Within KeepsNumbers (import_cells env uuid_of claims rest done r)
  cells-kept rest done h none = λ w k. k
  cells-kept rest done h (some r) = status-kept rest done h r (status_named r.status)

  rows-kept :
      (rows : List Row) (done : ImportBody)
      → Within KeepsNumbers (import_rows env uuid_of claims rows done)
  unfolding import_rows
  rows-kept [] done = λ w h. h
  rows-kept (row ∷ rows) done =
      cells-kept (import_rows env uuid_of claims rows) done (rows-kept rows) (row_cells row)

  parsed-kept : (p : Parsed) → Within KeepsNumbers (import_parsed env uuid_of claims p)
  parsed-kept (failed_parse e) = λ w h. h
  parsed-kept (parsed rows) = rows-kept rows _

  import-kept : (u : Upload) → Within KeepsNumbers (handle_import_invoices env uuid_of claims u)
  unfolding handle_import_invoices
  import-kept unreadable w = λ h. h
  import-kept without_file w = λ h. h
  import-kept (csv_text csv) w = elim (Bool-cases (is_blank csv)) [
    | inl e ↦ rw e (λ h. h)
    | inr e ↦ rw e (parsed-kept (parse_invoice_csv csv) w)
  ]

-- No request on invoices, whatever it answers and whichever of its statements fail, gives two
-- invoices of an organisation the same number: neither a creation, nor an update, nor an import.
pub requests-NoTwins :
    (env : Environment) (is_numeric : Text → Bool) (uuid_of : Text → Option Uuid)
    (claims : SessionClaims) (w : World)
    → NoTwins w.tables.invoices
    → ((body : Body CreateInvoiceBody)
        → NoTwins (handle_create_invoice env is_numeric body claims w).1.tables.invoices)
      × ((id : Uuid) (body : Body UpdateInvoiceBody)
          → NoTwins (handle_update_invoice env is_numeric id body claims w).1.tables.invoices)
      × ((u : Upload) → NoTwins (handle_import_invoices env uuid_of claims u w).1.tables.invoices)
requests-NoTwins env is_numeric uuid_of claims w h = (
  λ body. create-kept env is_numeric body claims w h,
  λ id body. update-kept env is_numeric id body claims w h,
  λ u. import-kept env uuid_of claims u w h,
)
