-- ===== src/Invoices/Import.antt =====
-- `handleImportInvoices` of apps/server/src/api/invoices.ts.
use Prim.Native.String.{String}
use comission_mgmt.Prelude.{
  ℕ, ◌+◌, Bool, true, false, Option, none, some, List, [], ◌∷◌, ◌++◌, if◌then◌else◌,
}
use comission_mgmt.Prelude.Codes.{eq_codes, is_blank}
use comission_mgmt.Core.Explanation.Text.{Text, codes}
use comission_mgmt.Store.Tables.{
  Uuid, InvoiceRow, InvoiceStatus, issued, partially_paid, paid_invoice, disputed, written_off,
  credit_memo_applied, invoice_imported,
}
use comission_mgmt.Store.Monad.{
  Environment, M, database_error, return, throw, attempt, ◌>>=◌, ◌>>◌, Response, reply, refuse,
  SessionClaims,
}
use comission_mgmt.Invoices.Statements.{is_paid, upsert_invoice_by_number, release_collection_gate}
use comission_mgmt.Invoices.Handlers.{write_invoice_audit_log, or_zero}
use comission_mgmt.Invoices.Csv.{Row, row_get, Parsed, parsed, failed_parse, parse_invoice_csv}

-- The request's text: unreadable, a form without a file, or a text.
pub data Upload : Type 0 where
  unreadable without_file : Upload
  csv_text : Text → Upload

-- The answer: the invoices in the order of the rows, and the records released.
pub record ImportBody : Type 0 where
  pub invoices : List InvoiceRow
  pub collection_released : ℕ

abbrev pub status_named : Text → Option InvoiceStatus
status_named t =
    if eq_codes t (codes "Issued")
    then some issued
    else if eq_codes t (codes "PartiallyPaid")
    then some partially_paid
    else if eq_codes t (codes "Paid")
    then some paid_invoice
    else if eq_codes t (codes "Disputed")
    then some disputed
    else if eq_codes t (codes "WrittenOff")
    then some written_off
    else if eq_codes t (codes "CreditMemoApplied")
    then some credit_memo_applied
    else none

-- A cell that is there and not empty.
abbrev pub filled : Option Text → Option Text
filled none = none
filled (some []) = none
filled (some (c ∷ cs)) = some (c ∷ cs)

abbrev pub cell_of : String → Row → Option Text
cell_of key row = filled (row_get (codes key) row)

-- A row with its required cells, `none` without one of them.
pub record ImportRow : Type 0 where
  pub invoice_number : Text
  pub placement_id : Text
  pub amount_billed : Text
  pub status : Text
  pub amount_collected : Option Text

abbrev pub import_row :
    Option Text → Option Text → Option Text → Option Text → Option Text → Option ImportRow
import_row (some number) (some placement) (some amount) (some status) collected = some (record {
  invoice_number = number;
  placement_id = placement;
  amount_billed = amount;
  status = status;
  amount_collected = collected;
})
import_row _ _ _ _ _ = none

abbrev pub row_cells : Row → Option ImportRow
row_cells row =
    import_row (cell_of "invoice_number" row) (cell_of "placement_id" row)
      (cell_of "amount_billed" row) (cell_of "status" row) (cell_of "amount_collected" row)

-- `uuid_of` is the database's reading of a text as a UUID, which fails on any other text.
module _ (env : Environment) (uuid_of : Text → Option Uuid) (claims : SessionClaims) where
  abbrev pub upsert_for : ImportRow → InvoiceStatus → Option Uuid → M InvoiceRow
  upsert_for r status none = throw database_error
  upsert_for r status (some placement_id) = upsert_invoice_by_number env (record {
    org_id = claims.org_id;
    placement_id = placement_id;
    invoice_number = r.invoice_number;
    amount_billed = r.amount_billed;
    amount_collected = r.amount_collected;
    status = some status;
    issued_at = none;
    due_at = none;
  })

  abbrev pub release_imported : Bool → InvoiceRow → M (Option ℕ)
  release_imported false i = return none
  release_imported true i = attempt (release_collection_gate env claims.org_id i.placement_id)

  -- The body of the row's `try`: the invoice and the records released.
  abbrev pub import_one : ImportRow → InvoiceStatus → M (InvoiceRow × ℕ)
  import_one r status = upsert_for r status (uuid_of r.placement_id) >>= λ i.
      release_imported (is_paid status) i >>= λ released.
      write_invoice_audit_log env claims invoice_imported i.id >> return (i, or_zero released)

  -- What follows the row, `none` if it threw.
  abbrev pub go_on :
      (ImportBody → M (Response ImportBody))
      → ImportBody
      → Option (InvoiceRow × ℕ)
      → M (Response ImportBody)
  go_on rest done none = return (refuse 500 "Failed to import row")
  go_on rest done (some (i, n)) = rest (record {
    invoices = done.invoices ++ (i ∷ []);
    collection_released = done.collection_released + n;
  })

  abbrev pub import_with_status :
      (ImportBody → M (Response ImportBody))
      → ImportBody
      → ImportRow
      → Option InvoiceStatus
      → M (Response ImportBody)
  import_with_status rest done r none = return (refuse 422 "Invalid status in CSV row")
  import_with_status rest done r (some status) = attempt (import_one r status) >>= go_on rest done

  abbrev pub import_cells :
      (ImportBody → M (Response ImportBody))
      → ImportBody
      → Option ImportRow
      → M (Response ImportBody)
  import_cells rest done none = return (refuse 422 "CSV row missing required fields")
  import_cells rest done (some r) = import_with_status rest done r (status_named r.status)

  -- The loop over the rows; a refusal ends it, and what the rows before it wrote stays.
  unfoldable pub import_rows : List Row → ImportBody → M (Response ImportBody)
  unfolding upsert_invoice_by_number release_collection_gate
  import_rows [] done = return (reply 200 done)
  import_rows (row ∷ rows) done = import_cells (import_rows rows) done (row_cells row)

  abbrev pub import_parsed : Parsed → M (Response ImportBody)
  import_parsed (failed_parse e) = return (refuse 400 "CSV parse error")
  import_parsed (parsed rows) = import_rows rows (record { invoices = []; collection_released = 0 })

  -- `handleImportInvoices`.
  unfoldable pub handle_import_invoices : Upload → M (Response ImportBody)
  unfolding import_rows parse_invoice_csv
  handle_import_invoices unreadable = return (refuse 400 "Failed to read request body")
  handle_import_invoices without_file =
      return (refuse 400 "Multipart upload must include a \"file\" field")
  handle_import_invoices (csv_text csv) =
      if is_blank csv
      then return (refuse 400 "CSV body is empty")
      else import_parsed (parse_invoice_csv csv)
