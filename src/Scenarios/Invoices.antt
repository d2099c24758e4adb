-- ===== src/Scenarios/Invoices.antt =====
-- An update of an invoice, a small invoice file, and a list of numbered invoices.
use comission_mgmt.Prelude.{◌≡◌, refl, true, some, List, [], ◌∷◌, arith, map}
use comission_mgmt.Core.Explanation.Text.{Text, codes}
use comission_mgmt.Store.Tables.{Uuid}
use comission_mgmt.Store.Monad.{Body, json_body}
use comission_mgmt.Invoices.Handlers.{
  CreateInvoiceBody, UpdateInvoiceBody, handle_create_invoice, handle_update_invoice,
}
use comission_mgmt.Invoices.Payment.{IsUpdate, handle_update_invoice_ok}
use comission_mgmt.Invoices.Csv.{assign, parsed, parse_invoice_csv}
use comission_mgmt.Invoices.RoundTrip.{write_csv, parse_invoice_csv-write_csv}
use comission_mgmt.Invoices.Import.{Upload, handle_import_invoices}
use comission_mgmt.Invoices.Numbers.{NoTwins}
use comission_mgmt.Invoices.Uniqueness.{requests-NoTwins}
use comission_mgmt.Scenarios.Database.{sound, admin}
use comission_mgmt.Scenarios.Calculations.{calculation, payment, paid, placed_world}

handle_update_invoice_ok_example :
    (b : UpdateInvoiceBody) × (json_body payment ≡ json_body b)
    × IsUpdate sound admin 92 b paid.0 calculation.1.tables paid.2.tables
handle_update_invoice_ok_example =
    handle_update_invoice_ok sound admin (λ t. true) 92 (json_body payment) paid.0 paid.1
      calculation.1 paid.2 paid.3

-- A file of two invoices.
abbrev more_headers : List Text
more_headers = codes "amount_billed" ∷ codes "status" ∷ []

abbrev file_headers : List Text
file_headers = codes "invoice_number" ∷ codes "placement_id" ∷ more_headers

abbrev file_rows : List (List Text)
file_rows =
    (codes "A-1" ∷ codes "31" ∷ codes "100.50" ∷ codes "Issued" ∷ [])
    ∷ (codes "A-2" ∷ codes "31" ∷ codes "" ∷ codes "Paid" ∷ [])
    ∷ []

parse_invoice_csv-write_csv_example :
    parse_invoice_csv (write_csv file_headers file_rows)
    ≡ parsed (map (assign file_headers) file_rows)
parse_invoice_csv-write_csv_example =
    parse_invoice_csv-write_csv (codes "invoice_number") (codes "placement_id") more_headers
      file_rows (ground arith) refl (ground arith)

requests-NoTwins_example :
    ((body : Body CreateInvoiceBody)
      → NoTwins (handle_create_invoice sound (λ t. true) body admin placed_world).1.tables.invoices)
    × ((id : Uuid) (body : Body UpdateInvoiceBody)
        → NoTwins
            (handle_update_invoice sound (λ t. true) id body admin placed_world).1.tables.invoices)
    × ((u : Upload)
        → NoTwins
            (handle_import_invoices sound (λ t. some 31) admin u placed_world).1.tables.invoices)
requests-NoTwins_example =
    requests-NoTwins sound (λ t. true) (λ t. some 31) admin placed_world ((refl, tt), (tt, tt))
