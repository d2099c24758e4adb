-- ===== src/Invoices/Handlers.antt =====
-- `handleCreateInvoice` and `handleUpdateInvoice` of apps/server/src/api/invoices.ts. The list of
-- the fields that an answer 422 adds to its message is left out, as is the logging.
use comission_mgmt.Prelude.{
  ℕ, ◌+◌, Bool, true, false, not, ◌&&◌, Option, none, some, List, [], ◌∷◌, ◌==◌, if◌then◌else◌,
  select, map, any,
}
use comission_mgmt.Prelude.Codes.{is_blank}
use comission_mgmt.Core.Explanation.Text.{Text}
use comission_mgmt.Store.Tables.{
  Uuid, InvoiceRow, InvoiceStatus, issued, partially_paid, paid_invoice, disputed, written_off,
  credit_memo_applied, PlacementRow, AuditAction, invoice_created, invoice_written_off,
  invoice_paid, invoice_status_changed, invoice_updated,
}
use comission_mgmt.Store.Monad.{
  Environment, M, type_error, query, append_audit, return, throw, catch, attempt, ◌>>=◌, ◌>>◌,
  Response, reply, refuse, SessionClaims, Body, invalid_body, null_body, json_body,
}
use comission_mgmt.Clawback.Statements.{get_placement}
use comission_mgmt.Invoices.Statements.{
  CreateInvoiceInput, UpdateInvoiceInput, is_some_id, is_paid_now, create_invoice, get_invoice,
  update_invoice, release_collection_gate, release_phase_collection_gate,
}

-- `CreateInvoiceBody`; an absent key, a null and an empty text are `none`, a date is its timestamp.
pub record CreateInvoiceBody : Type 0 where
  pub placement_id : Option Uuid
  pub invoice_number : Option Text
  pub amount_billed : Option Text
  pub issued_at : Option ℕ
  pub due_at : Option ℕ

-- The `status` of an update: absent, a state, or anything else.
pub data StatusField : Type 0 where
  absent unknown_status : StatusField
  state : InvoiceStatus → StatusField

-- `UpdateInvoiceBody`: `none` is an absent key, `some none` a null.
pub record UpdateInvoiceBody : Type 0 where
  pub status : StatusField
  pub amount_collected : Option (Option Text)
  pub due_at : Option (Option ℕ)

-- The position in `INVOICE_STATES`, to compare states by.
abbrev pub status_code : InvoiceStatus → ℕ
status_code issued = 0
status_code partially_paid = 1
status_code paid_invoice = 2
status_code disputed = 3
status_code written_off = 4
status_code credit_memo_applied = 5

abbrev pub same_status : InvoiceStatus → InvoiceStatus → Bool
same_status s t = status_code s == status_code t

-- `VALID_TRANSITIONS`.
abbrev pub valid_transitions : InvoiceStatus → List InvoiceStatus
valid_transitions issued =
    partially_paid ∷ paid_invoice ∷ disputed ∷ written_off ∷ credit_memo_applied ∷ []
valid_transitions partially_paid = paid_invoice ∷ disputed ∷ written_off ∷ credit_memo_applied ∷ []
valid_transitions paid_invoice = []
valid_transitions disputed = issued ∷ written_off ∷ []
valid_transitions written_off = []
valid_transitions credit_memo_applied = []

-- The status is left, kept, or moved along the table.
abbrev pub may_move : InvoiceStatus → StatusField → Bool
may_move old absent = true
may_move old unknown_status = false
may_move old (state new) =
    if same_status new old then true else any (same_status new) (valid_transitions old)

abbrev pub is_unknown : StatusField → Bool
is_unknown unknown_status = true
is_unknown _ = false

abbrev pub requested_status : StatusField → Option InvoiceStatus
requested_status (state s) = some s
requested_status _ = none

abbrev pub audit_action : Option InvoiceStatus → AuditAction
audit_action none = invoice_updated
audit_action (some InvoiceStatus.written_off) = invoice_written_off
audit_action (some InvoiceStatus.paid_invoice) = invoice_paid
audit_action (some s) = invoice_status_changed

abbrev pub or_zero : Option ℕ → ℕ
or_zero none = 0
or_zero (some n) = n

abbrev pub input_of : UpdateInvoiceBody → UpdateInvoiceInput
input_of b = record {
  status = requested_status b.status;
  amount_collected = b.amount_collected;
  collected_at = none;
  due_at = b.due_at;
}

-- `isNaN(Number(amount))` of an amount that is given and not null.
abbrev pub is_bad_amount : (Text → Bool) → Option (Option Text) → Bool
is_bad_amount is_numeric (some (some t)) = not (is_numeric t)
is_bad_amount is_numeric _ = false

-- What follows the release of a phase.
abbrev pub add_released : (ℕ → M ℕ) → ℕ → Option ℕ → M ℕ
add_released rest count none = return count
add_released rest count (some n) = rest (count + n)

module _ (env : Environment) where
  -- `writeInvoiceAuditLog`: a failure is logged and passed over.
  abbrev pub write_invoice_audit_log : SessionClaims → AuditAction → Uuid → M (Unit {0})
  write_invoice_audit_log claims action id =
      attempt (
        append_audit env (record {
          org_id = claims.org_id;
          actor_id = claims.user_id;
          action = action;
          entity_id = id;
        }))
      >>= λ done. return tt

  abbrev pub created_answer : SessionClaims → InvoiceRow → M (Response InvoiceRow)
  created_answer claims i =
      write_invoice_audit_log claims invoice_created i.id >> return (reply 201 i)

  abbrev pub create_checked : SessionClaims → CreateInvoiceInput → M (Response InvoiceRow)
  create_checked claims input =
      catch (create_invoice env input >>= created_answer claims)
        (λ x. return (refuse 500 "Failed to create invoice"))

  abbrev pub create_for :
      SessionClaims → CreateInvoiceInput → Option (Option PlacementRow) → M (Response InvoiceRow)
  create_for claims input none = return (refuse 500 "Failed to verify placement")
  create_for claims input (some none) = return (refuse 404 "Placement not found")
  create_for claims input (some (some p)) =
      if p.org_id == claims.org_id
      then create_checked claims input
      else return (refuse 404 "Placement not found")

  -- The loop over the phases of a paid invoice, with the count so far; an error ends it.
  unfoldable pub release_phases : Uuid → Uuid → List Uuid → ℕ → M ℕ
  unfolding release_phase_collection_gate
  release_phases org_id invoice_id [] count = return count
  release_phases org_id invoice_id (phase ∷ phases) count =
      attempt (release_phase_collection_gate env org_id phase invoice_id)
      >>= add_released (release_phases org_id invoice_id phases) count

  abbrev pub release_found_phases : Uuid → Uuid → ℕ → Option (List Uuid) → M ℕ
  release_found_phases org_id invoice_id count none = return count
  release_found_phases org_id invoice_id count (some phases) =
      release_phases org_id invoice_id phases count

  abbrev pub phases_of : Uuid → Uuid → M (List Uuid)
  phases_of org_id invoice_id = query env (λ t.
      map (λ p. p.id)
        (select (λ p. p.org_id == org_id && is_some_id p.invoice_id invoice_id) t.billing_phases))

  -- The releases that follow a payment, each of whose errors is passed over.
  unfoldable pub release_paid : Uuid → InvoiceRow → M ℕ
  unfolding release_collection_gate query release_phases
  release_paid org_id i =
      attempt (release_collection_gate env org_id i.placement_id) >>= λ released.
      attempt (phases_of org_id i.id) >>= release_found_phases org_id i.id (or_zero released)

  abbrev pub release_if_paid : SessionClaims → Bool → InvoiceRow → M ℕ
  release_if_paid claims false i = return 0
  release_if_paid claims true i = release_paid claims.org_id i

  abbrev pub updated_answer :
      SessionClaims → Option InvoiceStatus → Option InvoiceRow → M (Response (InvoiceRow × ℕ))
  updated_answer claims status none = return (refuse 404 "Invoice not found")
  updated_answer claims status (some i) = release_if_paid claims (is_paid_now status) i >>= λ count.
      write_invoice_audit_log claims (audit_action status) i.id >> return (reply 200 (i, count))

module _ (env : Environment) (is_numeric : Text → Bool) where
  -- The three required fields, as the checks leave them.
  abbrev pub create_with :
      SessionClaims
      → CreateInvoiceBody
      → Option Uuid
      → Option Text
      → Option Text
      → M (Response InvoiceRow)
  create_with claims b (some placement_id) (some number) (some amount) =
      if is_blank number
      then return (refuse 422 "Validation failed")
      else if not (is_numeric amount)
      then return (refuse 422 "Validation failed")
      else attempt (get_placement env placement_id)
        >>= create_for env claims (record {
          org_id = claims.org_id;
          placement_id = placement_id;
          invoice_number = number;
          amount_billed = amount;
          amount_collected = none;
          status = some issued;
          issued_at = b.issued_at;
          due_at = b.due_at;
        })
  create_with claims b _ _ _ = return (refuse 422 "Validation failed")

  -- `handleCreateInvoice`.
  unfoldable pub handle_create_invoice :
      Body CreateInvoiceBody → SessionClaims → M (Response InvoiceRow)
  unfolding get_placement create_invoice append_audit
  handle_create_invoice invalid_body claims = return (refuse 400 "Invalid JSON body")
  handle_create_invoice null_body claims = throw type_error
  handle_create_invoice (json_body b) claims =
      create_with claims b b.placement_id b.invoice_number b.amount_billed

  abbrev pub update_of :
      Uuid
      → UpdateInvoiceBody
      → SessionClaims
      → Option (Option InvoiceRow)
      → M (Response (InvoiceRow × ℕ))
  update_of id b claims none = return (refuse 500 "Failed to retrieve invoice")
  update_of id b claims (some none) = return (refuse 404 "Invoice not found")
  update_of id b claims (some (some i)) =
      if is_unknown b.status
      then return (refuse 422 "Invalid status")
      else if not (may_move i.status b.status)
      then return (refuse 422 "Invalid status transition")
      else if is_bad_amount is_numeric b.amount_collected
      then return (refuse 422 "Validation failed")
      else catch
          (update_invoice env claims.org_id id (input_of b)
            >>= updated_answer env claims (requested_status b.status))
          (λ x. return (refuse 500 "Failed to update invoice"))

  abbrev pub update_after :
      Uuid
      → Body UpdateInvoiceBody
      → SessionClaims
      → Option (Option InvoiceRow)
      → M (Response (InvoiceRow × ℕ))
  update_after id (json_body b) claims found = update_of id b claims found
  update_after id _ claims none = return (refuse 500 "Failed to retrieve invoice")
  update_after id _ claims (some none) = return (refuse 404 "Invoice not found")
  update_after id _ claims (some (some i)) = throw type_error

  -- `handleUpdateInvoice`: a body `null` is read only after the invoice was found.
  unfoldable pub handle_update_invoice :
      Uuid → Body UpdateInvoiceBody → SessionClaims → M (Response (InvoiceRow × ℕ))
  unfolding get_invoice update_invoice release_paid append_audit
  handle_update_invoice id invalid_body claims = return (refuse 400 "Invalid JSON body")
  handle_update_invoice id body claims =
      attempt (get_invoice env claims.org_id id) >>= update_after id body claims
