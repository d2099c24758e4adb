-- ===== src/Invoices/Statements.antt =====
-- The statements of packages/db/src/invoices.ts, and `releasePhaseCollectionGate` of
-- packages/db/src/billing-phases.ts.
use comission_mgmt.Prelude.{
  ℕ, Bool, true, false, ◌&&◌, Option, none, some, List, [], ◌∷◌, ◌++◌, ◌==◌, if◌then◌else◌, any,
  find, select, update_where, length, map,
}
use comission_mgmt.Prelude.Codes.{eq_codes}
use comission_mgmt.Core.Explanation.Text.{Text}
use comission_mgmt.Store.Tables.{
  Uuid, Tables, InvoiceRow, InvoiceStatus, issued, CommissionRecordRow, CommissionState, payable,
  HoldReason,
}
use comission_mgmt.Store.Monad.{
  Environment, M, statement, query, fresh_uuid, return, throw, database_error, ◌>>=◌, ◌>>◌,
}

abbrev pub or_status : Option InvoiceStatus → InvoiceStatus → InvoiceStatus
or_status none d = d
or_status (some s) d = s

abbrev pub is_paid : InvoiceStatus → Bool
is_paid InvoiceStatus.paid_invoice = true
is_paid _ = false

-- `CreateInvoiceInput`, of the handlers' use; a date is its timestamp.
pub record CreateInvoiceInput : Type 0 where
  pub org_id : Uuid
  pub placement_id : Uuid
  pub invoice_number : Text
  pub amount_billed : Text
  pub amount_collected : Option Text
  pub status : Option InvoiceStatus
  pub issued_at : Option ℕ
  pub due_at : Option ℕ

-- `UpdateInvoiceInput`: `none` is an absent key, `some none` a null.
pub record UpdateInvoiceInput : Type 0 where
  pub status : Option InvoiceStatus
  pub amount_collected : Option (Option Text)
  pub collected_at : Option (Option ℕ)
  pub due_at : Option (Option ℕ)

abbrev pub or_now : Option ℕ → ℕ → ℕ
or_now none now = now
or_now (some at) now = at

-- The value that a SET clause gives, if there is one.
abbrev pub set_or {ℓ} : {A : Type ℓ} → Option A → A → A
set_or none old = old
set_or (some new) old = new

abbrev pub is_invoice : Uuid → Uuid → InvoiceRow → Bool
is_invoice org_id id i = i.id == id && i.org_id == org_id

-- The key of the unique index.
abbrev pub is_numbered : Uuid → Text → InvoiceRow → Bool
is_numbered org_id number i = i.org_id == org_id && eq_codes i.invoice_number number

-- The clause for `collected_at`.
abbrev pub collected_clause : ℕ → Bool → Option (Option ℕ) → Option (Option ℕ)
collected_clause now true none = some (some now)
collected_clause now true (some none) = none
collected_clause now true (some (some at)) = some (some at)
collected_clause now false given = given

abbrev pub is_paid_now : Option InvoiceStatus → Bool
is_paid_now none = false
is_paid_now (some s) = is_paid s

abbrev pub is_given {ℓ} : {A : Type ℓ} → Option A → Bool
is_given none = false
is_given (some x) = true

abbrev pub update_row : ℕ → UpdateInvoiceInput → InvoiceRow → InvoiceRow
update_row now input i = record i {
  status = or_status input.status i.status;
  amount_collected = set_or input.amount_collected i.amount_collected;
  due_at = set_or input.due_at i.due_at;
  collected_at =
      set_or (collected_clause now (is_paid_now input.status) input.collected_at) i.collected_at;
}

-- `sets.length === 0`.
abbrev pub sets_nothing : UpdateInvoiceInput → Bool
sets_nothing input =
    if is_given input.status
    then false
    else if is_given input.amount_collected
    then false
    else if is_given input.due_at
    then false
    else if is_given input.collected_at
    then false
    else true

-- `hold_reason = 'collection_gate'`, and that of a billing phase.
abbrev pub is_gate : Option HoldReason → Bool
is_gate (some HoldReason.collection_gate) = true
is_gate _ = false

abbrev pub is_phase_hold : Option HoldReason → Bool
is_phase_hold (some HoldReason.held_pending_phase_invoice) = true
is_phase_hold _ = false

abbrev pub is_held : CommissionState → Bool
is_held CommissionState.held = true
is_held _ = false

abbrev pub is_gated : Uuid → Uuid → CommissionRecordRow → Bool
is_gated org_id placement_id c =
    c.org_id == org_id
    && c.placement_id == placement_id
    && is_held c.status
    && is_gate c.hold_reason

abbrev pub is_some_id : Option Uuid → Uuid → Bool
is_some_id none id = false
is_some_id (some x) id = x == id

abbrev pub is_phase_gated : Uuid → Uuid → CommissionRecordRow → Bool
is_phase_gated org_id phase_id c =
    c.org_id == org_id
    && is_some_id c.billing_phase_id phase_id
    && is_held c.status
    && is_phase_hold c.hold_reason

abbrev pub released : CommissionRecordRow → CommissionRecordRow
released c = record c { status = payable; hold_reason = none }

-- The unique index and the reference to the placement.
abbrev pub may_insert : CreateInvoiceInput → Tables → Bool
may_insert input t =
    if any (is_numbered input.org_id input.invoice_number) t.invoices
    then false
    else any (λ p. p.id == input.placement_id) t.placements

abbrev pub add_invoice : InvoiceRow → Tables → Tables
add_invoice i t = record t { invoices = t.invoices ++ (i ∷ []) }

abbrev pub or_violation : Option InvoiceRow → M InvoiceRow
or_violation none = throw database_error
or_violation (some i) = return i

abbrev pub is_one_of : List Uuid → Uuid → Bool
is_one_of ids id = any (λ x. x == id) ids

abbrev pub is_phase_member : Uuid → Uuid → List Uuid → CommissionRecordRow → Bool
is_phase_member org_id phase_id ids c =
    c.org_id == org_id && is_some_id c.billing_phase_id phase_id && is_one_of ids c.id

-- The update of the records `id IN (...)`.
abbrev pub freed_members : Uuid → Uuid → List Uuid → Tables → Tables
freed_members org_id phase_id ids t = record t {
  commission_records =
      update_where (is_phase_member org_id phase_id ids) released t.commission_records;
}

module _ (env : Environment) where
  abbrev pub new_invoice : Uuid → CreateInvoiceInput → InvoiceRow
  new_invoice id input = record {
    id = id;
    org_id = input.org_id;
    placement_id = input.placement_id;
    invoice_number = input.invoice_number;
    amount_billed = input.amount_billed;
    amount_collected = none;
    status = or_status input.status issued;
    issued_at = or_now input.issued_at env.now;
    due_at = input.due_at;
    collected_at = none;
  }

  abbrev pub insert_row : Uuid → CreateInvoiceInput → Tables → Option InvoiceRow × Tables
  insert_row id input t =
      if may_insert input t
      then (some (new_invoice id input), add_invoice (new_invoice id input) t)
      else (none, t)

  -- `createInvoice`; a violated constraint throws.
  unfoldable pub create_invoice : CreateInvoiceInput → M InvoiceRow
  unfolding statement
  create_invoice input =
      fresh_uuid env >>= λ id. statement env (insert_row id input) >>= or_violation

  -- `getInvoice`.
  unfoldable pub get_invoice : Uuid → Uuid → M (Option InvoiceRow)
  unfolding query
  get_invoice org_id id = query env (λ t. find (is_invoice org_id id) t.invoices)

  abbrev pub updated_invoices : Uuid → Uuid → UpdateInvoiceInput → Tables → Tables
  updated_invoices org_id id input t = record t {
    invoices = update_where (is_invoice org_id id) (update_row env.now input) t.invoices;
  }

  -- `updateInvoice`, with the row that `RETURNING` gives.
  unfoldable pub update_invoice : Uuid → Uuid → UpdateInvoiceInput → M (Option InvoiceRow)
  unfolding statement get_invoice
  update_invoice org_id id input =
      if sets_nothing input
      then get_invoice org_id id
      else statement env (λ t. (
        find (is_invoice org_id id) (updated_invoices org_id id input t).invoices,
        updated_invoices org_id id input t,
      ))

  -- The inserted row of an import, and the row of its number as the import updates it.
  abbrev pub imported_row : Uuid → CreateInvoiceInput → InvoiceRow
  imported_row id input = record (new_invoice id input) {
    due_at = none;
    amount_collected = input.amount_collected;
    collected_at = if is_paid (or_status input.status issued) then some env.now else none;
  }

  abbrev pub reimported : CreateInvoiceInput → InvoiceRow → InvoiceRow
  reimported input i = record i {
    status = or_status input.status issued;
    amount_billed = input.amount_billed;
    amount_collected = input.amount_collected;
    collected_at = if is_paid (or_status input.status issued) then some env.now else i.collected_at;
  }

  -- The upsert; without a row of the number, the placement has to be there.
  unfoldable pub upsert_row : Uuid → CreateInvoiceInput → Tables → Option InvoiceRow × Tables
  upsert_row id input t =
      let numbered = is_numbered input.org_id input.invoice_number in
      if any numbered t.invoices
      then (
        find numbered (update_where numbered (reimported input) t.invoices),
        record t { invoices = update_where numbered (reimported input) t.invoices },
      )
      else if any (λ p. p.id == input.placement_id) t.placements
      then (some (imported_row id input), add_invoice (imported_row id input) t)
      else (none, t)

  -- `upsertInvoiceByNumber`.
  unfoldable pub upsert_invoice_by_number : CreateInvoiceInput → M InvoiceRow
  unfolding statement upsert_row
  upsert_invoice_by_number input =
      fresh_uuid env >>= λ id. statement env (upsert_row id input) >>= or_violation

  -- `releaseCollectionGate`: how many records were released.
  unfoldable pub release_collection_gate : Uuid → Uuid → M ℕ
  unfolding statement
  release_collection_gate org_id placement_id = statement env (λ t. (
    length (select (is_gated org_id placement_id) t.commission_records),
    record t {
      commission_records =
          update_where (is_gated org_id placement_id) released t.commission_records;
    },
  ))

  -- The journal entries of the released records, a statement each.
  unfoldable pub journal_all : Uuid → Uuid → Uuid → List Uuid → M (Unit {0})
  unfolding statement
  journal_all org_id phase_id invoice_id [] = return tt
  journal_all org_id phase_id invoice_id (r ∷ rs) =
      statement env (λ t. (
        tt,
        record t {
          commission_journal =
              t.commission_journal
              ++ (record {
                org_id = org_id;
                commission_record_id = r;
                billing_phase_id = phase_id;
                trigger_invoice_id = invoice_id;
              }
                  ∷ []);
        },
      ))
      >> journal_all org_id phase_id invoice_id rs

  abbrev pub release_members : Uuid → Uuid → Uuid → List Uuid → M ℕ
  release_members org_id phase_id invoice_id [] = return 0
  release_members org_id phase_id invoice_id (r ∷ rs) =
      statement env (λ t. (tt, freed_members org_id phase_id (r ∷ rs) t))
      >> (journal_all org_id phase_id invoice_id (r ∷ rs) >> return (length (r ∷ rs)))

  -- `releasePhaseCollectionGate`: the held records, their release, and the journal.
  unfoldable pub release_phase_collection_gate : Uuid → Uuid → Uuid → M ℕ
  unfolding query statement journal_all
  release_phase_collection_gate org_id phase_id invoice_id =
      query env
        (λ t. map (λ c. c.id) (select (is_phase_gated org_id phase_id) t.commission_records))
      >>= release_members org_id phase_id invoice_id
