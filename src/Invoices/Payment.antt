-- ===== src/Invoices/Payment.antt =====
-- What an update of an invoice that is answered with status 200 did.
use Prim.Native.String.{String}
use mathlib.Core.Path.{subst}
use comission_mgmt.Prelude.{
  ℕ, ◌≡◌, ◌≢◌, refl, sym, ap, ◌∙◌, inl, inr, Bool, true, false, Option, none, some, arith, find,
  Bool-cases, Option-cases, if◌then◌else◌,
}
use comission_mgmt.Core.Explanation.Text.{Text}
use comission_mgmt.Store.Tables.{Uuid, Tables, InvoiceRow, InvoiceStatus}
use comission_mgmt.Store.Monad.{
  Environment, World, Outcome, returned, thrown, handled, M, statement, query, append_audit, return,
  ◌>>=◌, Response, reply, refuse, SessionClaims, Body, invalid_body, null_body, json_body,
}
use comission_mgmt.Store.Steps.{continue_returned}
use comission_mgmt.Store.Within.{attempt_statement, failed}
use comission_mgmt.Invoices.Statements.{
  UpdateInvoiceInput, is_invoice, is_paid_now, sets_nothing, updated_invoices, update_invoice,
  get_invoice,
}
use comission_mgmt.Invoices.Handlers.{
  UpdateInvoiceBody, may_move, is_unknown, is_bad_amount, requested_status, input_of,
  release_if_paid, updated_answer, update_of, update_after, handle_update_invoice,
}
use comission_mgmt.Invoices.Release.{IsRelease}
use comission_mgmt.Invoices.Paid.{linked_phases, release_paid-IsRelease}

-- An answer that is not the handler's own refusal is that of the body of the `try`.
handled_reply {ℓ} :
    {B : Type ℓ} (m : Outcome (Response B) × World) (message : String) (s : ℕ) (b : B) (w' : World)
    → handled m (λ x. return (refuse 500 message)) ≡ (returned (reply s b), w')
    → m ≡ (returned (reply s b), w')
handled_reply (returned r, w) message s b w' e = e
handled_reply (thrown x, w) message s b w' e = absurd (cc)

module _ (env : Environment) (claims : SessionClaims) where
  -- The tables after the statement of `updateInvoice`.
  abbrev pub updated_tables : Uuid → UpdateInvoiceInput → Tables → Tables
  updated_tables id input t =
      if sets_nothing input then t else updated_invoices env claims.org_id id input t

  update_returned :
      (id : Uuid) (input : UpdateInvoiceInput) (found : Option InvoiceRow) (w w' : World)
      → update_invoice env claims.org_id id input w ≡ (returned found, w')
      → (find (is_invoice claims.org_id id) (updated_tables id input w.tables).invoices ≡ found)
        × (w'.tables ≡ updated_tables id input w.tables)
  unfolding update_invoice query statement
  update_returned id input found w w' e = elim (Bool-cases (sets_nothing input)) [
    | inl k ↦ rw k (ground (arith, k, e))
    | inr k ↦ rw k (ground (arith, k, e))
  ]

  -- The answer names the updated row, and its tables are those that the releases left.
  answered :
      (status : Option InvoiceStatus) (found : Option InvoiceRow) (u : InvoiceRow) (count : ℕ)
      (w w' : World)
      → updated_answer env claims status found w ≡ (returned (reply 200 (u, count)), w')
      → (found ≡ some u)
        × (w'.tables ≡ (release_if_paid env claims (is_paid_now status) u w).1.tables)
  unfolding append_audit
  answered status none u count w w' e = absurd (cc)
  answered status (some i) u count w w' e =
      let (n, w1, ran, rest) =
        continue_returned (release_if_paid env claims (is_paid_now status) i w) _
          (reply 200 (u, count)) w' e in
      let same : i ≡ u = ground arith in
      let kept : w'.tables ≡ w1.tables = ground arith in
      (
        ap some same,
        kept
            ∙ ap (λ r. r.1.tables) (sym ran)
            ∙ ap (λ x. (release_if_paid env claims (is_paid_now status) x w).1.tables) same,
      )

  -- What an answer 200 means for the tables before and after.
  abbrev pub IsUpdate : Uuid → UpdateInvoiceBody → InvoiceRow → Tables → Tables → Type 0
  IsUpdate id b u t t' =
      ((i : InvoiceRow) × (find (is_invoice claims.org_id id) t.invoices ≡ some i)
        × (may_move i.status b.status ≡ true))
      × (find (is_invoice claims.org_id id) (updated_tables id (input_of b) t).invoices ≡ some u)
      × (is_paid_now (requested_status b.status) ≡ false → t' ≡ updated_tables id (input_of b) t)
      × (is_paid_now (requested_status b.status) ≡ true
          → IsRelease claims.org_id u.placement_id
              (linked_phases claims.org_id u.id (updated_tables id (input_of b) t))
              (updated_tables id (input_of b) t) t')

  -- How the request came to its answer: the invoice that it found, the row of the answer, and the
  -- world between the update and the releases.
  abbrev pub Ran : Uuid → UpdateInvoiceBody → InvoiceRow → Tables → Tables → Type 0
  Ran id b u t t' =
      ((i : InvoiceRow) × (find (is_invoice claims.org_id id) t.invoices ≡ some i)
        × (may_move i.status b.status ≡ true))
      × (find (is_invoice claims.org_id id) (updated_tables id (input_of b) t).invoices ≡ some u)
      × ((w1 : World) × (w1.tables ≡ updated_tables id (input_of b) t)
          × (t'
              ≡ (release_if_paid env claims (is_paid_now (requested_status b.status)) u
                  w1).1.tables))

  unpaid_kept :
      (paid : Bool) (u : InvoiceRow) (w1 : World)
      → paid ≡ false
      → (release_if_paid env claims paid u w1).1.tables ≡ w1.tables
  unpaid_kept true u w1 e = absurd (cc)
  unpaid_kept false u w1 e = refl

  paid-IsRelease :
      (paid : Bool) (u : InvoiceRow) (w1 : World)
      → paid ≡ true
      → IsRelease claims.org_id u.placement_id
          (linked_phases claims.org_id u.id w1.tables)
          w1.tables
          (release_if_paid env claims paid u w1).1.tables
  paid-IsRelease true u w1 e = release_paid-IsRelease env claims.org_id u w1
  paid-IsRelease false u w1 e = absurd (cc)

  Ran-IsUpdate :
      (id : Uuid) (b : UpdateInvoiceBody) (u : InvoiceRow) (t t' : Tables)
      → Ran id b u t t'
      → IsUpdate id b u t t'
  Ran-IsUpdate id b u t t' (found, row, (w1, tables, after)) = (
    found,
    row,
    λ unpaid. after ∙ unpaid_kept _ u w1 unpaid ∙ tables,
    λ paid.
        subst
          (λ t1. IsRelease claims.org_id u.placement_id (linked_phases claims.org_id u.id t1) t1 t')
          tables
          (subst
            (IsRelease claims.org_id u.placement_id (linked_phases claims.org_id u.id w1.tables)
              w1.tables)
            (sym after) (paid-IsRelease _ u w1 paid)),
  )

  module _ (is_numeric : Text → Bool) where
    -- The update that follows the checks.
    try_update : Uuid → UpdateInvoiceBody → M (Response (InvoiceRow × ℕ))
    try_update id b =
        update_invoice env claims.org_id id (input_of b)
        >>= updated_answer env claims (requested_status b.status)

    checked :
        (id : Uuid) (b : UpdateInvoiceBody) (i u : InvoiceRow) (count : ℕ) (w w' : World)
        → update_of env is_numeric id b claims (some (some i)) w
          ≡ (returned (reply 200 (u, count)), w')
        → (may_move i.status b.status ≡ true)
          × (try_update id b w ≡ (returned (reply 200 (u, count)), w'))
    unfolding try_update
    checked id b i u count w w' e = elim (Bool-cases (is_unknown b.status)) [
      | inl k ↦ absurd (ground (arith, k, e))
      | inr k ↦ elim (Bool-cases (may_move i.status b.status)) [
        | inr m ↦ absurd (ground (arith, k, m, e))
        | inl m ↦ elim (Bool-cases (is_bad_amount is_numeric b.amount_collected)) [
          | inl n ↦ absurd (ground (arith, k, m, n, e))
          | inr n ↦ (
            m,
            handled_reply (try_update id b w) "Failed to update invoice" 200 (u, count) w'
                (rw (k, m, n) at e),
          )
        ]
      ]
    ]

    updated-Ran :
        (id : Uuid) (b : UpdateInvoiceBody) (i u : InvoiceRow) (count : ℕ) (w w' : World)
        → find (is_invoice claims.org_id id) w.tables.invoices ≡ some i
        → update_of env is_numeric id b claims (some (some i)) w
          ≡ (returned (reply 200 (u, count)), w')
        → Ran id b u w.tables w'.tables
    unfolding try_update
    updated-Ran id b i u count w w' found e =
        let (moved, tried) = checked id b i u count w w' e in
        let (row, w1, ran, rest) =
          continue_returned (update_invoice env claims.org_id id (input_of b) w)
            (updated_answer env claims (requested_status b.status)) (reply 200 (u, count)) w'
            tried in
        let (first, tables) = update_returned id (input_of b) row w w1 ran in
        let (same, after) = answered (requested_status b.status) row u count w1 w' rest in
        ((i, found, moved), first ∙ same, (w1, tables, after))

    null_refused :
        (w w' : World) (u : InvoiceRow) (count : ℕ) (id : Uuid)
        → handle_update_invoice env is_numeric id null_body claims w
          ≢ (returned (reply 200 (u, count)), w')
    unfolding handle_update_invoice get_invoice query statement
    null_refused w w' u count id e = ground arith

    found_first :
        (id : Uuid) (b : UpdateInvoiceBody) (u : InvoiceRow) (count : ℕ) (w w' : World)
        → handle_update_invoice env is_numeric id (json_body b) claims w
          ≡ (returned (reply 200 (u, count)), w')
        → Ran id b u w.tables w'.tables
    unfolding handle_update_invoice get_invoice query
    found_first id b u count w w' =
        attempt_statement env (λ t. (find (is_invoice claims.org_id id) t.invoices, t))
          (λ r. r ≡ (returned (reply 200 (u, count)), w') → Ran id b u w.tables w'.tables)
          (update_after env is_numeric id (json_body b) claims) w (λ k e. absurd (cc))
          (λ k. elim (Option-cases (find (is_invoice claims.org_id id) w.tables.invoices)) [
            | inl missing ↦ λ e. absurd (ground (arith, missing, e))
            | inr (i, found) ↦ λ e. updated-Ran id b i u count (failed w) w' found (rw found at e)
          ])

    pub handle_update_invoice-Ran :
        (id : Uuid) (body : Body UpdateInvoiceBody) (u : InvoiceRow) (count : ℕ) (w w' : World)
        → handle_update_invoice env is_numeric id body claims w
          ≡ (returned (reply 200 (u, count)), w')
        → (b : UpdateInvoiceBody) × (body ≡ json_body b) × Ran id b u w.tables w'.tables
    unfolding handle_update_invoice get_invoice query
    handle_update_invoice-Ran id invalid_body u count w w' e = absurd (cc)
    handle_update_invoice-Ran id null_body u count w w' e = absurd (null_refused w w' u count id e)
    handle_update_invoice-Ran id (json_body b) u count w w' e =
        (b, refl, found_first id b u count w w' e)

    -- An update of an invoice that is answered with status 200 found the invoice in the
    -- organisation and moved its status along the table of transitions, or left it; the answer is
    -- the updated row. Without a payment nothing else changes. With one, if the commission records
    -- have distinct identifiers, nothing else changes but the commission journal and records that
    -- waited, at the gate of the invoice's placement or in a phase of the invoice, and such a
    -- record can only become payable.
    pub handle_update_invoice_ok :
        (id : Uuid) (body : Body UpdateInvoiceBody) (u : InvoiceRow) (count : ℕ) (w w' : World)
        → handle_update_invoice env is_numeric id body claims w
          ≡ (returned (reply 200 (u, count)), w')
        → (b : UpdateInvoiceBody) × (body ≡ json_body b) × IsUpdate id b u w.tables w'.tables
    handle_update_invoice_ok id body u count w w' e =
        let (b, same, ran) = handle_update_invoice-Ran id body u count w w' e in
        (b, same, Ran-IsUpdate id b u w.tables w'.tables ran)
