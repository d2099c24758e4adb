-- ===== src/Exceptions/Approval.antt =====
-- What an approval that is answered with status 200 did.
use mathlib.Core.Path.{subst}
use comission_mgmt.Prelude.{
  suc, ◌≡◌, refl, sym, ◌⊎◌, inl, inr, Bool, true, false, Option, none, some, arith, find,
  Bool-cases, Option-cases,
}
use comission_mgmt.Core.Explanation.Text.{Text}
use comission_mgmt.Store.Tables.{Uuid, Tables, ExceptionRow, CommissionRecordRow}
use comission_mgmt.Store.Monad.{
  Environment, World, returned, statement, query, append_audit, reply, SessionClaims,
}
use comission_mgmt.Store.Steps.{continue_returned}
use comission_mgmt.Store.Within.{attempt_statement, failed}
use comission_mgmt.Exceptions.Statements.{
  is_exception, is_open_exception, is_record, decide, approved_row, approve_exception,
  adjusted_records, adjust_net_payable, get_exception,
}
use comission_mgmt.Exceptions.Handlers.{
  is_finance_admin, is_decided, adjust_if, approved_answer, if_undecided, approve_after,
  handle_approve_exception,
}

module _ (env : Environment) (sum : Text → Text → Text) (claims : SessionClaims) where
  -- The ledger is left, or the record of the exception has the sum of its net payable and the
  -- impact as its net payable.
  abbrev pub IsAdjusted : Option Text → Option Uuid → Bool → Tables → Tables → Type 0
  IsAdjusted impact record_id adjusted t t' =
      ((adjusted ≡ false) × (t' ≡ t))
      ⊎ ((adjusted ≡ true)
          × ((amount : Text) × (id : Uuid) × (c : CommissionRecordRow) × (impact ≡ some amount)
              × (record_id ≡ some id)
              × (find (is_record claims.org_id id) t.commission_records ≡ some c)
              × (t' ≡ adjusted_records env sum claims.org_id id (sum c.net_payable amount) t)))

  given-IsAdjusted :
      (impact : Text) (id : Uuid) (adjusted : Bool) (w w' : World)
      → adjust_if env sum claims (some impact) (some id) w ≡ (returned adjusted, w')
      → IsAdjusted (some impact) (some id) adjusted w.tables w'.tables
  unfolding adjust_net_payable query statement
  given-IsAdjusted impact id adjusted w w' e = elim (Bool-cases (env.fails w.statements)) [
    | inl k ↦ inl (ground (arith, k, e), ground (arith, k, e))
    | inr k ↦ elim (Option-cases (find (is_record claims.org_id id) w.tables.commission_records)) [
      | inl missing ↦ inl (ground (arith, k, missing, e), ground (arith, k, missing, e))
      | inr (c, found) ↦ elim (Bool-cases (env.fails (suc w.statements))) [
        | inl j ↦ inl (ground (arith, k, found, j, e), ground (arith, k, found, j, e))
        | inr j ↦ inr (
          ground (arith, k, found, j, e),
          (impact, id, c, refl, refl, found, ground (arith, k, found, j, e)),
        )
      ]
    ]
  ]

  adjust_if-IsAdjusted :
      (impact : Option Text) (record_id : Option Uuid) (adjusted : Bool) (w w' : World)
      → adjust_if env sum claims impact record_id w ≡ (returned adjusted, w')
      → IsAdjusted impact record_id adjusted w.tables w'.tables
  adjust_if-IsAdjusted (some impact) (some id) adjusted w w' e =
      given-IsAdjusted impact id adjusted w w' e
  adjust_if-IsAdjusted none record_id adjusted w w' e = inl (ground arith, ground arith)
  adjust_if-IsAdjusted (some impact) none adjusted w w' e = inl (ground arith, ground arith)

  answered_IsAdjusted :
      (i e : ExceptionRow) (adjusted : Bool) (w w' : World)
      → approved_answer env sum claims (some (some i)) w ≡ (returned (reply 200 (e, adjusted)), w')
      → (i ≡ e) × IsAdjusted i.impact_amount i.commission_record_id adjusted w.tables w'.tables
  unfolding append_audit
  answered_IsAdjusted i e adjusted w w' ran =
      let (b, w1, first, rest) =
        continue_returned (adjust_if env sum claims i.impact_amount i.commission_record_id w) _
          (reply 200 (e, adjusted)) w' ran in
      let same : i ≡ e = ground arith in
      let flag : b ≡ adjusted = ground arith in
      let kept : w1.tables ≡ w'.tables = ground arith in
      (
        same,
        subst (λ x. IsAdjusted i.impact_amount i.commission_record_id x w.tables w'.tables) flag
            (subst (IsAdjusted i.impact_amount i.commission_record_id b w.tables) kept
              (adjust_if-IsAdjusted i.impact_amount i.commission_record_id b w w1 first)),
      )

  -- The tables after the update of the exception.
  abbrev pub approved_tables : Uuid → Tables → Tables
  approved_tables id t = (decide env claims.org_id id (approved_row env claims.user_id) t).1

  -- The exception as the update found it, and the ledger after the update.
  abbrev pub IsApproval : Uuid → ExceptionRow → Bool → Tables → Tables → Type 0
  IsApproval id e adjusted t t' =
      ((i : ExceptionRow) × (find (is_open_exception claims.org_id id) t.exceptions ≡ some i)
        × (e ≡ approved_row env claims.user_id i))
      × IsAdjusted e.impact_amount e.commission_record_id adjusted (approved_tables id t) t'

  update-IsApproval :
      (others : Tables → Tables) (id : Uuid) (e : ExceptionRow) (adjusted : Bool) (w w' : World)
      → approve_after env sum claims others id w ≡ (returned (reply 200 (e, adjusted)), w')
      → IsApproval id e adjusted (others w.tables) w'.tables
  unfolding approve_exception
  update-IsApproval others id e adjusted w w' =
      attempt_statement env (decide env claims.org_id id (approved_row env claims.user_id))
        (λ r.
          r ≡ (returned (reply 200 (e, adjusted)), w')
          → IsApproval id e adjusted (others w.tables) w'.tables)
        (approved_answer env sum claims) (record w { tables = others w.tables })
        (λ k ran. absurd (cc))
        (λ k.
          elim (Option-cases
            (find (is_open_exception claims.org_id id) (others w.tables).exceptions)) [
              | inl missing ↦ λ ran. absurd (ground (arith, missing, ran))
              | inr (i, found) ↦ λ ran.
                  let (same, adjust) =
                    answered_IsAdjusted (approved_row env claims.user_id i) e adjusted _ w'
                      (rw found at ran) in
                  (
                    (i, found, sym same),
                    subst
                        (λ x.
                          IsAdjusted x.impact_amount x.commission_record_id adjusted
                            (approved_tables id (others w.tables)) w'.tables)
                        same adjust,
                  )
            ])

  -- An approval that is answered with status 200 was asked for by a finance admin, and found the
  -- exception undecided, before and at its update, between which others may have written. The
  -- answer is the approved row. No other table is written but that of the commission records: if
  -- the exception names an impact and a record, and the answer says that the ledger is adjusted,
  -- the record's net payable is the sum; otherwise the ledger is as it was.
  pub handle_approve_exception_ok :
      (others : Tables → Tables) (id : Uuid) (e : ExceptionRow) (adjusted : Bool) (w w' : World)
      → handle_approve_exception env sum claims others id w
        ≡ (returned (reply 200 (e, adjusted)), w')
      → (is_finance_admin claims.role ≡ true)
        × ((i : ExceptionRow) × (find (is_exception claims.org_id id) w.tables.exceptions ≡ some i)
            × (is_decided i.status ≡ false))
        × IsApproval id e adjusted (others w.tables) w'.tables
  unfolding handle_approve_exception get_exception query
  handle_approve_exception_ok others id e adjusted w w' =
      elim (Bool-cases (is_finance_admin claims.role)) [
        | inr k ↦ rw k (λ ran. absurd (cc))
        | inl k ↦ rw k (
            attempt_statement env (λ t. (find (is_exception claims.org_id id) t.exceptions, t))
              (λ r.
                r ≡ (returned (reply 200 (e, adjusted)), w')
                → (true ≡ true)
                  × ((i : ExceptionRow) × (find (is_exception claims.org_id id) w.tables.exceptions
                        ≡ some i)
                      × (is_decided i.status ≡ false))
                  × IsApproval id e adjusted (others w.tables) w'.tables)
              (if_undecided env (approve_after env sum claims others id)) w (λ m ran. absurd (cc))
              (λ m. elim (Option-cases (find (is_exception claims.org_id id) w.tables.exceptions)) [
                | inl missing ↦ λ ran. absurd (ground (arith, missing, ran))
                | inr (i, found) ↦ elim (Bool-cases (is_decided i.status)) [
                  | inl d ↦ λ ran. absurd (ground (arith, found, d, ran))
                  | inr d ↦ λ ran. (
                    refl,
                    (i, found, d),
                    update-IsApproval others id e adjusted (failed w) w' (rw (found, d) at ran),
                  )
                ]
              ]))
      ]
