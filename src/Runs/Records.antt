-- ===== src/Runs/Records.antt =====
-- The individual approval of a record of a run.
use comission_mgmt.Prelude.{
  ◌≡◌, refl, ◌⊎◌, inl, inr, Bool, true, false, ◌&&◌, ◌==◌, some, arith, Zip, Zip-update_where_if,
  update_where, find, Option-cases, Bool-cases, List, [], ◌∷◌,
}
use comission_mgmt.Store.Tables.{
  Uuid, Tables, CommissionRunRow, CommissionRunRecordRow, CommissionRecordRow, pending_approval,
}
use comission_mgmt.Store.Monad.{
  Environment, World, returned, statement, query, reply, SessionClaims,
}
use comission_mgmt.Runs.Statements.{
  is_run, is_approved_run, is_linked, is_accrued, approve_link, submit_record,
}
use comission_mgmt.Runs.Handlers.{handle_approve_run_record}

find-true : {A : Type 0} (p : A → Bool) (xs : List A) (x : A) → find p xs ≡ some x → p x ≡ true
find-true p [] x e = absurd (cc)
find-true p (y ∷ ys) x e = elim (Bool-cases (p y)) [
  | inl k ↦ ground (arith, k, e)
  | inr k ↦ find-true p ys x (rw k at e)
]

module _ (env : Environment) (run_id record_id : Uuid) (claims : SessionClaims) where
  -- The run of the request is there and not approved.
  abbrev pub IsOpenFor : Tables → Type 0
  IsOpenFor t =
      (run : CommissionRunRow) × (find (is_run run_id claims.org_id) t.commission_runs ≡ some run)
      × (is_approved_run run.status ≡ false)

  -- The link of the record to the run is approved by the user, every other link stays.
  abbrev pub IsLinkApproval : CommissionRunRecordRow → CommissionRunRecordRow → Type 0
  IsLinkApproval x y =
      ((is_linked run_id record_id claims.org_id x ≡ false) × (y ≡ x))
      ⊎ ((is_linked run_id record_id claims.org_id x ≡ true)
          × (y ≡ record x {
            individually_approved = true;
            individually_approved_by = some claims.user_id;
            individually_approved_at = some env.now;
          }))

  abbrev is_submitted : CommissionRecordRow → Bool
  is_submitted c = c.id == record_id && c.org_id == claims.org_id && is_accrued c.status

  -- The record, if it was accrued, waits for the approval of the run, every other record stays.
  abbrev pub IsSubmission : CommissionRecordRow → CommissionRecordRow → Type 0
  IsSubmission x y =
      ((is_submitted x ≡ false) × (y ≡ x))
      ⊎ ((is_submitted x ≡ true)
          × (y ≡ record x {
            status = pending_approval;
            approval_actor = some claims.user_id;
            approval_at = some env.now;
          }))

  -- The answered row is a link of the record to the run, and stands in the table.
  abbrev pub IsAnsweredLink : CommissionRunRecordRow → Tables → Type 0
  IsAnsweredLink row t =
      (find (is_linked run_id record_id claims.org_id) t.commission_run_records ≡ some row)
      × (row.run_id == run_id
            && row.commission_record_id == record_id
            && row.org_id == claims.org_id
          ≡ true)

  abbrev submitted_tables : Tables → Tables
  submitted_tables t = record t {
    commission_run_records =
        update_where (is_linked run_id record_id claims.org_id) (approve_link env claims.user_id)
          t.commission_run_records;
    commission_records =
        update_where is_submitted (submit_record env claims.user_id) t.commission_records;
  }

  approve_record_tables :
      (w w' : World) (row : CommissionRunRecordRow)
      → handle_approve_run_record env run_id record_id claims w ≡ (returned (reply 200 row), w')
      → IsOpenFor w.tables
        × (find
              (is_linked run_id record_id claims.org_id)
              (submitted_tables w.tables).commission_run_records
            ≡ some row)
        × (w'.tables ≡ submitted_tables w.tables)
  unfolding handle_approve_run_record query statement
  approve_record_tables w w' row e =
      elim (Option-cases (find (is_run run_id claims.org_id) w.tables.commission_runs)) [
        | inl missing ↦ absurd (ground arith)
        | inr (run, found) ↦ ((run, found, ground arith), ground arith, ground arith)
      ]

  -- A record that is approved with status 200 belongs to the run, which was not yet approved: the
  -- answer is its link to the run. Its links to the run carry the approval, the record waits for the
  -- approval of the run if it was accrued, and every other link and record, and every other table,
  -- stays as it was.
  pub handle_approve_run_record_ok :
      (w w' : World) (row : CommissionRunRecordRow)
      → handle_approve_run_record env run_id record_id claims w ≡ (returned (reply 200 row), w')
      → IsOpenFor w.tables
        × IsAnsweredLink row w'.tables
        × Zip IsLinkApproval w.tables.commission_run_records w'.tables.commission_run_records
        × Zip IsSubmission w.tables.commission_records w'.tables.commission_records
        × (w'.tables ≡ record w.tables {
          commission_run_records = w'.tables.commission_run_records;
          commission_records = w'.tables.commission_records;
        })
  handle_approve_run_record_ok w w' row e =
      let (opened, linked, tables) = approve_record_tables w w' row e in
      (
        opened,
        (
          rw tables linked,
          find-true (is_linked run_id record_id claims.org_id)
              (submitted_tables w.tables).commission_run_records row linked,
        ),
        rw tables (
            Zip-update_where_if IsLinkApproval (is_linked run_id record_id claims.org_id)
              (approve_link env claims.user_id) (λ x k. inr (k, refl)) (λ x k. inl (k, refl))
              w.tables.commission_run_records),
        rw tables (
            Zip-update_where_if IsSubmission is_submitted (submit_record env claims.user_id)
              (λ x k. inr (k, refl)) (λ x k. inl (k, refl)) w.tables.commission_records),
        rw tables refl,
      )
