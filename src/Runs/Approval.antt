-- ===== src/Runs/Approval.antt =====
-- What the two approvals of a run check before they write, and what they leave.
use comission_mgmt.Prelude.{
  ◌≡◌, refl, ◌⊎◌, inl, inr, Bool, true, false, ◌&&◌, ◌==◌, some, [], arith, any, find, Option-cases,
  Zip, Zip-update_where_if,
}
use comission_mgmt.Store.Tables.{
  Uuid, Tables, CommissionRunRow, RunStatus, CommissionRecordRow, CommissionState, approved_run,
  approved,
}
use comission_mgmt.Store.Monad.{
  Environment, World, returned, statement, query, reply, SessionClaims,
}
use comission_mgmt.Runs.Statements.{
  is_open_run, run_records, approves, approve_row, approve_record, mark_run, mark_records,
}
use comission_mgmt.Runs.Handlers.{RunBody, unapproved, handle_approve_commission_run}

abbrev is_awaiting : CommissionState → Bool
is_awaiting CommissionState.accrued = true
is_awaiting CommissionState.pending_approval = true
is_awaiting _ = false

abbrev is_running : RunStatus → Bool
is_running RunStatus.open_run = true
is_running _ = false

module _ (env : Environment) where
  -- The run's records in the organisation all have their individual approval.
  abbrev pub AllApproved : Uuid → Uuid → Tables → Type 0
  AllApproved run_id org_id t = unapproved (run_records org_id run_id t) ≡ []

  -- The tables after both statements of the approval.
  abbrev pub approved_tables : Uuid → SessionClaims → Tables → Tables
  approved_tables run_id claims t =
      mark_records env claims.org_id run_id claims.user_id
        (mark_run env claims.org_id run_id claims.user_id t).1

  -- Some run was open, and both statements were done.
  abbrev pub IsMarked : Uuid → SessionClaims → Tables → Tables → Type 0
  IsMarked run_id claims t t' =
      ((r : CommissionRunRow) × (find (is_open_run env run_id claims.org_id) t.commission_runs
          ≡ some r))
      × (t' ≡ approved_tables run_id claims t)

  -- The open run of the organisation that is approved.
  abbrev pub is_target : Uuid → Uuid → CommissionRunRow → Bool
  is_target run_id org_id r = r.id == run_id && r.org_id == org_id && is_running r.status

  -- A record of the organisation that is linked to the run, and is accrued or pending approval.
  abbrev pub is_due : Uuid → Uuid → Tables → CommissionRecordRow → Bool
  is_due run_id org_id t c =
      any (λ l. l.run_id == run_id && l.commission_record_id == c.id) t.commission_run_records
      && c.org_id == org_id
      && is_awaiting c.status

  abbrev pub IsRunApproval : Uuid → SessionClaims → CommissionRunRow → CommissionRunRow → Type 0
  IsRunApproval run_id claims x y =
      ((is_target run_id claims.org_id x ≡ false) × (y ≡ x))
      ⊎ ((is_target run_id claims.org_id x ≡ true)
          × (y ≡ record x {
            status = approved_run;
            approved_by = some claims.user_id;
            approved_at = some env.now;
          }))

  abbrev pub IsRecordApproval :
      Uuid → SessionClaims → Tables → CommissionRecordRow → CommissionRecordRow → Type 0
  IsRecordApproval run_id claims t x y =
      ((is_due run_id claims.org_id t x ≡ false) × (y ≡ x))
      ⊎ ((is_due run_id claims.org_id t x ≡ true)
          × (y ≡ record x {
            status = approved;
            approval_actor = some claims.user_id;
            approval_at = some env.now;
          }))

  -- The run was open and is approved by the user; each record of it in the organisation that was
  -- accrued or pending approval is approved too; every other row, and every other table, is as it
  -- was.
  abbrev pub IsApproved : Uuid → SessionClaims → Tables → Tables → Type 0
  IsApproved run_id claims t t' =
      ((r : CommissionRunRow) × (find (is_target run_id claims.org_id) t.commission_runs ≡ some r))
      × Zip (IsRunApproval run_id claims) t.commission_runs t'.commission_runs
      × Zip (IsRecordApproval run_id claims t) t.commission_records t'.commission_records
      × (t' ≡ record t {
        commission_runs = t'.commission_runs;
        commission_records = t'.commission_records;
      })

  pub IsMarked-IsApproved :
      (run_id : Uuid) (claims : SessionClaims) (t t' : Tables)
      → IsMarked run_id claims t t'
      → IsApproved run_id claims t t'
  unfolding mark_run mark_records
  IsMarked-IsApproved run_id claims t t' ((r, found), tables) = rw tables (
    (r, found),
    Zip-update_where_if (IsRunApproval run_id claims) (is_open_run env run_id claims.org_id)
        (approve_row env claims.user_id) (λ x k. inr (ground (arith, k), refl))
        (λ x k. inl (ground (arith, k), refl)) t.commission_runs,
    Zip-update_where_if (IsRecordApproval run_id claims t) (approves env run_id claims.org_id t)
        (approve_record env claims.user_id) (λ x k. inr (ground (arith, k), refl))
        (λ x k. inl (ground (arith, k), refl)) t.commission_records,
    refl,
  )

  approve_run_tables :
      (run_id : Uuid) (claims : SessionClaims) (w w' : World) (body : RunBody)
      → handle_approve_commission_run env run_id claims w ≡ (returned (reply 200 body), w')
      → AllApproved run_id claims.org_id w.tables
        × (w'.tables ≡ approved_tables run_id claims w.tables)
  unfolding handle_approve_commission_run query statement
  approve_run_tables run_id claims w w' body e = ground arith

  handle_approve-IsMarked :
      (run_id : Uuid) (claims : SessionClaims) (w w' : World) (body : RunBody)
      → handle_approve_commission_run env run_id claims w ≡ (returned (reply 200 body), w')
      → AllApproved run_id claims.org_id w.tables × IsMarked run_id claims w.tables w'.tables
  unfolding handle_approve_commission_run query statement mark_run
  handle_approve-IsMarked run_id claims w w' body e =
      let (all, tables) = approve_run_tables run_id claims w w' body e in
      elim (Option-cases (find (is_open_run env run_id claims.org_id) w.tables.commission_runs)) [
        | inl missing ↦ absurd (ground arith)
        | inr open_one ↦ (all, (open_one, tables))
      ]

  -- A run that is approved with status 200 was open and had all its records individually approved.
  -- It is approved by the user, together with every record of it in the organisation that was
  -- accrued or pending approval; every other row and every other table stays as it was.
  pub handle_approve_commission_run_ok :
      (run_id : Uuid) (claims : SessionClaims) (w w' : World) (body : RunBody)
      → handle_approve_commission_run env run_id claims w ≡ (returned (reply 200 body), w')
      → AllApproved run_id claims.org_id w.tables × IsApproved run_id claims w.tables w'.tables
  handle_approve_commission_run_ok run_id claims w w' body e =
      let (all, marked) = handle_approve-IsMarked run_id claims w w' body e in
      (all, IsMarked-IsApproved run_id claims w.tables w'.tables marked)
