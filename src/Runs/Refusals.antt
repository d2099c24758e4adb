-- ===== src/Runs/Refusals.antt =====
-- Answers that write nothing, and the approval that a failed statement leaves half done.
use comission_mgmt.Prelude.{
  suc, ◌≡◌, refl, true, false, some, List, [], ◌∷◌, arith, find, update_where,
}
use comission_mgmt.Store.Tables.{Uuid, CommissionRunRow}
use comission_mgmt.Store.Monad.{
  Environment, World, returned, statement, query, refuse, SessionClaims,
}
use comission_mgmt.Runs.Statements.{
  get_commission_run, is_approved_run, is_run, mark_run, is_open_run, is_open, approve_row,
}
use comission_mgmt.Runs.Handlers.{
  handle_approve_commission_run, handle_finalize_commission_run, handle_approve_run_record,
  FinalizeBody, null_json, no_reason, reason, invalid_json,
}
use comission_mgmt.Runs.Approval.{AllApproved}

module _ (env : Environment) (run_id : Uuid) (claims : SessionClaims) (w : World) where
  -- The open run that the update selects is the run that the handler found.
  find-open_run :
      (rows : List CommissionRunRow) (run : CommissionRunRow)
      → find (is_run run_id claims.org_id) rows ≡ some run
      → is_open run.status ≡ true
      → find (is_open_run env run_id claims.org_id) rows ≡ some run
  find-open_run [] run e o = cc
  find-open_run (r ∷ rs) run e o = ground (arith, find-open_run rs run)

  frozen_approval :
      (run : CommissionRunRow)
      → find (is_run run_id claims.org_id) w.tables.commission_runs ≡ some run
      → is_approved_run run.status ≡ true
      → (handle_approve_commission_run env run_id claims w).1.tables ≡ w.tables
  unfolding handle_approve_commission_run query statement
  frozen_approval run e a = ground arith

  frozen_record :
      (record_id : Uuid) (run : CommissionRunRow)
      → find (is_run run_id claims.org_id) w.tables.commission_runs ≡ some run
      → is_approved_run run.status ≡ true
      → (handle_approve_run_record env run_id record_id claims w).1.tables ≡ w.tables
  unfolding handle_approve_run_record query statement
  frozen_record record_id run e a = ground arith

  frozen_finalization :
      (body : FinalizeBody) (run : CommissionRunRow)
      → find (is_run run_id claims.org_id) w.tables.commission_runs ≡ some run
      → is_approved_run run.status ≡ true
      → (handle_finalize_commission_run env run_id body claims w).1.tables ≡ w.tables
  unfolding handle_finalize_commission_run get_commission_run query statement
  frozen_finalization invalid_json run e a = refl
  frozen_finalization null_json run e a = ground arith
  frozen_finalization no_reason run e a = ground arith
  frozen_finalization (reason t) run e a = ground arith

  -- No approval of a run that is already approved changes a table, whatever the handler answers and
  -- whichever statements fail.
  pub approved_run_frozen :
      (record_id : Uuid) (body : FinalizeBody) (run : CommissionRunRow)
      → find (is_run run_id claims.org_id) w.tables.commission_runs ≡ some run
      → is_approved_run run.status ≡ true
      → ((handle_approve_run_record env run_id record_id claims w).1.tables ≡ w.tables)
        × ((handle_approve_commission_run env run_id claims w).1.tables ≡ w.tables)
        × ((handle_finalize_commission_run env run_id body claims w).1.tables ≡ w.tables)
  approved_run_frozen record_id body run e a =
      (frozen_record record_id run e a, frozen_approval run e a, frozen_finalization body run e a)

  -- If the statement that approves the records fails, the run is approved all the same: the answer
  -- is 500, the records keep their states, and the run is no longer open.
  pub half_approved :
      (run : CommissionRunRow)
      → find (is_run run_id claims.org_id) w.tables.commission_runs ≡ some run
      → is_open run.status ≡ true
      → AllApproved env run_id claims.org_id w.tables
      → env.fails w.statements ≡ false
      → env.fails (suc w.statements) ≡ false
      → env.fails (suc (suc w.statements)) ≡ false
      → env.fails (suc (suc (suc w.statements))) ≡ true
      → let (outcome, w') = handle_approve_commission_run env run_id claims w in
        (outcome ≡ returned (refuse 500 "Failed to approve commission run"))
        × (w'.tables.commission_records ≡ w.tables.commission_records)
        × (w'.tables.commission_runs
            ≡ update_where
                (is_open_run env run_id claims.org_id)
                (approve_row env claims.user_id)
                w.tables.commission_runs)
  unfolding handle_approve_commission_run query statement mark_run
  half_approved run e o all f0 f1 f2 f3 =
      ground (arith, find-open_run w.tables.commission_runs run e o)
