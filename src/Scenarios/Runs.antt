-- ===== src/Scenarios/Runs.antt =====
-- The approvals of a run on the small database.
use comission_mgmt.Prelude.{◌≡◌, refl, [], ◌∷◌, ◌==◌, update_where, Zip}
use comission_mgmt.Store.Monad.{Environment, World, returned, reply, refuse, statement, query}
use comission_mgmt.Runs.Statements.{
  mark_run, mark_records, is_open_run, approve_row, get_commission_run, get_commission_run_records,
  approve_commission_run, count_unacknowledged_discrepancies,
}
use comission_mgmt.Runs.Handlers.{
  RunBody, no_reason, handle_approve_run_record, handle_approve_commission_run,
  handle_finalize_commission_run,
}
use comission_mgmt.Runs.Records.{
  IsOpenFor, IsAnsweredLink, IsLinkApproval, IsSubmission, handle_approve_run_record_ok,
}
use comission_mgmt.Runs.Approval.{AllApproved, IsApproved, handle_approve_commission_run_ok}
use comission_mgmt.Runs.Finalization.{IsGated, handle_finalize_commission_run_ok}
use comission_mgmt.Runs.Refusals.{approved_run_frozen, half_approved}
use comission_mgmt.Scenarios.Database.{failing, sound, admin, open_one, approved_one, tables, world}
use comission_mgmt.Store.Tables.{CommissionRunRecordRow}

-- The approval of the open run succeeds.
unfoldable approval :
    (body : RunBody) × (w' : World) × (handle_approve_commission_run sound 10 admin world
      ≡ (returned (reply 200 body), w'))
unfolding handle_approve_commission_run query statement mark_run mark_records
approval = (_, _, refl)

unfoldable finalization :
    (body : RunBody) × (w' : World) × (handle_finalize_commission_run sound 10 no_reason admin world
      ≡ (returned (reply 200 body), w'))
unfolding handle_finalize_commission_run query statement get_commission_run
    get_commission_run_records approve_commission_run count_unacknowledged_discrepancies mark_run
    mark_records
finalization = (_, _, refl)

handle_approve_commission_run_ok_example :
    AllApproved sound 10 1 tables × IsApproved sound 10 admin tables approval.1.tables
handle_approve_commission_run_ok_example =
    handle_approve_commission_run_ok sound 10 admin world approval.1 approval.0 approval.2

handle_finalize_commission_run_ok_example :
    IsGated sound 10 1 no_reason tables
    × AllApproved sound 10 1 tables
    × IsApproved sound 10 admin tables finalization.1.tables
handle_finalize_commission_run_ok_example =
    handle_finalize_commission_run_ok sound 10 admin no_reason world finalization.1 finalization.0
      finalization.2

approved_run_frozen_example :
    ((handle_approve_run_record sound 11 40 admin world).1.tables ≡ tables)
    × ((handle_approve_commission_run sound 11 admin world).1.tables ≡ tables)
    × ((handle_finalize_commission_run sound 11 no_reason admin world).1.tables ≡ tables)
approved_run_frozen_example =
    approved_run_frozen sound 11 admin world 40 no_reason approved_one refl refl

-- The fourth statement of the request fails.
abbrev fourth_fails : Environment
fourth_fails = failing (λ n. n == 3)

half_approved_example :
    let (outcome, w') = handle_approve_commission_run fourth_fails 10 admin world in
    (outcome ≡ returned (refuse 500 "Failed to approve commission run"))
    × (w'.tables.commission_records ≡ tables.commission_records)
    × (w'.tables.commission_runs
        ≡ update_where
            (is_open_run fourth_fails 10 1)
            (approve_row fourth_fails 5)
            (open_one ∷ approved_one ∷ []))
half_approved_example =
    half_approved fourth_fails 10 admin world open_one refl refl refl refl refl refl refl

-- The record 40 is approved once more in the open run.
unfoldable record_approval :
    (row : CommissionRunRecordRow) × (w' : World) × (handle_approve_run_record sound 10 40 admin
        world
      ≡ (returned (reply 200 row), w'))
unfolding handle_approve_run_record query statement
record_approval = (_, _, refl)

handle_approve_run_record_ok_example :
    IsOpenFor sound 10 40 admin tables
    × IsAnsweredLink sound 10 40 admin record_approval.0 record_approval.1.tables
    × Zip
        (IsLinkApproval sound 10 40 admin)
        tables.commission_run_records
        record_approval.1.tables.commission_run_records
    × Zip
        (IsSubmission sound 10 40 admin)
        tables.commission_records
        record_approval.1.tables.commission_records
    × (record_approval.1.tables ≡ record tables {
      commission_run_records = record_approval.1.tables.commission_run_records;
      commission_records = record_approval.1.tables.commission_records;
    })
handle_approve_run_record_ok_example =
    handle_approve_run_record_ok sound 10 40 admin world record_approval.1 record_approval.0
      record_approval.2
