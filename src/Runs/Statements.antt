-- ===== src/Runs/Statements.antt =====
-- The statements of packages/db/src/commission-runs.ts.
use comission_mgmt.Prelude.{
  ℕ, Bool, true, false, ◌&&◌, Option, none, some, List, [], ◌∷◌, ◌++◌, ◌==◌, if◌then◌else◌, any,
  find, select, update_where, length, not, sort_by,
}
use comission_mgmt.Store.Tables.{
  Uuid, Tables, CommissionRunRow, CommissionRunRecordRow, CommissionRecordRow, CommissionState,
  RunStatus, open_run, approved_run, pending_approval, approved,
}
use comission_mgmt.Store.Monad.{Environment, M, statement, query, fresh_uuid, return, ◌>>=◌, ◌>>◌}

abbrev pub is_open : RunStatus → Bool
is_open RunStatus.open_run = true
is_open _ = false

abbrev pub is_approved_run : RunStatus → Bool
is_approved_run RunStatus.approved_run = true
is_approved_run _ = false

abbrev pub is_accrued : CommissionState → Bool
is_accrued CommissionState.accrued = true
is_accrued _ = false

-- `status IN ('Accrued', 'PendingApproval')`.
abbrev pub is_approvable : CommissionState → Bool
is_approvable CommissionState.accrued = true
is_approvable CommissionState.pending_approval = true
is_approvable _ = false

-- `CreateCommissionRunInput`.
pub record CreateCommissionRunInput : Type 0 where
  pub org_id : Uuid
  pub period_start : ℕ
  pub period_end : ℕ
  pub created_by : Uuid
  pub commission_record_ids : List Uuid

abbrev pub is_run : Uuid → Uuid → CommissionRunRow → Bool
is_run run_id org_id r = r.id == run_id && r.org_id == org_id

-- The row of a run record inside of the run and the organisation.
abbrev pub is_run_record : Uuid → Uuid → CommissionRunRecordRow → Bool
is_run_record run_id org_id r = r.run_id == run_id && r.org_id == org_id

-- `ORDER BY id`.
abbrev pub run_records : Uuid → Uuid → Tables → List CommissionRunRecordRow
run_records org_id run_id t =
    sort_by (λ r. r.id) (select (is_run_record run_id org_id) t.commission_run_records)

-- The same for one commission record.
abbrev pub is_linked : Uuid → Uuid → Uuid → CommissionRunRecordRow → Bool
is_linked run_id record_id org_id r =
    r.run_id == run_id && r.commission_record_id == record_id && r.org_id == org_id

module _ (env : Environment) where
  abbrev pub new_run : Uuid → CreateCommissionRunInput → CommissionRunRow
  new_run id input = record {
    id = id;
    org_id = input.org_id;
    period_start = input.period_start;
    period_end = input.period_end;
    status = open_run;
    created_by = input.created_by;
    approved_by = none;
    approved_at = none;
    created_at = env.now;
  }

  abbrev pub new_run_record : Uuid → Uuid → Uuid → Uuid → CommissionRunRecordRow
  new_run_record id org_id run_id record_id = record {
    id = id;
    org_id = org_id;
    run_id = run_id;
    commission_record_id = record_id;
    individually_approved = false;
    individually_approved_by = none;
    individually_approved_at = none;
  }

  -- `INSERT INTO commission_run_records ... ON CONFLICT (run_id, commission_record_id) DO NOTHING`.
  abbrev pub link : Uuid → Uuid → Uuid → Uuid → Tables → Tables
  link id org_id run_id record_id t =
      let rows = t.commission_run_records in
      if any (λ r. r.run_id == run_id && r.commission_record_id == record_id) rows
      then t
      else (record t {
        commission_run_records = rows ++ (new_run_record id org_id run_id record_id ∷ []);
      })

  unfoldable pub link_all : Uuid → Uuid → List Uuid → M (Unit {0})
  unfolding statement
  link_all org_id run_id [] = return tt
  link_all org_id run_id (r ∷ rs) = do
    id ← fresh_uuid env
    statement env (λ t. (tt, link id org_id run_id r t))
    link_all org_id run_id rs

  -- `createCommissionRun`: one statement for the run and one for each record, in no transaction.
  unfoldable pub create_commission_run : CreateCommissionRunInput → M CommissionRunRow
  unfolding statement link_all
  create_commission_run input = do
    id ← fresh_uuid env
    statement env
        (λ t. (tt, record t { commission_runs = t.commission_runs ++ (new_run id input ∷ []) }))
    link_all input.org_id id input.commission_record_ids
    return (new_run id input)

  -- `getCommissionRun`.
  unfoldable pub get_commission_run : Uuid → Uuid → M (Option CommissionRunRow)
  unfolding query
  get_commission_run org_id run_id = query env (λ t. find (is_run run_id org_id) t.commission_runs)

  -- `getCommissionRunRecords`.
  unfoldable pub get_commission_run_records : Uuid → Uuid → M (List CommissionRunRecordRow)
  unfolding query
  get_commission_run_records org_id run_id = query env (run_records org_id run_id)

  abbrev pub approve_link : Uuid → CommissionRunRecordRow → CommissionRunRecordRow
  approve_link actor r = record r {
    individually_approved = true;
    individually_approved_by = some actor;
    individually_approved_at = some env.now;
  }

  -- The record of an accrued commission after its individual approval.
  abbrev pub submit_record : Uuid → CommissionRecordRow → CommissionRecordRow
  submit_record actor r = record r {
    status = pending_approval;
    approval_actor = some actor;
    approval_at = some env.now;
  }

  -- `approveRunRecord`: two statements, in no transaction.
  unfoldable pub approve_run_record : Uuid → Uuid → Uuid → Uuid → M (Option CommissionRunRecordRow)
  unfolding statement
  approve_run_record org_id run_id record_id actor = do
    row ← statement env (λ t. (
      find (is_linked run_id record_id org_id) (
          update_where (is_linked run_id record_id org_id) (approve_link actor)
            t.commission_run_records),
      record t {
        commission_run_records =
            update_where (is_linked run_id record_id org_id) (approve_link actor)
              t.commission_run_records;
      },
    ))
    elim row [
      | none ↦ return none
      | some r ↦
          statement env (λ t. (
            tt,
            record t {
              commission_records =
                  update_where (λ c. c.id == record_id && c.org_id == org_id && is_accrued c.status)
                    (submit_record actor) t.commission_records;
            },
          ))
          >> return (some r)
    ]

  abbrev pub approve_row : Uuid → CommissionRunRow → CommissionRunRow
  approve_row actor r = record r {
    status = approved_run;
    approved_by = some actor;
    approved_at = some env.now;
  }

  abbrev pub approve_record : Uuid → CommissionRecordRow → CommissionRecordRow
  approve_record actor r = record r {
    status = approved;
    approval_actor = some actor;
    approval_at = some env.now;
  }

  abbrev pub is_open_run : Uuid → Uuid → CommissionRunRow → Bool
  is_open_run run_id org_id r = is_run run_id org_id r && is_open r.status

  abbrev pub approves : Uuid → Uuid → Tables → CommissionRecordRow → Bool
  approves run_id org_id t c =
      any (λ l. l.run_id == run_id && l.commission_record_id == c.id) t.commission_run_records
      && c.org_id == org_id
      && is_approvable c.status

  -- The first statement of `approveCommissionRun`, with `RETURNING` the row it approved.
  unfoldable pub mark_run : Uuid → Uuid → Uuid → Tables → Option CommissionRunRow × Tables
  mark_run org_id run_id actor t =
      let open_one = find (is_open_run run_id org_id) t.commission_runs in
      (
        elim open_one [ none ↦ none | some r ↦ some (approve_row actor r) ],
        record t {
          commission_runs =
              update_where (is_open_run run_id org_id) (approve_row actor) t.commission_runs;
        },
      )

  -- The second one.
  unfoldable pub mark_records : Uuid → Uuid → Uuid → Tables → Tables
  mark_records org_id run_id actor t = record t {
    commission_records =
        update_where (approves run_id org_id t) (approve_record actor) t.commission_records;
  }

  -- `approveCommissionRun`: two statements, in no transaction.
  unfoldable pub approve_commission_run : Uuid → Uuid → Uuid → M (Option CommissionRunRow)
  unfolding statement mark_run mark_records
  approve_commission_run org_id run_id actor = do
    row ← statement env (mark_run org_id run_id actor)
    elim row [
      | none ↦ return none
      | some r ↦ statement env (λ t. (tt, mark_records org_id run_id actor t)) >> return (some r)
    ]

  -- `isCommissionRecordInApprovedRun`.
  unfoldable pub is_commission_record_in_approved_run : Uuid → Uuid → M Bool
  unfolding query
  is_commission_record_in_approved_run org_id record_id = query env (λ t.
      any
        (λ l.
          l.commission_record_id == record_id
          && l.org_id == org_id
          && any (λ r. r.id == l.run_id && is_approved_run r.status) t.commission_runs)
        t.commission_run_records)

  -- `countUnacknowledgedDiscrepancies` of packages/db/src/reconciliation.ts.
  unfoldable pub count_unacknowledged_discrepancies : Uuid → ℕ → ℕ → M ℕ
  unfolding query
  count_unacknowledged_discrepancies org_id period_start period_end = query env (λ t. length (
      select
        (λ d.
          d.org_id == org_id
          && d.period_start == period_start
          && d.period_end == period_end
          && not d.acknowledged)
        t.discrepancies))
