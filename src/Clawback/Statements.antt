-- ===== src/Clawback/Statements.antt =====
-- The statements of packages/db/src/clawback.ts that the trigger runs, and `getPlacement`.
use comission_mgmt.Prelude.{
  ℕ, ◌+◌, ◌*◌, ◌/◌, Bool, true, false, ◌&&◌, Option, none, some, List, [], ◌∷◌, ◌++◌, ◌==◌, ltb,
  if◌then◌else◌, any, find, select, update_where, length, sort_by,
}
use comission_mgmt.Core.Lifecycle.States.{triggered}
use comission_mgmt.Store.Tables.{
  Uuid, Tables, PlacementRow, GuaranteePeriodRow, CommissionRecordRow, CommissionState,
  ClawbackEventRow, ClawbackEventType, ClawbackRule, AdjustmentRow, RecoveryScheduleRow,
  clawback_initiated, clawback_hold, clawback_triggered,
}
use comission_mgmt.Store.Monad.{Environment, M, statement, query, fresh_uuid, return, ◌>>=◌}
use comission_mgmt.Guarantee.Statements.{is_active_period}

-- `CreateClawbackEventInput`.
pub record CreateClawbackEventInput : Type 0 where
  pub org_id : Uuid
  pub placement_id : Uuid
  pub guarantee_period_id : Uuid
  pub event_type : ClawbackEventType
  pub rule : ClawbackRule
  pub occurred_at : ℕ
  pub triggered_by : Uuid

-- `status IN ('Held', 'Payable', 'Accrued', 'PendingApproval')`.
abbrev pub is_claimable : CommissionState → Bool
is_claimable CommissionState.held = true
is_claimable CommissionState.payable = true
is_claimable CommissionState.accrued = true
is_claimable CommissionState.pending_approval = true
is_claimable _ = false

abbrev pub is_record_of : Uuid → Uuid → CommissionRecordRow → Bool
is_record_of org_id placement_id c = c.org_id == org_id && c.placement_id == placement_id

-- The records that a clawback holds.
abbrev pub is_claimed : Uuid → Uuid → CommissionRecordRow → Bool
is_claimed org_id placement_id c = is_record_of org_id placement_id c && is_claimable c.status

abbrev pub claim_row : CommissionRecordRow → CommissionRecordRow
claim_row c = record c { status = clawback_initiated; hold_reason = some clawback_hold }

abbrev pub claimed_records : Uuid → Uuid → Tables → Tables
claimed_records org_id placement_id t = record t {
  commission_records = update_where (is_claimed org_id placement_id) claim_row t.commission_records;
}

-- `getClawbackStatusForPlacement` reads the event that was created last.
abbrev pub later : Option ClawbackEventRow → ClawbackEventRow → ClawbackEventRow
later none e = e
later (some d) e = if ltb d.created_at e.created_at then e else d

unfoldable pub latest : Option ClawbackEventRow → List ClawbackEventRow → Option ClawbackEventRow
latest best [] = best
latest best (e ∷ es) = latest (some (later best e)) es

-- `ClawbackStatus`.
pub record ClawbackStatus : Type 0 where
  pub clawback_event : Option ClawbackEventRow
  pub adjustments : List AdjustmentRow
  pub recovery_schedules : List RecoveryScheduleRow

-- `(clawbackAmount / installmentCount).toFixed(2)` in cents; a half is rounded up.
abbrev pub installment_of : ℕ → ℕ → ℕ
installment_of amount count = (200 * amount + count) / (2 * count)

module _ (env : Environment) where
  -- `getPlacement`, with the columns that the trigger reads.
  unfoldable pub get_placement : Uuid → M (Option PlacementRow)
  unfolding query
  get_placement id = query env (λ t. find (λ p. p.id == id) t.placements)

  abbrev pub new_event : Uuid → CreateClawbackEventInput → ClawbackEventRow
  new_event id input = record {
    id = id;
    org_id = input.org_id;
    placement_id = input.placement_id;
    guarantee_period_id = input.guarantee_period_id;
    event_type = input.event_type;
    rule = input.rule;
    occurred_at = input.occurred_at;
    triggered_by = input.triggered_by;
    created_at = env.now;
  }

  -- `createClawbackEvent`.
  unfoldable pub create_clawback_event : CreateClawbackEventInput → M ClawbackEventRow
  unfolding statement
  create_clawback_event input = do
    id ← fresh_uuid env
    statement env (λ t. (
      new_event id input,
      record t { clawback_events = t.clawback_events ++ (new_event id input ∷ []) },
    ))

  abbrev pub trigger_row : ℕ → GuaranteePeriodRow → GuaranteePeriodRow
  trigger_row at p = record p {
    status = triggered;
    triggered_at = some at;
    resolved_at = some at;
    resolution = some clawback_triggered;
  }

  abbrev pub triggered_periods : Uuid → ℕ → Tables → Tables
  triggered_periods id at t = record t {
    guarantee_periods = update_where (is_active_period env id) (trigger_row at) t.guarantee_periods;
  }

  -- `triggerGuaranteePeriod`: whether a row was updated.
  unfoldable pub trigger_guarantee_period : Uuid → ℕ → M Bool
  unfolding statement
  trigger_guarantee_period id at =
      statement env
        (λ t. (any (is_active_period env id) t.guarantee_periods, triggered_periods id at t))

  -- `holdCommissionRecordsForClawback`: the number of rows.
  unfoldable pub hold_commission_records_for_clawback : Uuid → Uuid → M ℕ
  unfolding statement
  hold_commission_records_for_clawback org_id placement_id = statement env (λ t. (
    length (select (is_claimed org_id placement_id) t.commission_records),
    claimed_records org_id placement_id t,
  ))

  -- `listCommissionRecordIdsForPlacement`.
  unfoldable pub list_commission_records_for_placement : Uuid → Uuid → M (List CommissionRecordRow)
  unfolding query
  list_commission_records_for_placement org_id placement_id = query env (λ t.
      sort_by (λ c. c.created_at) (select (is_record_of org_id placement_id) t.commission_records))

  abbrev pub new_adjustment : Uuid → Uuid → Uuid → Uuid → ClawbackRule → Uuid → AdjustmentRow
  new_adjustment id org_id record_id event_id rule actor = record {
    id = id;
    org_id = org_id;
    commission_record_id = record_id;
    clawback_event_id = some event_id;
    deducted = 1;
    reason_code = rule;
    adjusted_by = actor;
    adjusted_at = env.now;
    recovered = false;
  }

  -- `createCommissionRecordAdjustment`, at the amount -1 that the trigger passes.
  unfoldable pub create_commission_record_adjustment :
      Uuid → Uuid → Uuid → ClawbackRule → Uuid → M AdjustmentRow
  unfolding statement
  create_commission_record_adjustment org_id record_id event_id rule actor = do
    id ← fresh_uuid env
    let row = new_adjustment id org_id record_id event_id rule actor
    statement env (λ t. (row, record t { adjustments = t.adjustments ++ (row ∷ []) }))

  abbrev pub new_schedule : Uuid → Uuid → Uuid → Uuid → ℕ → RecoveryScheduleRow
  new_schedule id org_id event_id record_id count = record {
    id = id;
    org_id = org_id;
    clawback_event_id = event_id;
    commission_record_id = record_id;
    clawback_amount = 1;
    installment_count = count;
    installment_cents = installment_of 1 count;
    created_at = env.now;
  }

  -- `createClawbackRecoverySchedule`, at the amount 1 that the trigger passes.
  unfoldable pub create_clawback_recovery_schedule : Uuid → Uuid → Uuid → ℕ → M RecoveryScheduleRow
  unfolding statement
  create_clawback_recovery_schedule org_id event_id record_id count = do
    id ← fresh_uuid env
    let row = new_schedule id org_id event_id record_id count
    statement env (λ t. (row, record t { recovery_schedules = t.recovery_schedules ++ (row ∷ []) }))

  abbrev pub status_of_event : Option ClawbackEventRow → M ClawbackStatus
  status_of_event none =
      return (record { clawback_event = none; adjustments = []; recovery_schedules = [] })
  status_of_event (some e) = do
    adjustments ← query env (λ t.
        sort_by (λ (a : AdjustmentRow). a.adjusted_at)
          (select (λ a. elim a.clawback_event_id [ none ↦ false | some i ↦ i == e.id ])
            t.adjustments))
    schedules ← query env (λ t.
        sort_by (λ (s : RecoveryScheduleRow). s.created_at)
          (select (λ s. s.clawback_event_id == e.id) t.recovery_schedules))
    return (record {
      clawback_event = some e;
      adjustments = adjustments;
      recovery_schedules = schedules;
    })

  -- `getClawbackStatusForPlacement`.
  unfoldable pub get_clawback_status_for_placement : Uuid → Uuid → M ClawbackStatus
  unfolding query latest
  get_clawback_status_for_placement org_id placement_id =
      query env (λ t.
        latest none
          (select (λ e. e.org_id == org_id && e.placement_id == placement_id) t.clawback_events))
      >>= status_of_event
