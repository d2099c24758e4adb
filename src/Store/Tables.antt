-- ===== src/Store/Tables.antt =====
-- The rows of packages/db/schema.sql, with the columns that the modelled statements read or write.
-- An identifier stands for a UUID, a date for its day number, a timestamp for its milliseconds.
use comission_mgmt.Prelude.{ℕ, Bool, Option, List}
use comission_mgmt.Core.Lifecycle.States.{PlacementState, GuaranteeState}
use comission_mgmt.Core.Explanation.Text.{Text}

abbrev pub Uuid : Type 0
Uuid = ℕ

-- `commission_state`.
pub data CommissionState : Type 0 where
  accrued pending_approval approved held payable paid clawback_initiated recovered : CommissionState

-- The texts that the code writes to `hold_reason`, and any other.
pub data HoldReason : Type 0 where
  collection_gate guarantee_hold clawback_hold held_pending_phase_invoice : HoldReason
  other_reason : ℕ → HoldReason

-- An encrypted amount stands as its plain text, a decimal number as the text that the driver gives.
pub record PlacementRow : Type 0 where
  pub id : Uuid
  pub org_id : Uuid
  pub compensation_base : Text
  pub fee_amount : Text
  pub status : PlacementState
  pub updated_at : ℕ

pub record CommissionRecordRow : Type 0 where
  pub id : Uuid
  pub org_id : Uuid
  pub placement_id : Uuid
  pub contributor_id : Uuid
  pub plan_version_id : Uuid
  pub gross_amount : Text
  pub net_payable : Text
  pub explanation : Option Text
  pub billing_phase_id : Option Uuid
  pub status : CommissionState
  pub hold_reason : Option HoldReason
  pub approval_actor : Option Uuid
  pub approval_at : Option ℕ
  pub created_at : ℕ

-- `CommissionRunStatus`, the run states of the database layer.
pub data RunStatus : Type 0 where
  open_run approved_run cancelled_run : RunStatus

-- `CommissionRunRow`.
pub record CommissionRunRow : Type 0 where
  pub id : Uuid
  pub org_id : Uuid
  pub period_start : ℕ
  pub period_end : ℕ
  pub status : RunStatus
  pub created_by : Uuid
  pub approved_by : Option Uuid
  pub approved_at : Option ℕ
  pub created_at : ℕ

-- `CommissionRunRecordRow`.
pub record CommissionRunRecordRow : Type 0 where
  pub id : Uuid
  pub org_id : Uuid
  pub run_id : Uuid
  pub commission_record_id : Uuid
  pub individually_approved : Bool
  pub individually_approved_by : Option Uuid
  pub individually_approved_at : Option ℕ

-- The texts that the code writes to `resolution`.
pub data Resolution : Type 0 where
  clawback_triggered clean_expiry : Resolution

-- `GuaranteePeriodRow`.
pub record GuaranteePeriodRow : Type 0 where
  pub id : Uuid
  pub org_id : Uuid
  pub placement_id : Uuid
  pub guarantee_ends : ℕ
  pub status : GuaranteeState
  pub triggered_at : Option ℕ
  pub resolved_at : Option ℕ
  pub resolution : Option Resolution
  pub expired_at : Option ℕ

-- `ClawbackEventType` and `ClawbackRule` of packages/core/clawback-ledger.ts.
pub data ClawbackEventType : Type 0 where
  candidate_departure refund : ClawbackEventType

pub data ClawbackRule : Type 0 where
  clawback holdback refund_credit replacement_search : ClawbackRule

-- `ClawbackEventRow`.
pub record ClawbackEventRow : Type 0 where
  pub id : Uuid
  pub org_id : Uuid
  pub placement_id : Uuid
  pub guarantee_period_id : Uuid
  pub event_type : ClawbackEventType
  pub rule : ClawbackRule
  pub occurred_at : ℕ
  pub triggered_by : Uuid
  pub created_at : ℕ

-- `CommissionRecordAdjustmentRow`; `deducted` is the negated `amount_delta`, in whole dollars.
pub record AdjustmentRow : Type 0 where
  pub id : Uuid
  pub org_id : Uuid
  pub commission_record_id : Uuid
  pub clawback_event_id : Option Uuid
  pub deducted : ℕ
  pub reason_code : ClawbackRule
  pub adjusted_by : Uuid
  pub adjusted_at : ℕ
  pub recovered : Bool

-- `ClawbackRecoveryScheduleRow`; the instalment is in cents.
pub record RecoveryScheduleRow : Type 0 where
  pub id : Uuid
  pub org_id : Uuid
  pub clawback_event_id : Uuid
  pub commission_record_id : Uuid
  pub clawback_amount : ℕ
  pub installment_count : ℕ
  pub installment_cents : ℕ
  pub created_at : ℕ

pub data AuditAction : Type 0 where
  finalization_override guarantee_expired_clean clawback_triggered_action : AuditAction
  ledger_adjustment_posted invoice_created invoice_written_off invoice_paid : AuditAction
  invoice_status_changed invoice_updated invoice_imported exception_requested : AuditAction
  exception_approved exception_rejected dispute_submitted dispute_resolved : AuditAction
  dispute_list plan_version_acknowledged : AuditAction

-- A row of `audit_log_entries`, which stands in a database of its own.
pub record AuditRow : Type 0 where
  pub org_id : Uuid
  pub actor_id : Uuid
  pub action : AuditAction
  pub entity_id : Uuid

-- A row of `reconciliation_discrepancies`.
pub record DiscrepancyRow : Type 0 where
  pub org_id : Uuid
  pub period_start : ℕ
  pub period_end : ℕ
  pub acknowledged : Bool

-- `InvoiceStatus`.
pub data InvoiceStatus : Type 0 where
  issued partially_paid paid_invoice disputed written_off credit_memo_applied : InvoiceStatus

-- `InvoiceRow`.
pub record InvoiceRow : Type 0 where
  pub id : Uuid
  pub org_id : Uuid
  pub placement_id : Uuid
  pub invoice_number : Text
  pub amount_billed : Text
  pub amount_collected : Option Text
  pub status : InvoiceStatus
  pub issued_at : ℕ
  pub due_at : Option ℕ
  pub collected_at : Option ℕ

-- A row of `billing_phases`, with the invoice linked to the phase.
pub record BillingPhaseRow : Type 0 where
  pub id : Uuid
  pub org_id : Uuid
  pub placement_id : Uuid
  pub invoice_id : Option Uuid

-- A row of `commission_journal`, whose states and reason are constants of its one writer.
pub record JournalRow : Type 0 where
  pub org_id : Uuid
  pub commission_record_id : Uuid
  pub billing_phase_id : Uuid
  pub trigger_invoice_id : Uuid

-- `ExceptionState`.
pub data ExceptionState : Type 0 where
  requested under_review_exception approved_exception rejected : ExceptionState

-- `ExceptionType`.
pub data ExceptionType : Type 0 where
  custom_split fee_discount accelerated_payout manual_override draw_forgiveness : ExceptionType
  clawback_waiver special_partner_agreement post_termination_payout : ExceptionType

-- `ExceptionRow`.
pub record ExceptionRow : Type 0 where
  pub id : Uuid
  pub org_id : Uuid
  pub placement_id : Uuid
  pub commission_record_id : Option Uuid
  pub requested_by : Uuid
  pub exception_type : ExceptionType
  pub justification : Text
  pub impact_amount : Option Text
  pub status : ExceptionState
  pub reviewed_by : Option Uuid
  pub reviewed_at : Option ℕ
  pub rejection_reason : Option Text
  pub attachment_url : Option Text
  pub created_at : ℕ

-- `DisputeState`.
pub data DisputeState : Type 0 where
  submitted under_review resolved : DisputeState

-- `DisputeRow`.
pub record DisputeRow : Type 0 where
  pub id : Uuid
  pub org_id : Uuid
  pub commission_record_id : Uuid
  pub submitted_by : Uuid
  pub description : Text
  pub state : DisputeState
  pub resolved_by : Option Uuid
  pub resolved_at : Option ℕ
  pub resolution_note : Option Text
  pub exception_id : Option Uuid
  pub created_at : ℕ

-- A row of `contributors`.
pub record ContributorRow : Type 0 where
  pub id : Uuid
  pub org_id : Uuid
  pub placement_id : Uuid
  pub producer_id : Uuid
  pub split_pct : Text
  pub created_at : ℕ

-- `PlanVersionState`.
pub data PlanVersionState : Type 0 where
  draft_version active_version superseded : PlanVersionState

-- A row of `commission_plans`, without the drawn `config_entity_id`.
pub record PlanRow : Type 0 where
  pub id : Uuid
  pub org_id : Uuid
  pub name : Text
  pub effective_from : ℕ
  pub effective_to : Option ℕ
  pub created_by : Uuid
  pub created_at : ℕ

-- A row of `plan_versions`, without `created_at`, and without `acknowledged_by`, which no statement
-- writes; the rules snapshot, a JSON document, stands as a number.
pub record PlanVersionRow : Type 0 where
  pub id : Uuid
  pub org_id : Uuid
  pub plan_id : Uuid
  pub version_num : ℕ
  pub status : PlanVersionState
  pub rules_snapshot : ℕ
  pub effective_at : ℕ

-- A row of `plan_acknowledgments`.
pub record AcknowledgmentRow : Type 0 where
  pub id : Uuid
  pub org_id : Uuid
  pub plan_version_id : Uuid
  pub producer_id : Uuid
  pub acknowledged_by : Uuid
  pub acknowledged_at : ℕ

-- A row of `plan_assignments`.
pub record PlanAssignmentRow : Type 0 where
  pub id : Uuid
  pub org_id : Uuid
  pub plan_version_id : Uuid
  pub producer_id : Uuid
  pub assigned_at : ℕ
  pub expires_at : Option ℕ

pub record Tables : Type 0 where
  pub placements : List PlacementRow
  pub guarantee_periods : List GuaranteePeriodRow
  pub commission_records : List CommissionRecordRow
  pub commission_runs : List CommissionRunRow
  pub commission_run_records : List CommissionRunRecordRow
  pub clawback_events : List ClawbackEventRow
  pub adjustments : List AdjustmentRow
  pub recovery_schedules : List RecoveryScheduleRow
  pub discrepancies : List DiscrepancyRow
  pub invoices : List InvoiceRow
  pub billing_phases : List BillingPhaseRow
  pub commission_journal : List JournalRow
  pub exceptions : List ExceptionRow
  pub disputes : List DisputeRow
  pub contributors : List ContributorRow
  pub plan_versions : List PlanVersionRow
  pub plan_assignments : List PlanAssignmentRow
  pub commission_plans : List PlanRow
  pub plan_acknowledgments : List AcknowledgmentRow
