-- ===== src/Runs/Handlers.antt =====
-- The handlers that read, approve and finalize a run.
use Prim.Native.String.{String}
use comission_mgmt.Prelude.{
  ℕ, Bool, true, false, not, ◌&&◌, Option, none, some, List, [], ◌∷◌, map, ltb, if◌then◌else◌,
  select,
}
use comission_mgmt.Prelude.Codes.{trim}
use comission_mgmt.Core.Explanation.Text.{Text}
use comission_mgmt.Store.Tables.{
  Uuid, CommissionRunRow, CommissionRunRecordRow, finalization_override,
}
use comission_mgmt.Store.Monad.{
  Environment, M, type_error, append_audit, return, throw, attempt, ◌>>=◌, ◌>>◌, Response, reply,
  refuse, SessionClaims,
}
use comission_mgmt.Runs.Statements.{
  get_commission_run, get_commission_run_records, approve_run_record, approve_commission_run,
  count_unacknowledged_discrepancies, is_approved_run,
}

-- The bodies of the answers of `handleApproveCommissionRun` and `handleFinalizeCommissionRun`: the
-- run, the records that still lack approval, or the count of open discrepancies.
pub data RunBody : Type 0 where
  run_body : CommissionRunRow → Option Text → RunBody
  unapproved_body : List Uuid → RunBody
  discrepancies_body : ℕ → RunBody

abbrev pub unapproved : List CommissionRunRecordRow → List CommissionRunRecordRow
unapproved = select (λ r. not r.individually_approved)

abbrev pub record_ids : List CommissionRunRecordRow → List Uuid
record_ids = map (λ r. r.commission_record_id)

-- The body of a finalization: not JSON; JSON `null`; no text or an object with no text for
-- `override_reason`; an object with one.
pub data FinalizeBody : Type 0 where
  invalid_json null_json no_reason : FinalizeBody
  reason : Text → FinalizeBody

-- `override_reason`, trimmed, if that leaves something.
abbrev pub override_of_trimmed : Text → Option Text
override_of_trimmed [] = none
override_of_trimmed (c ∷ cs) = some (c ∷ cs)

abbrev pub override_of : FinalizeBody → Option Text
override_of (reason t) = override_of_trimmed (trim t)
override_of _ = none

abbrev pub has_override : Option Text → Bool
has_override none = false
has_override (some t) = true

module _ (env : Environment) where
  -- What `handleApproveRunRecord` answers, given what the update returned.
  abbrev pub approved_record_answer :
      Option (Option CommissionRunRecordRow) → Response CommissionRunRecordRow
  approved_record_answer none = refuse 500 "Failed to approve commission record"
  approved_record_answer (some none) = refuse 404 "Commission record not found in this run"
  approved_record_answer (some (some row)) = reply 200 row

  abbrev pub approve_record_of :
      Uuid
      → Uuid
      → SessionClaims
      → Option (Option CommissionRunRow)
      → M (Response CommissionRunRecordRow)
  approve_record_of run_id record_id claims none =
      return (refuse 500 "Failed to retrieve commission run")
  approve_record_of run_id record_id claims (some none) =
      return (refuse 404 "Commission run not found")
  approve_record_of run_id record_id claims (some (some run)) =
      if is_approved_run run.status
      then return (refuse 409 "Commission run is already approved and immutable")
      else attempt (approve_run_record env claims.org_id run_id record_id claims.user_id)
        >>= λ updated. return (approved_record_answer updated)

  -- `handleApproveRunRecord`.
  unfoldable pub handle_approve_run_record :
      Uuid → Uuid → SessionClaims → M (Response CommissionRunRecordRow)
  unfolding get_commission_run approve_run_record
  handle_approve_run_record run_id record_id claims =
      attempt (get_commission_run env claims.org_id run_id)
      >>= approve_record_of run_id record_id claims

  abbrev pub approved_run_answer :
      String → Option Text → Option (Option CommissionRunRow) → Response RunBody
  approved_run_answer message override none = refuse 500 message
  approved_run_answer message override (some none) = refuse 500 message
  approved_run_answer message override (some (some row)) = reply 200 (run_body row override)

  -- The run is marked if no record lacks approval.
  abbrev pub approve_if_checked :
      Uuid
      → SessionClaims
      → M (Unit {0})
      → String
      → Option Text
      → List CommissionRunRecordRow
      → M (Response RunBody)
  approve_if_checked run_id claims before message override (r ∷ rs) =
      return (reply 422 (unapproved_body (record_ids (r ∷ rs))))
  approve_if_checked run_id claims before message override [] =
      before
      >> (attempt (approve_commission_run env claims.org_id run_id claims.user_id) >>= λ approved.
          return (approved_run_answer message override approved))

  abbrev pub approve_with_records :
      Uuid
      → SessionClaims
      → M (Unit {0})
      → String
      → Option Text
      → Option (List CommissionRunRecordRow)
      → M (Response RunBody)
  approve_with_records run_id claims before message override none =
      return (refuse 500 "Failed to retrieve run records")
  approve_with_records run_id claims before message override (some records) =
      approve_if_checked run_id claims before message override (unapproved records)

  abbrev pub approve_of :
      Uuid → SessionClaims → Option (Option CommissionRunRow) → M (Response RunBody)
  approve_of run_id claims none = return (refuse 500 "Failed to retrieve commission run")
  approve_of run_id claims (some none) = return (refuse 404 "Commission run not found")
  approve_of run_id claims (some (some run)) =
      if is_approved_run run.status
      then return (refuse 409 "Commission run is already approved")
      else attempt (get_commission_run_records env claims.org_id run_id)
        >>= approve_with_records run_id claims (return tt) "Failed to approve commission run" none

  -- `handleApproveCommissionRun`.
  unfoldable pub handle_approve_commission_run : Uuid → SessionClaims → M (Response RunBody)
  unfolding get_commission_run get_commission_run_records approve_commission_run
  handle_approve_commission_run run_id claims =
      attempt (get_commission_run env claims.org_id run_id) >>= approve_of run_id claims

  -- The audit entry of an override; its failure is logged and passed over.
  abbrev pub audit_override : Uuid → SessionClaims → Option Text → M (Unit {0})
  audit_override run_id claims none = return tt
  audit_override run_id claims (some t) =
      attempt (
        append_audit env (record {
          org_id = claims.org_id;
          actor_id = claims.user_id;
          action = finalization_override;
          entity_id = run_id;
        }))
      >>= λ done. return tt

  abbrev pub finalize_gate : Uuid → SessionClaims → Option Text → ℕ → M (Response RunBody)
  finalize_gate run_id claims override count =
      if ltb 0 count && not (has_override override)
      then return (reply 422 (discrepancies_body count))
      else attempt (get_commission_run_records env claims.org_id run_id)
        >>= approve_with_records run_id claims (audit_override run_id claims override)
            "Failed to finalize commission run" override

  abbrev pub finalize_counted :
      Uuid → SessionClaims → FinalizeBody → Option ℕ → M (Response RunBody)
  finalize_counted run_id claims body none =
      return (refuse 500 "Failed to check reconciliation discrepancies")
  finalize_counted run_id claims null_json (some count) = throw type_error
  finalize_counted run_id claims body (some count) =
      finalize_gate run_id claims (override_of body) count

  abbrev pub finalize_of :
      Uuid → SessionClaims → FinalizeBody → Option (Option CommissionRunRow) → M (Response RunBody)
  finalize_of run_id claims body none = return (refuse 500 "Failed to retrieve commission run")
  finalize_of run_id claims body (some none) = return (refuse 404 "Commission run not found")
  finalize_of run_id claims body (some (some run)) =
      if is_approved_run run.status
      then return (refuse 409 "Commission run is already finalized")
      else attempt
          (count_unacknowledged_discrepancies env claims.org_id run.period_start run.period_end)
        >>= finalize_counted run_id claims body

  abbrev pub finalize_parsed : Uuid → SessionClaims → FinalizeBody → M (Response RunBody)
  finalize_parsed run_id claims invalid_json = return (refuse 400 "Invalid JSON body")
  finalize_parsed run_id claims body =
      attempt (get_commission_run env claims.org_id run_id) >>= finalize_of run_id claims body

  -- `handleFinalizeCommissionRun`.
  unfoldable pub handle_finalize_commission_run :
      Uuid → FinalizeBody → SessionClaims → M (Response RunBody)
  unfolding get_commission_run get_commission_run_records approve_commission_run
      count_unacknowledged_discrepancies append_audit
  handle_finalize_commission_run run_id body claims = finalize_parsed run_id claims body
