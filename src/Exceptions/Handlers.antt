-- ===== src/Exceptions/Handlers.antt =====
-- `handleCreateException`, `handleApproveException` and `handleRejectException` of
-- apps/server/src/api/exceptions.ts. The list of the fields that an answer 422 adds to its message
-- is left out, as is the logging.
use comission_mgmt.Prelude.{Bool, true, false, not, Option, none, some, if◌then◌else◌}
use comission_mgmt.Prelude.Codes.{is_blank}
use comission_mgmt.Core.Explanation.Text.{Text}
use comission_mgmt.Store.Tables.{
  Uuid, Tables, ExceptionRow, ExceptionState, ExceptionType, AuditAction, exception_requested,
  exception_approved, exception_rejected,
}
use comission_mgmt.Store.Monad.{
  Environment, M, type_error, append_audit, return, throw, catch, attempt, ◌>>=◌, ◌>>◌, Response,
  reply, refuse, Role, SessionClaims, Body, invalid_body, null_body, json_body,
}
use comission_mgmt.Guarantee.Worker.{interrupted}
use comission_mgmt.Exceptions.Statements.{
  create_exception, get_exception, approve_exception, reject_exception, adjust_net_payable,
}

-- The `exception_type` of a request: absent, one of `EXCEPTION_TYPES`, or anything else.
pub data TypeField : Type 0 where
  absent_type unknown_type : TypeField
  known_type : ExceptionType → TypeField

-- `CreateExceptionBody`; an absent key and a null are `none`, and of the required keys an empty
-- text too. The attachment of a form is the address that the handler makes of it.
pub record CreateExceptionBody : Type 0 where
  pub placement_id : Option Uuid
  pub commission_record_id : Option Uuid
  pub exception_type : TypeField
  pub justification : Option Text
  pub impact_amount : Option Text
  pub attachment_url : Option Text

-- What the request carries.
pub data Submission : Type 0 where
  unreadable_form : Submission
  form : CreateExceptionBody → Submission
  json : Body CreateExceptionBody → Submission

abbrev pub is_finance_admin : Role → Bool
is_finance_admin Role.finance_admin = true
is_finance_admin _ = false

abbrev pub is_decided : ExceptionState → Bool
is_decided ExceptionState.approved_exception = true
is_decided ExceptionState.rejected = true
is_decided _ = false

abbrev pub is_bad_impact : (Text → Bool) → Option Text → Bool
is_bad_impact is_numeric none = false
is_bad_impact is_numeric (some t) = not (is_numeric t)

abbrev pub was_adjusted : Option (Option Text) → Bool
was_adjusted (some (some x)) = true
was_adjusted _ = false

module _ (env : Environment) where
  -- `writeExceptionAuditLog`: a failure is logged and passed over.
  abbrev pub write_exception_audit_log : SessionClaims → AuditAction → Uuid → M (Unit {0})
  write_exception_audit_log claims action id =
      attempt (
        append_audit env (record {
          org_id = claims.org_id;
          actor_id = claims.user_id;
          action = action;
          entity_id = id;
        }))
      >>= λ done. return tt

  abbrev pub requested_answer : SessionClaims → ExceptionRow → M (Response ExceptionRow)
  requested_answer claims e =
      write_exception_audit_log claims exception_requested e.id >> return (reply 201 e)

  module _ (is_numeric : Text → Bool) (numeric : Text → Option Text) (claims : SessionClaims) where
    -- The three required fields, as the checks leave them.
    abbrev pub request_exception :
        CreateExceptionBody → Option Uuid → TypeField → Option Text → M (Response ExceptionRow)
    request_exception b (some placement_id) (known_type type) (some reason) =
        if is_blank reason
        then return (refuse 422 "Validation failed")
        else if is_bad_impact is_numeric b.impact_amount
        then return (refuse 422 "Validation failed")
        else catch
            (create_exception env numeric (record {
              org_id = claims.org_id;
              placement_id = placement_id;
              commission_record_id = b.commission_record_id;
              requested_by = claims.user_id;
              exception_type = type;
              justification = reason;
              impact_amount = b.impact_amount;
              attachment_url = b.attachment_url;
            })
              >>= requested_answer claims)
            (λ x. return (refuse 500 "Failed to create exception request"))
    request_exception b _ _ _ = return (refuse 422 "Validation failed")

    -- `handleCreateException`.
    unfoldable pub handle_create_exception : Submission → M (Response ExceptionRow)
    unfolding create_exception append_audit
    handle_create_exception unreadable_form =
        return (refuse 400 "Failed to parse multipart form data")
    handle_create_exception (form b) =
        request_exception b b.placement_id b.exception_type b.justification
    handle_create_exception (json invalid_body) = return (refuse 400 "Invalid JSON body")
    handle_create_exception (json null_body) = throw type_error
    handle_create_exception (json (json_body b)) =
        request_exception b b.placement_id b.exception_type b.justification

  -- The state check of both reviews, and what follows it.
  abbrev pub if_undecided {ℓ} :
      {B : Type ℓ} → M (Response B) → Option (Option ExceptionRow) → M (Response B)
  if_undecided review none = return (refuse 500 "Failed to retrieve exception")
  if_undecided review (some none) = return (refuse 404 "Exception not found")
  if_undecided review (some (some e)) =
      if is_decided e.status then return (refuse 409 "Exception is already decided") else review

  module _ (sum : Text → Text → Text) (claims : SessionClaims) where
    -- The adjustment of the ledger, whose error is passed over.
    abbrev pub adjust_if : Option Text → Option Uuid → M Bool
    adjust_if (some impact) (some id) =
        attempt (adjust_net_payable env sum claims.org_id id impact) >>= λ r.
        return (was_adjusted r)
    adjust_if _ _ = return false

    abbrev pub approved_answer : Option (Option ExceptionRow) → M (Response (ExceptionRow × Bool))
    approved_answer none = return (refuse 500 "Failed to approve exception")
    approved_answer (some none) = return (refuse 404 "Exception not found or already reviewed")
    approved_answer (some (some e)) =
        adjust_if e.impact_amount e.commission_record_id >>= λ adjusted.
        write_exception_audit_log claims exception_approved e.id >> return (reply 200 (e, adjusted))

    abbrev pub approve_after : (Tables → Tables) → Uuid → M (Response (ExceptionRow × Bool))
    approve_after others id =
        interrupted others
        >> (attempt (approve_exception env claims.org_id id claims.user_id) >>= approved_answer)

    -- `handleApproveException`; other sessions act between its query and its update.
    unfoldable pub handle_approve_exception :
        (Tables → Tables) → Uuid → M (Response (ExceptionRow × Bool))
    unfolding get_exception approve_exception adjust_net_payable append_audit
    handle_approve_exception others id =
        if not (is_finance_admin claims.role)
        then return (refuse 403 "Forbidden: Finance Admin role required")
        else attempt (get_exception env claims.org_id id) >>= if_undecided (approve_after others id)

  module _ (claims : SessionClaims) where
    abbrev pub rejected_answer : Option (Option ExceptionRow) → M (Response ExceptionRow)
    rejected_answer none = return (refuse 500 "Failed to reject exception")
    rejected_answer (some none) = return (refuse 404 "Exception not found or already reviewed")
    rejected_answer (some (some e)) =
        write_exception_audit_log claims exception_rejected e.id >> return (reply 200 e)

    abbrev pub reject_after : (Tables → Tables) → Uuid → Text → M (Response ExceptionRow)
    reject_after others id reason =
        interrupted others
        >> (attempt (reject_exception env claims.org_id id claims.user_id reason)
            >>= rejected_answer)

    -- The reason, if the body has one.
    abbrev pub reject_for : (Tables → Tables) → Uuid → Option Text → M (Response ExceptionRow)
    reject_for others id none = return (refuse 422 "Validation failed")
    reject_for others id (some reason) =
        if is_blank reason
        then return (refuse 422 "Validation failed")
        else attempt (get_exception env claims.org_id id)
          >>= if_undecided (reject_after others id reason)

    abbrev pub reject_body :
        (Tables → Tables) → Uuid → Body (Option Text) → M (Response ExceptionRow)
    reject_body others id invalid_body = return (refuse 400 "Invalid JSON body")
    reject_body others id null_body = throw type_error
    reject_body others id (json_body reason) = reject_for others id reason

    -- `handleRejectException`.
    unfoldable pub handle_reject_exception :
        (Tables → Tables) → Uuid → Body (Option Text) → M (Response ExceptionRow)
    unfolding get_exception reject_exception append_audit
    handle_reject_exception others id body =
        if not (is_finance_admin claims.role)
        then return (refuse 403 "Forbidden: Finance Admin role required")
        else reject_body others id body
