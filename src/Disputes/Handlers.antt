-- ===== src/Disputes/Handlers.antt =====
-- The handlers of apps/server/src/api/disputes.ts, and `sensitiveRead` of
-- apps/server/src/audit/sensitive-read.ts. The list of the fields that an answer 422 adds to its
-- message is left out, as is the logging.
use comission_mgmt.Prelude.{Bool, true, false, not, Option, none, some, List, if◌then◌else◌}
use comission_mgmt.Prelude.Codes.{is_blank}
use comission_mgmt.Core.Explanation.Text.{Text}
use comission_mgmt.Store.Tables.{
  Uuid, Tables, DisputeRow, DisputeState, AuditRow, AuditAction, dispute_submitted,
  dispute_resolved, dispute_list,
}
use comission_mgmt.Store.Monad.{
  Environment, M, type_error, append_audit, return, throw, catch, attempt, ◌>>=◌, ◌>>◌, Response,
  reply, refuse, Role, SessionClaims, Body, invalid_body, null_body, json_body,
}
use comission_mgmt.Guarantee.Worker.{interrupted}
use comission_mgmt.Disputes.Statements.{
  create_dispute, get_dispute, list_disputes, list_disputes_by_producer, resolve_dispute,
}

-- `CreateDisputeBody` and `ResolveDisputeBody`; an absent key and a null are `none`, and of the
-- required keys an empty text too. An identifier is a UUID.
pub record CreateDisputeBody : Type 0 where
  pub commission_record_id : Option Uuid
  pub description : Option Text

pub record ResolveDisputeBody : Type 0 where
  pub resolution_note : Option Text
  pub exception_id : Option Uuid

abbrev pub may_resolve : Role → Bool
may_resolve Role.finance_admin = true
may_resolve Role.executive = true
may_resolve Role.manager = true
may_resolve _ = false

abbrev pub sees_all : Role → Bool
sees_all Role.finance_admin = true
sees_all Role.executive = true
sees_all _ = false

abbrev pub is_resolved : DisputeState → Bool
is_resolved DisputeState.resolved = true
is_resolved _ = false

module _ (env : Environment) where
  -- `sensitiveRead`: the audit row first, then the read.
  abbrev pub sensitive_read {ℓ} : {A : Type ℓ} → AuditRow → M A → M A
  sensitive_read row read = append_audit env row >> read

  -- `writeDisputeAuditLog`: a failure is logged and passed over.
  abbrev pub write_dispute_audit_log : SessionClaims → AuditAction → Uuid → M (Unit {0})
  write_dispute_audit_log claims action id =
      attempt (
        append_audit env (record {
          org_id = claims.org_id;
          actor_id = claims.user_id;
          action = action;
          entity_id = id;
        }))
      >>= λ done. return tt

  module _ (claims : SessionClaims) where
    abbrev pub submitted_answer : DisputeRow → M (Response DisputeRow)
    submitted_answer d =
        write_dispute_audit_log claims dispute_submitted d.id >> return (reply 201 d)

    abbrev pub submit_dispute : Option Uuid → Option Text → M (Response DisputeRow)
    submit_dispute (some record_id) (some description) =
        if is_blank description
        then return (refuse 422 "Validation failed")
        else catch
            (create_dispute env (record {
              org_id = claims.org_id;
              commission_record_id = record_id;
              submitted_by = claims.user_id;
              description = description;
            })
              >>= submitted_answer)
            (λ x. return (refuse 500 "Failed to create dispute"))
    submit_dispute _ _ = return (refuse 422 "Validation failed")

    -- `handleCreateDispute`.
    unfoldable pub handle_create_dispute : Body CreateDisputeBody → M (Response DisputeRow)
    unfolding create_dispute append_audit
    handle_create_dispute invalid_body = return (refuse 400 "Invalid JSON body")
    handle_create_dispute null_body = throw type_error
    handle_create_dispute (json_body b) = submit_dispute b.commission_record_id b.description

    abbrev pub visible_disputes : M (List DisputeRow)
    visible_disputes =
        if sees_all claims.role
        then list_disputes env claims.org_id
        else list_disputes_by_producer env claims.org_id claims.user_id

    abbrev pub list_audit : AuditRow
    list_audit = record {
      org_id = claims.org_id;
      actor_id = claims.user_id;
      action = dispute_list;
      entity_id = claims.org_id;
    }

    -- `handleListDisputes`.
    unfoldable pub handle_list_disputes : M (Response (List DisputeRow))
    unfolding list_disputes list_disputes_by_producer append_audit
    handle_list_disputes =
        catch (sensitive_read list_audit visible_disputes >>= λ ds. return (reply 200 ds))
          (λ x. return (refuse 500 "Failed to list disputes"))

    abbrev pub resolved_answer : Option (Option DisputeRow) → M (Response DisputeRow)
    resolved_answer none = return (refuse 500 "Failed to resolve dispute")
    resolved_answer (some none) = return (refuse 404 "Dispute not found or already resolved")
    resolved_answer (some (some d)) =
        write_dispute_audit_log claims dispute_resolved d.id >> return (reply 200 d)

    abbrev pub resolve_after :
        (Tables → Tables) → Uuid → Text → Option Uuid → M (Response DisputeRow)
    resolve_after others id note exception_id =
        interrupted others
        >> (attempt (resolve_dispute env claims.org_id id claims.user_id note exception_id)
            >>= resolved_answer)

    abbrev pub if_unresolved :
        M (Response DisputeRow) → Option (Option DisputeRow) → M (Response DisputeRow)
    if_unresolved resolve none = return (refuse 500 "Failed to retrieve dispute")
    if_unresolved resolve (some none) = return (refuse 404 "Dispute not found")
    if_unresolved resolve (some (some d)) =
        if is_resolved d.state then return (refuse 409 "Dispute is already Resolved") else resolve

    abbrev pub resolve_for :
        (Tables → Tables) → Uuid → Option Uuid → Option Text → M (Response DisputeRow)
    resolve_for others id exception_id none = return (refuse 422 "Validation failed")
    resolve_for others id exception_id (some note) =
        if is_blank note
        then return (refuse 422 "Validation failed")
        else attempt (get_dispute env claims.org_id id)
          >>= if_unresolved (resolve_after others id note exception_id)

    abbrev pub resolve_body :
        (Tables → Tables) → Uuid → Body ResolveDisputeBody → M (Response DisputeRow)
    resolve_body others id invalid_body = return (refuse 400 "Invalid JSON body")
    resolve_body others id null_body = throw type_error
    resolve_body others id (json_body b) = resolve_for others id b.exception_id b.resolution_note

    -- `handleResolveDispute`; other sessions act between its query and its update.
    unfoldable pub handle_resolve_dispute :
        (Tables → Tables) → Uuid → Body ResolveDisputeBody → M (Response DisputeRow)
    unfolding get_dispute resolve_dispute append_audit
    handle_resolve_dispute others id body =
        if not (may_resolve claims.role)
        then return (refuse 403 "Forbidden: Finance Admin, Executive, or Manager role required")
        else resolve_body others id body
