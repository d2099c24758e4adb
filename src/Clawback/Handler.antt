-- ===== src/Clawback/Handler.antt =====
-- `handleTriggerClawback` of apps/server/src/api/clawback.ts. What other sessions commit between
-- the reads and the transaction is a function of the tables.
use comission_mgmt.Prelude.{
  ℕ, Bool, true, false, not, Option, none, some, List, [], ◌∷◌, ◌++◌, ◌==◌, ltb, if◌then◌else◌,
  length,
}
use comission_mgmt.Store.Tables.{
  Uuid, Tables, PlacementRow, GuaranteePeriodRow, CommissionRecordRow, ClawbackEventType,
  ClawbackRule, RecoveryScheduleRow, AuditAction, clawback_triggered_action,
  ledger_adjustment_posted,
}
use comission_mgmt.Store.Monad.{
  Environment, M, Exception, concurrent_trigger, append_audit, return, throw, attempt, catch, begin,
  ◌>>=◌, ◌>>◌, Response, reply, refuse, Role, SessionClaims,
}
use comission_mgmt.Guarantee.Statements.{get_guarantee_period_for_placement, is_in_force}
use comission_mgmt.Guarantee.Worker.{interrupted}
use comission_mgmt.Clawback.Statements.{
  ClawbackStatus, get_placement, create_clawback_event, trigger_guarantee_period,
  hold_commission_records_for_clawback, list_commission_records_for_placement,
  create_commission_record_adjustment, create_clawback_recovery_schedule,
  get_clawback_status_for_placement,
}

-- The request: not JSON; JSON that is no object; an object, where a missing or unknown event type
-- or rule, a time that is no text and a count that is no number are `none`.
pub data TriggerBody : Type 0 where
  invalid_json no_object : TriggerBody
  trigger_object :
      Option ClawbackEventType → Option ClawbackRule → Option ℕ → Option ℕ → TriggerBody

-- The parts of a request that passed.
pub record TriggerRequest : Type 0 where
  pub event_type : ClawbackEventType
  pub rule : ClawbackRule
  pub occurred_at : ℕ
  pub installment_count : ℕ

-- The answer of a trigger that succeeded.
pub record TriggerReply : Type 0 where
  pub clawback_event_id : Uuid
  pub guarantee_period_id : Uuid
  pub commission_records_affected : ℕ
  pub adjustments_posted : ℕ
  pub recovery_schedules : List RecoveryScheduleRow

-- What the transaction hands on.
pub record Triggered : Type 0 where
  pub event_id : Uuid
  pub affected : ℕ
  pub adjustment_ids : List Uuid
  pub schedule_ids : List Uuid

abbrev pub is_finance_admin : Role → Bool
is_finance_admin Role.finance_admin = true
is_finance_admin _ = false

-- The rules that post adjustments, and the one that schedules their recovery.
abbrev pub posts : ClawbackRule → Bool
posts ClawbackRule.clawback = true
posts ClawbackRule.holdback = true
posts _ = false

abbrev pub schedules : ClawbackRule → Bool
schedules ClawbackRule.clawback = true
schedules _ = false

-- A count that is no positive number is taken to be `DEFAULT_INSTALLMENT_COUNT`.
abbrev pub count_or_default : Option ℕ → ℕ
count_or_default none = 3
count_or_default (some n) = if ltb 0 n then n else 3

abbrev pub time_or : Option ℕ → ℕ → ℕ
time_or none now = now
time_or (some t) now = t

module _ (env : Environment) where
  abbrev pub schedule_if : Bool → Uuid → Uuid → Uuid → ℕ → M (List Uuid)
  schedule_if false org_id event_id record_id count = return []
  schedule_if true org_id event_id record_id count =
      create_clawback_recovery_schedule env org_id event_id record_id count >>= λ s.
      return (s.id ∷ [])

  -- The body of the loop over the records of the placement.
  unfoldable pub post_one :
      SessionClaims → Uuid → TriggerRequest → CommissionRecordRow → M (Uuid × List Uuid)
  unfolding create_commission_record_adjustment create_clawback_recovery_schedule
  post_one claims event_id r c = do
    adjustment ←
        create_commission_record_adjustment env claims.org_id c.id event_id r.rule claims.user_id
    scheduled ← schedule_if (schedules r.rule) claims.org_id event_id c.id r.installment_count
    return (adjustment.id, scheduled)

  unfoldable pub post_all :
      SessionClaims → Uuid → TriggerRequest → List CommissionRecordRow → M (List Uuid × List Uuid)
  unfolding post_one
  post_all claims event_id r [] = return ([], [])
  post_all claims event_id r (c ∷ cs) = do
    one ← post_one claims event_id r c
    rest ← post_all claims event_id r cs
    return (one.0 ∷ rest.0, one.1 ++ rest.1)

  abbrev pub post_if :
      Bool → SessionClaims → Uuid → Uuid → TriggerRequest → M (List Uuid × List Uuid)
  post_if false claims placement_id event_id r = return ([], [])
  post_if true claims placement_id event_id r =
      list_commission_records_for_placement env claims.org_id placement_id
      >>= post_all claims event_id r

  abbrev pub after_trigger : SessionClaims → Uuid → TriggerRequest → Uuid → Bool → M Triggered
  after_trigger claims placement_id r event_id false = throw concurrent_trigger
  after_trigger claims placement_id r event_id true = do
    affected ← hold_commission_records_for_clawback env claims.org_id placement_id
    posted ← post_if (posts r.rule) claims placement_id event_id r
    return (record {
      event_id = event_id;
      affected = affected;
      adjustment_ids = posted.0;
      schedule_ids = posted.1;
    })

  -- The transaction.
  unfoldable pub trigger_transaction : SessionClaims → Uuid → Uuid → TriggerRequest → M Triggered
  unfolding create_clawback_event trigger_guarantee_period hold_commission_records_for_clawback
      list_commission_records_for_placement post_all
  trigger_transaction claims placement_id period_id r = begin (do
    event ← create_clawback_event env (record {
      org_id = claims.org_id;
      placement_id = placement_id;
      guarantee_period_id = period_id;
      event_type = r.event_type;
      rule = r.rule;
      occurred_at = r.occurred_at;
      triggered_by = claims.user_id;
    })
    updated ← trigger_guarantee_period env period_id r.occurred_at
    after_trigger claims placement_id r event.id updated)

  -- `writeAuditLog`, which logs a failure and goes on.
  abbrev pub write_audit_log : SessionClaims → AuditAction → Uuid → M (Unit {0})
  write_audit_log claims action id =
      attempt (
        append_audit env (record {
          org_id = claims.org_id;
          actor_id = claims.user_id;
          action = action;
          entity_id = id;
        }))
      >>= λ done. return tt

  unfoldable pub audit_all : SessionClaims → List Uuid → M (Unit {0})
  unfolding append_audit
  audit_all claims [] = return tt
  audit_all claims (id ∷ ids) =
      write_audit_log claims ledger_adjustment_posted id >> audit_all claims ids

  abbrev pub triggered_reply : Uuid → Triggered → ClawbackStatus → Response TriggerReply
  triggered_reply period_id done status = reply 201 (record {
    clawback_event_id = done.event_id;
    guarantee_period_id = period_id;
    commission_records_affected = done.affected;
    adjustments_posted = length done.adjustment_ids;
    recovery_schedules = status.recovery_schedules;
  })

  abbrev pub answer_of : SessionClaims → Uuid → Uuid → Triggered → M (Response TriggerReply)
  answer_of claims placement_id period_id done =
      get_clawback_status_for_placement env claims.org_id placement_id >>= λ status.
      return (triggered_reply period_id done status)

  abbrev pub audit_ledger : SessionClaims → Uuid → Uuid → Triggered → M (Response TriggerReply)
  audit_ledger claims placement_id period_id done =
      audit_all claims done.adjustment_ids >> answer_of claims placement_id period_id done

  -- What follows the commit.
  unfoldable pub report : SessionClaims → Uuid → Uuid → Triggered → M (Response TriggerReply)
  unfolding append_audit audit_all get_clawback_status_for_placement
  report claims placement_id period_id done =
      write_audit_log claims clawback_triggered_action done.event_id
      >> audit_ledger claims placement_id period_id done

  abbrev pub request_of : ClawbackEventType → ClawbackRule → Option ℕ → Option ℕ → TriggerRequest
  request_of event_type rule at count = record {
    event_type = event_type;
    rule = rule;
    occurred_at = time_or at env.now;
    installment_count = count_or_default count;
  }

  module _ (others : Tables → Tables) (claims : SessionClaims) (placement_id : Uuid) where
    -- The message that names the period's state has one text here.
    abbrev pub trigger_of_period :
        TriggerRequest → Option GuaranteePeriodRow → M (Response TriggerReply)
    trigger_of_period r none = return (refuse 422 "No guarantee period found for this placement")
    trigger_of_period r (some period) =
        if not (is_in_force period.status)
        then return (refuse 422 "Guarantee period is already in another state — cannot trigger")
        else if ltb period.guarantee_ends env.today
        then return
            (refuse 422 "Placement is outside the guarantee window — cannot trigger clawback")
        else interrupted others
          >> (trigger_transaction claims placement_id period.id r
              >>= report claims placement_id period.id)

    abbrev pub trigger_of_placement :
        TriggerRequest → Option PlacementRow → M (Response TriggerReply)
    trigger_of_placement r none = return (refuse 404 "Placement not found")
    trigger_of_placement r (some placement) =
        if not (placement.org_id == claims.org_id)
        then return (refuse 404 "Placement not found")
        else get_guarantee_period_for_placement env claims.org_id placement_id
          >>= trigger_of_period r

    -- The `catch` of the handler.
    abbrev pub trigger_failed : Exception → M (Response TriggerReply)
    trigger_failed concurrent_trigger =
        return (refuse 409 "Guarantee period was already triggered by a concurrent request")
    trigger_failed x = return (refuse 500 "Failed to trigger clawback event")

    abbrev pub trigger_request : TriggerRequest → M (Response TriggerReply)
    trigger_request r =
        catch (get_placement env placement_id >>= trigger_of_placement r) trigger_failed

    abbrev pub trigger_parsed : TriggerBody → M (Response TriggerReply)
    trigger_parsed invalid_json = return (refuse 400 "Invalid JSON body")
    trigger_parsed no_object = return (refuse 400 "Request body must be a JSON object")
    trigger_parsed (trigger_object none rule at count) =
        return (refuse 400 "event_type must be one of: candidate_departure, refund")
    trigger_parsed (trigger_object (some event_type) none at count) =
        return
          (refuse 400 "rule must be one of: clawback, holdback, refund_credit, replacement_search")
    trigger_parsed (trigger_object (some event_type) (some rule) at count) =
        trigger_request (request_of event_type rule at count)

    -- `handleTriggerClawback`.
    unfoldable pub handle_trigger_clawback : TriggerBody → M (Response TriggerReply)
    unfolding get_placement get_guarantee_period_for_placement trigger_transaction report
    handle_trigger_clawback body =
        if not (is_finance_admin claims.role)
        then return (refuse 403 "Forbidden: Finance Admin role required")
        else trigger_parsed body
