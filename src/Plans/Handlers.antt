-- ===== src/Plans/Handlers.antt =====
-- The writing handlers of apps/server/src/api/plans.ts, over any numbers. The list of the fields
-- that an answer 422 adds to its message is left out, as is the logging. A blank identifier or date
-- of a body, and rules that are no object, stand as an absent key; a text that is no date is left out.
use comission_mgmt.Prelude.{
  ℕ, Bool, true, false, not, ◌&&◌, ◌||◌, Option, none, some, List, ◌==◌, find, if◌then◌else◌,
}
use comission_mgmt.Prelude.Codes.{is_blank}
use comission_mgmt.Core.Number.{Number, lt}
use comission_mgmt.Core.Explanation.Text.{Text}
use comission_mgmt.Core.Tiers.Scan.{TierRule, validate_tiers}
use comission_mgmt.Core.Engine.Stages.{RateType}
use comission_mgmt.Store.Tables.{
  Uuid, PlanRow, PlanVersionRow, PlanAssignmentRow, AcknowledgmentRow, plan_version_acknowledged,
}
use comission_mgmt.Store.Monad.{
  Environment, M, type_error, query, append_audit, return, throw, attempt, ◌>>=◌, ◌>>◌, Response,
  reply, refuse, Role, SessionClaims, Body, invalid_body, null_body, json_body,
}
use comission_mgmt.Plans.Statements.{
  get_plan, create_plan, create_plan_version, activate_plan_version, is_assignment,
  create_plan_assignment, acknowledge_plan_version, get_plan_version_acknowledgment,
}

-- The keys of the rules in a body: absent, of a wrong form, or a value.
pub data RateField : Type 0 where
  absent_rate unknown_rate : RateField
  known_rate : RateType → RateField

pub data BaseField {ℓ} (A : Type ℓ) : Type ℓ where
  absent_base not_a_number : BaseField A
  base : A → BaseField A

pub data TiersField {ℓ} (A : Type ℓ) : Type ℓ where
  absent_tiers not_an_array : TiersField A
  tiers : List (TierRule A) → TiersField A

-- The keys of `Partial<PlanRules>` that the check reads.
pub record PlanRulesBody {ℓ} (A : Type ℓ) : Type ℓ where
  pub rate_type : RateField
  pub base_rate : BaseField A
  pub tiers : TiersField A

pub record CreatePlanBody {ℓ} (A : Type ℓ) : Type ℓ where
  pub name : Option Text
  pub effective_from : Option ℕ
  pub effective_to : Option ℕ
  pub rules : Option (PlanRulesBody A)

pub record CreatePlanVersionBody {ℓ} (A : Type ℓ) : Type ℓ where
  pub rules : Option (PlanRulesBody A)
  pub effective_at : Option ℕ

pub record CreateAssignmentBody : Type 0 where
  pub producer_id : Option Uuid
  pub plan_version_id : Option Uuid
  pub expires_at : Option ℕ

abbrev pub is_known_rate : RateField → Bool
is_known_rate (known_rate r) = true
is_known_rate _ = false

module _ {ℓ} {A : Type ℓ} ⦃n : Number A⦄ where
  abbrev pub is_base : BaseField A → Bool
  is_base (base x) = not (lt x n.nought || lt n.one x)
  is_base _ = false

  abbrev pub is_tiers : TiersField A → Bool
  is_tiers absent_tiers = true
  is_tiers not_an_array = false
  is_tiers (tiers ts) = validate_tiers ts

  -- `validatePlanRules`, without its messages.
  unfoldable pub validate_plan_rules : PlanRulesBody A → Bool
  validate_plan_rules r = is_known_rate r.rate_type && is_base r.base_rate && is_tiers r.tiers

module _ (env : Environment) (claims : SessionClaims) where
  -- The plan of the organisation, or the answer 404; an error of the query is not caught.
  abbrev pub if_plan {ℓ} : {B : Type ℓ} → M (Response B) → Option PlanRow → M (Response B)
  if_plan next none = return (refuse 404 "Plan not found")
  if_plan next (some p) = next

  abbrev pub of_plan {ℓ} : {B : Type ℓ} → Uuid → M (Response B) → M (Response B)
  of_plan plan_id next = get_plan env claims.org_id plan_id >>= if_plan next

  abbrev pub created_version : Option PlanVersionRow → M (Response PlanVersionRow)
  created_version none = return (refuse 500 "Failed to create plan version")
  created_version (some v) = return (reply 201 v)

  abbrev pub created_plan :
      Option (PlanRow × PlanVersionRow) → M (Response (PlanRow × PlanVersionRow))
  created_plan none = return (refuse 500 "Failed to create plan")
  created_plan (some p) = return (reply 201 p)

  module _ {ℓ} {A : Type ℓ} ⦃n : Number A⦄ (document : PlanRulesBody A → ℕ) where
    abbrev pub plan_for :
        CreatePlanBody A
        → Option Text
        → Option ℕ
        → Option (PlanRulesBody A)
        → M (Response (PlanRow × PlanVersionRow))
    plan_for b (some name) (some from) (some rules) =
        if is_blank name
        then return (refuse 422 "Validation failed")
        else if not (validate_plan_rules rules)
        then return (refuse 422 "Validation failed")
        else attempt (
            create_plan env (record {
              org_id = claims.org_id;
              name = name;
              effective_from = from;
              effective_to = b.effective_to;
              created_by = claims.user_id;
              rules = document rules;
            }))
          >>= created_plan
    plan_for b _ _ _ = return (refuse 422 "Validation failed")

    -- `handleCreatePlan`.
    unfoldable pub handle_create_plan :
        Body (CreatePlanBody A) → M (Response (PlanRow × PlanVersionRow))
    unfolding create_plan validate_plan_rules
    handle_create_plan invalid_body = return (refuse 400 "Invalid JSON body")
    handle_create_plan null_body = throw type_error
    handle_create_plan (json_body b) = plan_for b b.name b.effective_from b.rules

    abbrev pub version_for :
        Uuid → Option ℕ → Option (PlanRulesBody A) → M (Response PlanVersionRow)
    version_for plan_id at none = return (refuse 422 "Validation failed")
    version_for plan_id at (some rules) =
        if not (validate_plan_rules rules)
        then return (refuse 422 "Validation failed")
        else of_plan plan_id (
            attempt (
              create_plan_version env (record {
                org_id = claims.org_id;
                plan_id = plan_id;
                rules = document rules;
                effective_at = at;
              }))
            >>= created_version)

    -- `handleCreatePlanVersion`.
    unfoldable pub handle_create_plan_version :
        Uuid → Body (CreatePlanVersionBody A) → M (Response PlanVersionRow)
    unfolding get_plan create_plan_version validate_plan_rules
    handle_create_plan_version plan_id invalid_body = return (refuse 400 "Invalid JSON body")
    handle_create_plan_version plan_id null_body = throw type_error
    handle_create_plan_version plan_id (json_body b) = version_for plan_id b.effective_at b.rules

  abbrev pub activated_answer : Option (Option PlanVersionRow) → M (Response PlanVersionRow)
  activated_answer none = return (refuse 500 "Failed to activate plan version")
  activated_answer (some none) = return (refuse 404 "Version not found or not in Draft state")
  activated_answer (some (some v)) = return (reply 200 v)

  -- `handleActivatePlanVersion`.
  unfoldable pub handle_activate_plan_version : Uuid → Uuid → M (Response PlanVersionRow)
  unfolding get_plan activate_plan_version
  handle_activate_plan_version plan_id id =
      of_plan plan_id
        (attempt (activate_plan_version env claims.org_id plan_id id) >>= activated_answer)

  abbrev pub assigned_answer : Option PlanAssignmentRow → M (Response PlanAssignmentRow)
  assigned_answer none = return (refuse 500 "Failed to create plan assignment")
  assigned_answer (some a) = return (reply 201 a)

  abbrev pub assignment_for :
      Uuid → Option ℕ → Option Uuid → Option Uuid → M (Response PlanAssignmentRow)
  assignment_for plan_id expires_at (some producer_id) (some version_id) = of_plan plan_id (
      attempt (
        create_plan_assignment env (record {
          org_id = claims.org_id;
          plan_version_id = version_id;
          producer_id = producer_id;
          expires_at = expires_at;
        }))
      >>= assigned_answer)
  assignment_for plan_id expires_at _ _ = return (refuse 422 "Validation failed")

  -- `handleCreatePlanAssignment`.
  unfoldable pub handle_create_plan_assignment :
      Uuid → Body CreateAssignmentBody → M (Response PlanAssignmentRow)
  unfolding get_plan create_plan_assignment
  handle_create_plan_assignment plan_id invalid_body = return (refuse 400 "Invalid JSON body")
  handle_create_plan_assignment plan_id null_body = throw type_error
  handle_create_plan_assignment plan_id (json_body b) =
      assignment_for plan_id b.expires_at b.producer_id b.plan_version_id

  abbrev pub is_producer : Role → Bool
  is_producer Role.producer = true
  is_producer _ = false

  -- The audit entry of a first acknowledgement, whose error is passed over.
  abbrev pub audit_first : Uuid → Option AcknowledgmentRow → M (Unit {0})
  audit_first version_id (some a) = return tt
  audit_first version_id none =
      attempt (
        append_audit env (record {
          org_id = claims.org_id;
          actor_id = claims.user_id;
          action = plan_version_acknowledged;
          entity_id = version_id;
        }))
      >>= λ done. return tt

  abbrev pub acknowledge_assigned : Uuid → Option PlanAssignmentRow → M (Response AcknowledgmentRow)
  acknowledge_assigned version_id none =
      return (refuse 403 "Forbidden: producer is not assigned to this plan version")
  acknowledge_assigned version_id (some a) =
      get_plan_version_acknowledgment env claims.org_id version_id claims.user_id >>= λ existing.
      acknowledge_plan_version env claims.org_id version_id claims.user_id >>= λ ack.
      audit_first version_id existing >> return (reply 200 ack)

  -- `handleAcknowledgePlanVersion`; an error of its statements is not caught.
  unfoldable pub handle_acknowledge_plan_version : Uuid → Uuid → M (Response AcknowledgmentRow)
  unfolding get_plan query get_plan_version_acknowledgment acknowledge_plan_version append_audit
  handle_acknowledge_plan_version plan_id version_id =
      if not (is_producer claims.role)
      then return (refuse 403 "Forbidden: only Producers may acknowledge a plan")
      else of_plan plan_id (
          query env (λ t.
            find (λ a. a.org_id == claims.org_id && is_assignment version_id claims.user_id a)
              t.plan_assignments)
          >>= acknowledge_assigned version_id)
