-- ===== src/Scenarios/Plans.antt =====
-- A plan with an active and a draft version, and one producer assigned to the former.
use comission_mgmt.Prelude.{◌≡◌, refl, true, false, none, some, [], ◌∷◌, All, find, map}
use comission_mgmt.Prelude.Int.{pos}
use comission_mgmt.Core.Number.{Fixed, fixed_number}
use comission_mgmt.Core.Explanation.Text.{codes}
use comission_mgmt.Core.Engine.Stages.{gross_fee}
use comission_mgmt.Store.Tables.{
  Tables, PlanRow, PlanVersionRow, AcknowledgmentRow, active_version, draft_version, superseded,
}
use comission_mgmt.Store.Monad.{
  Environment, World, SessionClaims, Role, json_body, returned, reply, refuse, query, statement,
  append_audit,
}
use comission_mgmt.Plans.Statements.{
  is_plan, is_active_of, is_acknowledgement, get_plan, create_plan_version, activate_plan_version,
  acknowledge_plan_version, get_plan_version_acknowledgment,
}
use comission_mgmt.Plans.Handlers.{
  PlanRulesBody, CreatePlanVersionBody, known_rate, base, absent_tiers, validate_plan_rules,
  is_producer, handle_create_plan_version, handle_activate_plan_version,
  handle_acknowledge_plan_version,
}
use comission_mgmt.Plans.Activation.{
  IsActivation, handle_activate_plan_version_ok, handle_activate_plan_version_lost,
}
use comission_mgmt.Plans.Versions.{IsNewVersion, handle_create_plan_version_created}
use comission_mgmt.Plans.Acknowledgement.{handle_acknowledge_plan_version_twice}
use comission_mgmt.Scenarios.Database.{sound, admin, tables}

abbrev plan : PlanRow
plan = record {
  id = 82;
  org_id = 1;
  name = codes "Standard";
  effective_from = 1;
  effective_to = none;
  created_by = 5;
  created_at = 1;
}

abbrev version : PlanVersionRow
version = record {
  id = 80;
  org_id = 1;
  plan_id = 82;
  version_num = 1;
  status = active_version;
  rules_snapshot = 1;
  effective_at = 2;
}

abbrev planned : Tables
planned = record tables {
  commission_plans = plan ∷ [];
  plan_versions =
      version ∷ record version { id = 81; version_num = 2; status = draft_version } ∷ [];
  plan_assignments =
      record {
        id = 83;
        org_id = 1;
        plan_version_id = 80;
        producer_id = 6;
        assigned_at = 3;
        expires_at = none;
      }
      ∷ [];
}

abbrev plan_world : World
plan_world = record { tables = planned; audit = []; statements = 0; drawn = 0 }

unfoldable activation :
    (v : PlanVersionRow) × (w' : World) × (handle_activate_plan_version sound admin 82 81 plan_world
      ≡ (returned (reply 200 v), w'))
unfolding handle_activate_plan_version get_plan query statement activate_plan_version
activation = (_, _, refl)

-- The draft is active, and the version before it is superseded.
activation_switches :
    map (λ v. v.status) activation.1.tables.plan_versions ≡ superseded ∷ active_version ∷ []
unfolding activation handle_activate_plan_version get_plan query statement activate_plan_version
activation_switches = refl

handle_activate_plan_version_ok_example :
    ((p : PlanRow) × (find (is_plan 1 82) planned.commission_plans ≡ some p))
    × IsActivation sound admin 82 81 activation.0 planned activation.1.tables
handle_activate_plan_version_ok_example =
    handle_activate_plan_version_ok sound admin 82 81 activation.0 plan_world activation.1
      activation.2

handle_activate_plan_version_lost_example :
    let r = handle_activate_plan_version sound admin 82 99 plan_world in
    (r.0 ≡ returned (refuse 404 "Version not found or not in Draft state"))
    × All (λ v. is_active_of 1 82 v ≡ false) r.1.tables.plan_versions
handle_activate_plan_version_lost_example =
    handle_activate_plan_version_lost sound admin 82 99 plan plan_world refl (refl, (refl, tt)) refl
      refl

abbrev rules : PlanRulesBody Fixed
rules = record {
  rate_type = known_rate gross_fee;
  base_rate = base (pos 1_000);
  tiers = absent_tiers;
}

abbrev version_body : CreatePlanVersionBody Fixed
version_body = record { rules = some rules; effective_at = none }

unfoldable creation :
    (v : PlanVersionRow) × (w' : World) × (handle_create_plan_version sound admin
        (λ r. 7)
        82
        (json_body version_body)
        plan_world
      ≡ (returned (reply 201 v), w'))
unfolding handle_create_plan_version get_plan query statement create_plan_version
    validate_plan_rules
creation = (_, _, refl)

creation_third : creation.0.version_num ≡ 3
unfolding creation handle_create_plan_version get_plan query statement create_plan_version
    validate_plan_rules
creation_third = refl

handle_create_plan_version_created_example :
    ((r : PlanRulesBody Fixed) × (some rules ≡ some r)
      × (validate_plan_rules r ≡ true)
      × (creation.0.rules_snapshot ≡ 7))
    × ((p : PlanRow) × (find (is_plan 1 82) planned.commission_plans ≡ some p))
    × IsNewVersion sound admin
        (λ (r : PlanRulesBody Fixed). 7)
        82
        creation.0
        planned
        creation.1.tables
handle_create_plan_version_created_example =
    handle_create_plan_version_created sound admin (λ r. 7) 82 version_body creation.0 plan_world
      creation.1 creation.2

abbrev seller : SessionClaims
seller = record { user_id = 6; org_id = 1; role = Role.producer }

unfoldable acknowledged :
    (a : AcknowledgmentRow) × (w' : World) × (handle_acknowledge_plan_version sound seller 82 80
        plan_world
      ≡ (returned (reply 200 a), w'))
unfolding handle_acknowledge_plan_version get_plan query statement append_audit
    get_plan_version_acknowledgment acknowledge_plan_version
acknowledged = (_, _, refl)

-- The clock of the second one.
abbrev a_day_later : Environment
a_day_later = record sound { now = 86_401_000 }

unfoldable acknowledged_again :
    (b : AcknowledgmentRow) × (w'' : World) × (handle_acknowledge_plan_version a_day_later seller 82
        80 acknowledged.1
      ≡ (returned (reply 200 b), w''))
unfolding acknowledged handle_acknowledge_plan_version get_plan query statement append_audit
    get_plan_version_acknowledgment acknowledge_plan_version
acknowledged_again = (_, _, refl)

handle_acknowledge_plan_version_twice_example :
    (is_producer sound seller Role.producer ≡ true)
    × (find (is_acknowledgement 80 6) acknowledged.1.tables.plan_acknowledgments
        ≡ some acknowledged.0)
    × (acknowledged_again.0 ≡ acknowledged.0)
    × (acknowledged_again.1.tables ≡ acknowledged.1.tables)
handle_acknowledge_plan_version_twice_example =
    handle_acknowledge_plan_version_twice sound a_day_later seller 82 82 80 acknowledged.0
      acknowledged_again.0 plan_world acknowledged.1 acknowledged_again.1 acknowledged.2
      acknowledged_again.2
