-- ===== src/Plans/Statements.antt =====
-- The statements of packages/db/src/plans.ts. The two calls of validateTiers are left out: the
-- handlers refuse the tiers that it throws on before. So is the reference of a version to its plan,
-- which the callers have found or added.
use comission_mgmt.Prelude.{
  ℕ, ◌+◌, Bool, true, false, ◌&&◌, Option, none, some, List, [], ◌∷◌, ◌++◌, ◌==◌, ltb,
  if◌then◌else◌, any, find, select, map, update_where,
}
use comission_mgmt.Core.Explanation.Text.{Text}
use comission_mgmt.Store.Tables.{
  Uuid, Tables, PlanRow, PlanVersionRow, PlanVersionState, draft_version, active_version,
  superseded, PlanAssignmentRow, AcknowledgmentRow,
}
use comission_mgmt.Store.Monad.{Environment, M, statement, query, fresh_uuid, return, ◌>>=◌, ◌>>◌}
use comission_mgmt.Exceptions.Statements.{changed, inserted}
use comission_mgmt.Calculation.Statements.{is_active_state}

-- `CreatePlanInput`, whose rules stand as the document that the driver makes of them.
pub record CreatePlanInput : Type 0 where
  pub org_id : Uuid
  pub name : Text
  pub effective_from : ℕ
  pub effective_to : Option ℕ
  pub created_by : Uuid
  pub rules : ℕ

pub record CreatePlanVersionInput : Type 0 where
  pub org_id : Uuid
  pub plan_id : Uuid
  pub rules : ℕ
  pub effective_at : Option ℕ

pub record CreatePlanAssignmentInput : Type 0 where
  pub org_id : Uuid
  pub plan_version_id : Uuid
  pub producer_id : Uuid
  pub expires_at : Option ℕ

abbrev pub is_plan : Uuid → Uuid → PlanRow → Bool
is_plan org_id id p = p.id == id && p.org_id == org_id

abbrev pub is_version_of : Uuid → Uuid → PlanVersionRow → Bool
is_version_of org_id plan_id v = v.org_id == org_id && v.plan_id == plan_id

abbrev pub is_draft_state : PlanVersionState → Bool
is_draft_state PlanVersionState.draft_version = true
is_draft_state _ = false

abbrev pub is_active_of : Uuid → Uuid → PlanVersionRow → Bool
is_active_of org_id plan_id v = is_version_of org_id plan_id v && is_active_state v.status

abbrev pub is_draft_of : Uuid → Uuid → Uuid → PlanVersionRow → Bool
is_draft_of org_id plan_id id v =
    v.id == id && is_version_of org_id plan_id v && is_draft_state v.status

abbrev pub activated : PlanVersionRow → PlanVersionRow
activated v = record v { status = active_version }

abbrev pub retired : PlanVersionRow → PlanVersionRow
retired v = record v { status = superseded }

-- Both updates of the statement read the rows as they were before it.
abbrev pub switched : Uuid → Uuid → Uuid → PlanVersionRow → PlanVersionRow
switched org_id plan_id id v =
    if is_draft_of org_id plan_id id v
    then activated v
    else if is_active_of org_id plan_id v
    then retired v
    else v

abbrev pub switch_versions : Uuid → Uuid → Uuid → Tables → Tables
switch_versions org_id plan_id id t = record t {
  plan_versions = map (switched org_id plan_id id) t.plan_versions;
}

abbrev pub is_plan_version : Uuid → PlanVersionRow → Bool
is_plan_version plan_id v = v.plan_id == plan_id

-- `COALESCE((SELECT MAX(version_num) ...), 0)`.
abbrev pub larger : ℕ → ℕ → ℕ
larger x y = if ltb x y then y else x

abbrev pub max_version : List PlanVersionRow → ℕ
max_version [] = 0
max_version (v ∷ vs) = larger v.version_num (max_version vs)

abbrev pub add_version : PlanVersionRow → Tables → Tables
add_version v t = record t { plan_versions = t.plan_versions ++ (v ∷ []) }

abbrev pub or_now_at : Option ℕ → ℕ → ℕ
or_now_at none now = now
or_now_at (some at) now = at

abbrev pub is_assignment : Uuid → Uuid → PlanAssignmentRow → Bool
is_assignment version_id producer_id a =
    a.plan_version_id == version_id && a.producer_id == producer_id

abbrev pub extended : Option ℕ → PlanAssignmentRow → PlanAssignmentRow
extended expires_at a = record a { expires_at = expires_at }

abbrev pub is_acknowledgement : Uuid → Uuid → AcknowledgmentRow → Bool
is_acknowledgement version_id producer_id a =
    a.plan_version_id == version_id && a.producer_id == producer_id

-- The reference to the version.
abbrev pub has_version : Uuid → Tables → Bool
has_version id t = any (λ v. v.id == id) t.plan_versions

module _ (env : Environment) where
  -- `getPlan`.
  unfoldable pub get_plan : Uuid → Uuid → M (Option PlanRow)
  unfolding query
  get_plan org_id id = query env (λ t. find (is_plan org_id id) t.commission_plans)

  abbrev pub new_plan : Uuid → CreatePlanInput → PlanRow
  new_plan id input = record {
    id = id;
    org_id = input.org_id;
    name = input.name;
    effective_from = input.effective_from;
    effective_to = input.effective_to;
    created_by = input.created_by;
    created_at = env.now;
  }

  abbrev pub new_version : Uuid → Uuid → Uuid → ℕ → ℕ → ℕ → PlanVersionRow
  new_version id org_id plan_id num rules at = record {
    id = id;
    org_id = org_id;
    plan_id = plan_id;
    version_num = num;
    status = draft_version;
    rules_snapshot = rules;
    effective_at = at;
  }

  -- `createPlan`: two statements, in no transaction.
  unfoldable pub create_plan : CreatePlanInput → M (PlanRow × PlanVersionRow)
  unfolding statement
  create_plan input = fresh_uuid env >>= λ id.
      statement env
        (λ t. (tt, record t { commission_plans = t.commission_plans ++ (new_plan id input ∷ []) }))
      >> (fresh_uuid env >>= λ version_id. statement env (λ t. (
        (new_plan id input, new_version version_id input.org_id id 1 input.rules env.now),
        add_version (new_version version_id input.org_id id 1 input.rules env.now) t,
      )))

  abbrev pub next_version : Uuid → CreatePlanVersionInput → Tables → PlanVersionRow
  next_version id input t =
      new_version id input.org_id input.plan_id
        (max_version (select (is_plan_version input.plan_id) t.plan_versions) + 1) input.rules
        (or_now_at input.effective_at env.now)

  -- `createPlanVersion`.
  unfoldable pub create_plan_version : CreatePlanVersionInput → M PlanVersionRow
  unfolding statement
  create_plan_version input = fresh_uuid env >>= λ id.
      statement env (λ t. (next_version id input t, add_version (next_version id input t) t))

  -- `activatePlanVersion`; `none` is the error that it throws when the statement, which is done
  -- then, answers no row.
  unfoldable pub activate_plan_version : Uuid → Uuid → Uuid → M (Option PlanVersionRow)
  unfolding statement
  activate_plan_version org_id plan_id id = statement env (λ t. (
    changed activated (find (is_draft_of org_id plan_id id) t.plan_versions),
    switch_versions org_id plan_id id t,
  ))

  abbrev pub new_assignment : Uuid → CreatePlanAssignmentInput → PlanAssignmentRow
  new_assignment id input = record {
    id = id;
    org_id = input.org_id;
    plan_version_id = input.plan_version_id;
    producer_id = input.producer_id;
    assigned_at = env.now;
    expires_at = input.expires_at;
  }

  -- The upsert; without a row of the key, the version has to be there.
  abbrev pub assign_row :
      Uuid → CreatePlanAssignmentInput → Tables → Option PlanAssignmentRow × Tables
  assign_row id input t =
      let same = is_assignment input.plan_version_id input.producer_id in
      if any same t.plan_assignments
      then (
        changed (extended input.expires_at) (find same t.plan_assignments),
        record t {
          plan_assignments = update_where same (extended input.expires_at) t.plan_assignments;
        },
      )
      else if has_version input.plan_version_id t
      then (
        some (new_assignment id input),
        record t { plan_assignments = t.plan_assignments ++ (new_assignment id input ∷ []) },
      )
      else (none, t)

  -- `createPlanAssignment`.
  unfoldable pub create_plan_assignment : CreatePlanAssignmentInput → M PlanAssignmentRow
  unfolding statement
  create_plan_assignment input =
      fresh_uuid env >>= λ id. statement env (assign_row id input) >>= inserted

  abbrev pub new_acknowledgement : Uuid → Uuid → Uuid → Uuid → AcknowledgmentRow
  new_acknowledgement id org_id version_id producer_id = record {
    id = id;
    org_id = org_id;
    plan_version_id = version_id;
    producer_id = producer_id;
    acknowledged_by = producer_id;
    acknowledged_at = env.now;
  }

  -- `INSERT ... ON CONFLICT DO NOTHING`: the inserted row, if there is no conflict; the first
  -- `none` is a violated reference.
  abbrev pub acknowledge_row :
      Uuid → Uuid → Uuid → Uuid → Tables → Option (Option AcknowledgmentRow) × Tables
  acknowledge_row id org_id version_id producer_id t =
      if any (is_acknowledgement version_id producer_id) t.plan_acknowledgments
      then (some none, t)
      else if has_version version_id t
      then (
        some (some (new_acknowledgement id org_id version_id producer_id)),
        record t {
          plan_acknowledgments =
              t.plan_acknowledgments ++ (new_acknowledgement id org_id version_id producer_id ∷ []);
        },
      )
      else (none, t)

  abbrev pub or_existing : Uuid → Uuid → Option AcknowledgmentRow → M AcknowledgmentRow
  or_existing version_id producer_id (some a) = return a
  or_existing version_id producer_id none =
      query env (λ t. find (is_acknowledgement version_id producer_id) t.plan_acknowledgments)
      >>= inserted

  -- `acknowledgePlanVersion`, by the producer.
  unfoldable pub acknowledge_plan_version : Uuid → Uuid → Uuid → M AcknowledgmentRow
  unfolding query statement
  acknowledge_plan_version org_id version_id producer_id = fresh_uuid env >>= λ id.
      statement env (acknowledge_row id org_id version_id producer_id)
      >>= inserted
      >>= or_existing version_id producer_id

  -- `getPlanVersionAcknowledgment`.
  unfoldable pub get_plan_version_acknowledgment : Uuid → Uuid → Uuid → M (Option AcknowledgmentRow)
  unfolding query
  get_plan_version_acknowledgment org_id version_id producer_id = query env (λ t.
      find (λ a. a.org_id == org_id && is_acknowledgement version_id producer_id a)
        t.plan_acknowledgments)
