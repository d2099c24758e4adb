-- ===== src/Calculation/Statements.antt =====
-- The statements that the calculation runs: the resolvers of apps/server/src/api/calculate.ts,
-- `listContributors` of packages/db/src/contributors.ts and `createCommissionRecord` of
-- packages/db/src/commission-records.ts, without the column tier_rate.
use comission_mgmt.Prelude.{
  ℕ, Bool, true, false, ◌&&◌, Option, none, some, List, [], ◌∷◌, ◌++◌, ◌==◌, leb, ltb, any, all,
  find, select, sort_by,
}
use comission_mgmt.Prelude.First.{first_by}
use comission_mgmt.Core.Explanation.Text.{Text}
use comission_mgmt.Store.Tables.{
  Uuid, Tables, ContributorRow, PlanVersionRow, PlanVersionState, PlanAssignmentRow, InvoiceRow,
  GuaranteePeriodRow, CommissionRecordRow, CommissionState, HoldReason,
}
use comission_mgmt.Store.Monad.{Environment, M, statement, query, fresh_uuid, return, ◌>>=◌, ◌>>◌}
use comission_mgmt.Guarantee.Statements.{is_in_force}
use comission_mgmt.Invoices.Statements.{is_paid}

abbrev pub is_active_state : PlanVersionState → Bool
is_active_state PlanVersionState.active_version = true
is_active_state _ = false

abbrev pub is_active_version : Uuid → PlanVersionRow → Bool
is_active_version id v = v.id == id && is_active_state v.status

-- `expires_at IS NULL OR expires_at > NOW()`.
abbrev pub is_unexpired : ℕ → Option ℕ → Bool
is_unexpired now none = true
is_unexpired now (some at) = ltb now at

-- The rows of the join: the assignments of the producer that are in effect.
abbrev pub is_assigned : ℕ → Uuid → Uuid → List PlanVersionRow → PlanAssignmentRow → Bool
is_assigned now org_id producer_id versions a =
    a.org_id == org_id
    && a.producer_id == producer_id
    && any (is_active_version a.plan_version_id) versions
    && is_unexpired now a.expires_at

abbrev pub assigned_later : PlanAssignmentRow → PlanAssignmentRow → Bool
assigned_later a b = ltb b.assigned_at a.assigned_at

abbrev pub effective_later : PlanVersionRow → PlanVersionRow → Bool
effective_later v u = ltb u.effective_at v.effective_at

abbrev pub version_of : List PlanVersionRow → Option PlanAssignmentRow → Option PlanVersionRow
version_of versions none = none
version_of versions (some a) = find (is_active_version a.plan_version_id) versions

-- The version that was assigned to the producer last.
abbrev pub assigned_version : ℕ → Uuid → Uuid → Tables → Option PlanVersionRow
assigned_version now org_id producer_id t = version_of t.plan_versions (
    first_by assigned_later
      (select (is_assigned now org_id producer_id t.plan_versions) t.plan_assignments))

-- The active version of the organisation that took effect last.
abbrev pub fallback_version : Uuid → Tables → Option PlanVersionRow
fallback_version org_id t =
    first_by effective_later
      (select (λ v. v.org_id == org_id && is_active_state v.status) t.plan_versions)

abbrev pub is_invoice_of : Uuid → Uuid → InvoiceRow → Bool
is_invoice_of org_id placement_id i = i.org_id == org_id && i.placement_id == placement_id

-- There are invoices, and all of them are paid.
abbrev pub all_paid : List InvoiceRow → Bool
all_paid [] = false
all_paid (i ∷ is) = all (λ j. is_paid j.status) (i ∷ is)

abbrev pub invoice_collected_in : Uuid → Uuid → Tables → Bool
invoice_collected_in org_id placement_id t =
    all_paid (select (is_invoice_of org_id placement_id) t.invoices)

abbrev pub is_current_period : ℕ → Uuid → Uuid → GuaranteePeriodRow → Bool
is_current_period today org_id placement_id g =
    g.org_id == org_id
    && g.placement_id == placement_id
    && is_in_force g.status
    && leb today g.guarantee_ends

abbrev pub guarantee_end_of : Option GuaranteePeriodRow → Option ℕ
guarantee_end_of none = none
guarantee_end_of (some g) = some g.guarantee_ends

-- The end of a guarantee that runs.
abbrev pub guarantee_in : ℕ → Uuid → Uuid → Tables → Option ℕ
guarantee_in today org_id placement_id t =
    guarantee_end_of (find (is_current_period today org_id placement_id) t.guarantee_periods)

abbrev pub contributors_in : Uuid → Tables → List ContributorRow
contributors_in placement_id t =
    sort_by (λ c. c.created_at) (select (λ c. c.placement_id == placement_id) t.contributors)

-- `CreateCommissionRecordInput`, of the handler's use.
pub record CreateCommissionRecordInput : Type 0 where
  pub org_id : Uuid
  pub placement_id : Uuid
  pub contributor_id : Uuid
  pub plan_version_id : Uuid
  pub gross_amount : Text
  pub net_payable : Text
  pub status : CommissionState
  pub explanation : Option Text
  pub hold_reason : Option HoldReason

module _ (env : Environment) where
  -- `resolveActivePlanVersion`.
  abbrev pub or_fallback : Uuid → Option PlanVersionRow → M (Option PlanVersionRow)
  or_fallback org_id (some v) = return (some v)
  or_fallback org_id none = query env (fallback_version org_id)

  unfoldable pub resolve_active_plan_version : Uuid → Uuid → M (Option PlanVersionRow)
  unfolding query
  resolve_active_plan_version org_id producer_id =
      query env (assigned_version env.now org_id producer_id) >>= or_fallback org_id

  -- `resolveYtdGross` and `resolveDrawBalance`: each runs its query and answers 0 whatever it finds.
  abbrev pub resolve_nought {ℓ} : {A : Type ℓ} → A → M A
  resolve_nought nought = query env (λ t. tt {0}) >> return nought

  -- `resolveInvoiceCollected`.
  unfoldable pub resolve_invoice_collected : Uuid → Uuid → M Bool
  unfolding query
  resolve_invoice_collected org_id placement_id =
      query env (invoice_collected_in org_id placement_id)

  -- `resolveInsideGuaranteeWindow`: the expiry date, if the placement is inside the window.
  unfoldable pub resolve_inside_guarantee_window : Uuid → Uuid → M (Option ℕ)
  unfolding query
  resolve_inside_guarantee_window org_id placement_id =
      query env (guarantee_in env.today org_id placement_id)

  -- `listContributors`.
  unfoldable pub list_contributors : Uuid → M (List ContributorRow)
  unfolding query
  list_contributors placement_id = query env (contributors_in placement_id)

  abbrev pub new_record : Uuid → CreateCommissionRecordInput → CommissionRecordRow
  new_record id input = record {
    id = id;
    org_id = input.org_id;
    placement_id = input.placement_id;
    contributor_id = input.contributor_id;
    plan_version_id = input.plan_version_id;
    gross_amount = input.gross_amount;
    net_payable = input.net_payable;
    explanation = input.explanation;
    billing_phase_id = none;
    status = input.status;
    hold_reason = input.hold_reason;
    approval_actor = none;
    approval_at = none;
    created_at = env.now;
  }

  abbrev pub add_record : CommissionRecordRow → Tables → Tables
  add_record c t = record t { commission_records = t.commission_records ++ (c ∷ []) }

  -- `createCommissionRecord`.
  unfoldable pub create_commission_record : CreateCommissionRecordInput → M CommissionRecordRow
  unfolding statement
  create_commission_record input = fresh_uuid env >>= λ id.
      statement env (λ t. (new_record id input, add_record (new_record id input) t))
