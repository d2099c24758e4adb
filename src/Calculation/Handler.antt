-- ===== src/Calculation/Handler.antt =====
-- `handleCalculateCommission` of apps/server/src/api/calculate.ts, over any numbers. Reading a
-- number, printing a date and reading a rules snapshot are the standard library's and the driver's.
use comission_mgmt.Prelude.{
  ℕ, Bool, true, false, not, Option, none, some, List, [], ◌∷◌, ◌++◌, ◌==◌, if◌then◌else◌,
}
use comission_mgmt.Core.Number.{Number}
use comission_mgmt.Core.Explanation.Text.{Text, Format}
use comission_mgmt.Core.Engine.Stages.{
  CalculationInput, PlanRulesSnapshot, RateType, CommissionRecordStatus,
  commission_calculation_engine,
}
use comission_mgmt.Core.Engine.Pipeline.{CommissionRecord, run_calculation_pipeline}
use comission_mgmt.Core.Lifecycle.States.{PlacementState}
use comission_mgmt.Store.Tables.{
  Uuid, ContributorRow, PlanVersionRow, PlacementRow, CommissionRecordRow, CommissionState,
  HoldReason, collection_gate, guarantee_hold,
}
use comission_mgmt.Store.Monad.{
  Environment, M, return, attempt, ◌>>=◌, Response, reply, refuse, SessionClaims,
}
use comission_mgmt.Clawback.Statements.{get_placement}
use comission_mgmt.Calculation.Statements.{
  CreateCommissionRecordInput, resolve_active_plan_version, resolve_nought,
  resolve_invoice_collected, resolve_inside_guarantee_window, list_contributors,
  create_commission_record,
}

-- What the standard library and the driver read and print.
pub record Reading {ℓ} (A : Type ℓ) : Type ℓ where
  pub number_of : Text → A
  pub date_text : ℕ → Text
  pub rules_of : ℕ → PlanRulesSnapshot A

abbrev pub is_active : PlacementState → Bool
is_active PlacementState.active = true
is_active _ = false

abbrev pub is_net_fee : Option RateType → Bool
is_net_fee (some RateType.net_fee_income) = true
is_net_fee _ = false

abbrev pub is_held_status : CommissionRecordStatus → Bool
is_held_status CommissionRecordStatus.held = true
is_held_status _ = false

abbrev pub is_inside : Option ℕ → Bool
is_inside none = false
is_inside (some d) = true

-- An entry of the answer: the row of the database, and the record that the pipeline made.
pub record Created {ℓ} (A : Type ℓ) : Type ℓ where
  pub row : CommissionRecordRow
  pub calculated : CommissionRecord A

module _ {ℓ} {A : Type ℓ} where
  -- The hold reason of a record.
  abbrev pub hold_reason_of : CommissionRecord A → Option HoldReason
  hold_reason_of r =
      if is_held_status r.status
      then (if r.held_for_collection
          then some collection_gate
          else if r.held_for_guarantee
          then some guarantee_hold
          else none)
      else none

  abbrev pub state_of : CommissionRecord A → CommissionState
  state_of r = if is_held_status r.status then CommissionState.held else CommissionState.accrued

module _ {ℓ} {A : Type ℓ} ⦃n : Number A⦄ ⦃f : Format A⦄ (reading : Reading A) where
  open reading use {number_of, date_text, rules_of}

  abbrev pub expiry_text : Option ℕ → Option Text
  expiry_text none = none
  expiry_text (some d) = some (date_text d)

  -- The input of the pipeline for a contributor.
  abbrev pub calculation_input :
      Uuid
      → PlacementRow
      → ContributorRow
      → PlanVersionRow
      → A
      → A
      → Bool
      → Option ℕ
      → CalculationInput A
  calculation_input org_id p c v ytd draw collected window = record {
    org_id = org_id;
    contributor_id = c.id;
    placement_id = p.id;
    commissionable_base = number_of (
        if is_net_fee (rules_of v.rules_snapshot).rate_type
        then p.compensation_base
        else p.fee_amount);
    split_pct = number_of c.split_pct;
    plan_rules = some (rules_of v.rules_snapshot);
    ytd_gross = ytd;
    invoice_collected = collected;
    inside_guarantee_window = is_inside window;
    draw_balance = draw;
  }

  abbrev pub create_input :
      Uuid
      → PlacementRow
      → ContributorRow
      → PlanVersionRow
      → CommissionRecord A
      → CreateCommissionRecordInput
  create_input org_id p c v r = record {
    org_id = org_id;
    placement_id = p.id;
    contributor_id = c.id;
    plan_version_id = v.id;
    gross_amount = f.to_fixed r.gross_commission 4;
    net_payable = f.to_fixed r.net_payable 4;
    status = state_of r;
    explanation = some r.explanation;
    hold_reason = hold_reason_of r;
  }

  module _ (env : Environment) (claims : SessionClaims) (p : PlacementRow) where
    abbrev pub Rest : Type ℓ
    Rest = List (Created A) → M (Response (List (Created A)))

    -- The entry of a contributor, and the next one.
    abbrev pub persisted :
        Rest
        → List (Created A)
        → CommissionRecord A
        → Option CommissionRecordRow
        → M (Response (List (Created A)))
    persisted rest done r none = return (refuse 500 "Failed to persist commission record")
    persisted rest done r (some row) = rest (done ++ (record { row = row; calculated = r } ∷ []))

    abbrev pub persist :
        Rest
        → List (Created A)
        → ContributorRow
        → PlanVersionRow
        → Option (CommissionRecord A)
        → M (Response (List (Created A)))
    persist rest done c v none = return (refuse 422 "Calculation pipeline failed for contributor")
    persist rest done c v (some r) =
        attempt (create_commission_record env (create_input claims.org_id p c v r))
        >>= persisted rest done r

    abbrev pub calculate_with :
        Rest
        → List (Created A)
        → Bool
        → Option ℕ
        → ContributorRow
        → Option PlanVersionRow
        → M (Response (List (Created A)))
    calculate_with rest done collected window c none =
        return (refuse 422 "No active plan version found for contributor")
    calculate_with rest done collected window c (some v) = resolve_nought env n.nought >>= λ ytd.
        resolve_nought env n.nought >>= λ draw. persist rest done c v (
          run_calculation_pipeline commission_calculation_engine
            (calculation_input claims.org_id p c v ytd draw collected window) (some v.id)
            (expiry_text window))

    -- The loop over the contributors; what ends it leaves the records that it made.
    unfoldable pub calculate_all :
        Bool → Option ℕ → List ContributorRow → List (Created A) → M (Response (List (Created A)))
    unfolding resolve_active_plan_version create_commission_record run_calculation_pipeline
    calculate_all collected window [] done = return (reply 200 done)
    calculate_all collected window (c ∷ cs) done =
        resolve_active_plan_version env claims.org_id c.producer_id
        >>= calculate_with (calculate_all collected window cs) done collected window c

  module _ (env : Environment) (claims : SessionClaims) where
    abbrev pub with_contributors :
        PlacementRow → Option (List ContributorRow) → M (Response (List (Created A)))
    with_contributors p none = return (refuse 500 "Failed to retrieve contributors")
    with_contributors p (some []) = return (refuse 422 "Placement has no contributors")
    with_contributors p (some (c ∷ cs)) =
        resolve_invoice_collected env claims.org_id p.id >>= λ collected.
        resolve_inside_guarantee_window env claims.org_id p.id >>= λ window.
        calculate_all env claims p collected window (c ∷ cs) []

    abbrev pub with_placement : Option (Option PlacementRow) → M (Response (List (Created A)))
    with_placement none = return (refuse 500 "Failed to retrieve placement")
    with_placement (some none) = return (refuse 404 "Placement not found")
    with_placement (some (some p)) =
        if not (p.org_id == claims.org_id)
        then return (refuse 404 "Placement not found")
        else if not (is_active p.status)
        then return (refuse 409 "Placement is not Active")
        else attempt (list_contributors env p.id) >>= with_contributors p

    -- `handleCalculateCommission`.
    unfoldable pub handle_calculate_commission : Uuid → M (Response (List (Created A)))
    unfolding get_placement list_contributors resolve_invoice_collected
        resolve_inside_guarantee_window calculate_all
    handle_calculate_commission placement_id =
        attempt (get_placement env placement_id) >>= with_placement
