-- ===== src/Core/Engine/Pipeline.antt =====
-- `runCalculationPipeline` over any implementation of the engine interface.
use comission_mgmt.Prelude.{ℕ, Bool, not, ◌&&◌, ◌||◌, Option, none, some, if◌then◌else◌}
use comission_mgmt.Core.Number.{Number}
use comission_mgmt.Core.Explanation.Text.{Text, Format}
use comission_mgmt.Core.Explanation.Sentences.{generate_explanation}
use comission_mgmt.Core.Engine.Stages.{
  CalculationInput, CalculationEngine, TieredResult, DrawRecoveryResult, PayableResult,
  CommissionRecordStatus, accrued, held, or_else, base_rate_of, desk_cost_of,
}

-- `CommissionRecord`.
pub record CommissionRecord {ℓ} (A : Type ℓ) : Type ℓ where
  pub gross_commission : A
  pub net_payable : A
  pub draw_deducted : A
  pub tier_rate : Option A
  pub status : CommissionRecordStatus
  pub held_for_collection : Bool
  pub held_for_guarantee : Bool
  pub explanation : Text

-- `planVersionId ?? input.placementId`.
abbrev pub id_or : Option ℕ → ℕ → ℕ
id_or none d = d
id_or (some x) d = x

module _ {ℓ} {A : Type ℓ} ⦃n : Number A⦄ where
  -- `x !== y` on numbers that are not NaN.
  abbrev pub differ : A → A → Bool
  differ x y = not (n.le x y && n.le y x)

  abbrev pub is_tiered : Option A → A → Bool
  is_tiered none base = Bool.false
  is_tiered (some r) base = differ r base

  module _ ⦃f : Format A⦄ where
    -- The record for the results of the stages.
    unfoldable pub record_of :
        CalculationInput A
        → A
        → TieredResult A
        → DrawRecoveryResult A
        → PayableResult A
        → Option ℕ
        → Option Text
        → CommissionRecord A
    record_of i credited tiered recovery final plan_version_id guarantee_expiry = record {
      gross_commission = tiered.tiered_gross;
      net_payable = final.net_payable;
      draw_deducted = recovery.draw_deducted;
      tier_rate = tiered.applied_rate;
      status = if final.held_for_collection || final.held_for_guarantee then held else accrued;
      held_for_collection = final.held_for_collection;
      held_for_guarantee = final.held_for_guarantee;
      explanation = generate_explanation (record {
        commissionable_base = i.commissionable_base;
        split_pct = i.split_pct;
        credited_base = credited;
        applied_rate = or_else tiered.applied_rate n.nought;
        is_tiered_rate = is_tiered tiered.applied_rate (base_rate_of i.plan_rules);
        gross_commission = tiered.tiered_gross;
        desk_cost = desk_cost_of i.plan_rules;
        draw_deducted = recovery.draw_deducted;
        net_payable = final.net_payable;
        held_for_collection = final.held_for_collection;
        held_for_guarantee = final.held_for_guarantee;
        guarantee_expiry = guarantee_expiry;
        plan_version_id = id_or plan_version_id i.placement_id;
        placement_id = i.placement_id;
      });
    }

    abbrev pub run_stages :
        CalculationEngine A
        → CalculationInput A
        → Option ℕ
        → Option Text
        → Option A
        → Option (CommissionRecord A)
    run_stages engine i plan_version_id guarantee_expiry none = none
    run_stages engine i plan_version_id guarantee_expiry (some credited) =
        let tiered = engine.apply_tiers credited i in
        let recovery = engine.recover_draw tiered i in
        let gated = engine.gate_on_collection recovery i in
        let final = engine.apply_guarantee_hold gated i in
        some (record_of i credited tiered recovery final plan_version_id guarantee_expiry)

    -- `none` is an error of stage 1, which the other stages cannot throw.
    unfoldable pub run_calculation_pipeline :
        CalculationEngine A
        → CalculationInput A
        → Option ℕ
        → Option Text
        → Option (CommissionRecord A)
    unfolding record_of
    run_calculation_pipeline engine i plan_version_id guarantee_expiry =
        run_stages engine i plan_version_id guarantee_expiry (engine.calculate_base i)
