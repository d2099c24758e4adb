-- ===== src/Scenarios/Numbers.antt =====
-- The commission rules on fixed-point numbers.
use comission_mgmt.Prelude.{
  ◌≡◌, refl, ◌⊎◌, inl, true, false, none, some, List, [], ◌∷◌, Any, ◌↔◌, arith,
}
use comission_mgmt.Prelude.Int.{pos, ◌-ℤ◌, ◌+ℤ◌}
use comission_mgmt.Core.Number.{Fixed, fixed_number, Fixed-IsOrdered}
use comission_mgmt.Core.Tiers.Scan.{
  TierRule, TierProgressInput, compute_tier_progress, select_tier, rate_of, validate_tiers,
}
use comission_mgmt.Core.Tiers.Progress.{IsCurrent, IsNext, IsRemaining, compute_tier_progress_lem}
use comission_mgmt.Core.Tiers.Selection.{select_tier-IsCurrent}
use comission_mgmt.Core.Tiers.Agreement.{current_tier_rate-eq-select_tier}
use comission_mgmt.Core.Explanation.Text.{Format, codes}
use comission_mgmt.Core.Engine.Stages.{
  CalculationInput, gross_fee, first_dollar, commission_calculation_engine, calculate_base,
  apply_tiers, recover_draw, gate_on_collection, apply_guarantee_hold,
}
use comission_mgmt.Core.Engine.Pipeline.{CommissionRecord, run_calculation_pipeline, record_of}
use comission_mgmt.Core.Engine.Bounds.{IsBounded, run_calculation_pipeline-IsBounded}
use comission_mgmt.Core.Engine.Holds.{
  IsHeldRight, run_calculation_pipeline-IsHeldRight, run_calculation_pipeline-draw_first,
}
use comission_mgmt.Core.Lifecycle.States.{
  PlacementState, contributors_assigned, pending_approval, active, invoiced, collected,
  guarantee_active, guarantee_expired, closed, can_transition, created,
}
use comission_mgmt.Core.Lifecycle.Traces.{guarantee_history, closed_reachable, IsTrace, last_from}

-- A formatting that prints every number as 1.00.
instance abbrev pub fixed_format : Format Fixed
fixed_format = record {
  to_fixed = λ x digits. codes "1.00";
  reparse = λ t. t;
  hundred = pos 1_000_000;
}

-- 10 % from 0, 20 % from 50, 30 % from 100.
abbrev three_tiers : List (TierRule Fixed)
three_tiers =
    record { threshold = pos 0; rate = pos 1_000 }
    ∷ record { threshold = pos 500_000; rate = pos 2_000 }
    ∷ record { threshold = pos 1_000_000; rate = pos 3_000 }
    ∷ []

abbrev progress_input : TierProgressInput Fixed
progress_input = record {
  current_period_production = pos 600_000;
  tiers = three_tiers;
  base_rate = pos 500;
}

-- A half of a placement of 1000, without a hold, and with a draw of 30.
abbrev sample_input : CalculationInput Fixed
sample_input = record {
  org_id = 1;
  contributor_id = 2;
  placement_id = 3;
  commissionable_base = pos 10_000_000;
  split_pct = pos 5_000;
  plan_rules = some (record {
    rate_type = some gross_fee;
    base_rate = pos 500;
    tiers = some three_tiers;
    desk_cost = some (pos 1_000_000);
    draw_recovery_mode = some first_dollar;
  });
  ytd_gross = pos 0;
  invoice_collected = true;
  inside_guarantee_window = false;
  draw_balance = pos 300_000;
}

-- (500 - 100) at 30 % is 120, and the draw takes 30.
unfoldable sample_run :
    (r : CommissionRecord Fixed) × (run_calculation_pipeline commission_calculation_engine
        sample_input none none
      ≡ some r)
unfolding run_calculation_pipeline calculate_base
sample_run = (_, refl)

sample_amounts :
    (sample_run.0.gross_commission ≡ pos 1_200_000) × (sample_run.0.net_payable ≡ pos 900_000)
unfolding sample_run run_calculation_pipeline calculate_base record_of apply_tiers recover_draw
    gate_on_collection apply_guarantee_hold select_tier ◌-ℤ◌ ◌+ℤ◌
sample_amounts = (refl, refl)

compute_tier_progress_lem_example :
    let out = compute_tier_progress progress_input in
    (out.current_period_production ≡ pos 600_000)
    × IsCurrent (pos 600_000) (pos 500) three_tiers out.current_tier_rate
    × IsNext (pos 600_000) three_tiers out.next_tier_threshold
    × IsRemaining (pos 600_000) out.next_tier_threshold out.remaining_to_next_tier
compute_tier_progress_lem_example = compute_tier_progress_lem Fixed-IsOrdered progress_input

select_tier-IsCurrent_example :
    IsCurrent
      (pos 600_000)
      (pos 500)
      three_tiers
      (rate_of (select_tier (pos 600_000) none three_tiers) (pos 500))
select_tier-IsCurrent_example =
    select_tier-IsCurrent Fixed-IsOrdered (pos 600_000) (pos 500) three_tiers

three_tiers_valid : validate_tiers three_tiers ≡ true
unfolding validate_tiers
three_tiers_valid = refl

current_tier_rate-eq-select_tier_example :
    (compute_tier_progress progress_input).current_tier_rate
    ≡ rate_of (select_tier (pos 600_000) none three_tiers) (pos 500)
current_tier_rate-eq-select_tier_example =
    current_tier_rate-eq-select_tier Fixed-IsOrdered progress_input three_tiers_valid

run_calculation_pipeline-IsBounded_example : IsBounded sample_input sample_run.0
run_calculation_pipeline-IsBounded_example =
    run_calculation_pipeline-IsBounded Fixed-IsOrdered sample_input none none sample_run.0 refl
      ((refl, refl), ((refl, refl), ((refl, refl), ((refl, refl), tt))), refl) sample_run.1

run_calculation_pipeline-IsHeldRight_example : IsHeldRight sample_input sample_run.0
run_calculation_pipeline-IsHeldRight_example =
    run_calculation_pipeline-IsHeldRight sample_input none none sample_run.0 sample_run.1

run_calculation_pipeline-draw_first_example :
    (sample_run.0.draw_deducted ≡ pos 300_000) ⊎ (sample_run.0.net_payable ≡ pos 0)
run_calculation_pipeline-draw_first_example =
    run_calculation_pipeline-draw_first Fixed-IsOrdered sample_input none none sample_run.0
      sample_run.1

-- A placement from its creation to the end of its guarantee.
abbrev full_life : List PlacementState
full_life =
    contributors_assigned ∷ pending_approval ∷ active ∷ invoiced ∷ collected ∷ guarantee_active
    ∷ guarantee_expired ∷ []

full_life-IsTrace : IsTrace created full_life
unfolding can_transition
full_life-IsTrace = ground arith

guarantee_history_example :
    Any (λ t. t ≡ active) full_life
    × Any (λ t. t ≡ invoiced) full_life
    × Any (λ t. t ≡ collected) full_life
    × Any (λ t. t ≡ guarantee_active) full_life
guarantee_history_example = guarantee_history full_life full_life-IsTrace (inl refl)

closed_reachable_example :
    ((ts : List PlacementState) × IsTrace active ts × (last_from active ts ≡ closed))
    × (((t : PlacementState) → can_transition active t ≡ false) ↔ (active ≡ closed))
closed_reachable_example = closed_reachable active
