-- ===== src/Core/Engine/Stages.antt =====
-- The five stages, the interface that they implement, and `runCalculationPipeline` over it.
use comission_mgmt.Prelude.{
  ℕ, Bool, true, false, not, ◌||◌, Option, none, some, List, if◌then◌else◌,
}
use comission_mgmt.Core.Number.{Number, ◌⊕◌, ◌⊖◌, ◌⊗◌, lt, max, min}
use comission_mgmt.Core.Tiers.Scan.{TierRule, select_tier, rate_of}

-- `draw_recovery_mode` and `rate_type`.
pub data RateType : Type 0 where
  gross_fee net_fee_income : RateType

pub data DrawRecoveryMode : Type 0 where
  no_recovery pro_rata first_dollar : DrawRecoveryMode

-- `PlanRulesSnapshot`; an absent key is `none`.
pub record PlanRulesSnapshot {ℓ} (A : Type ℓ) : Type ℓ where
  pub rate_type : Option RateType
  pub base_rate : A
  pub tiers : Option (List (TierRule A))
  pub desk_cost : Option A
  pub draw_recovery_mode : Option DrawRecoveryMode

-- `CalculationInput`; `planRules` is null or a snapshot.
pub record CalculationInput {ℓ} (A : Type ℓ) : Type ℓ where
  pub org_id : ℕ
  pub contributor_id : ℕ
  pub placement_id : ℕ
  pub commissionable_base : A
  pub split_pct : A
  pub plan_rules : Option (PlanRulesSnapshot A)
  pub ytd_gross : A
  pub invoice_collected : Bool
  pub inside_guarantee_window : Bool
  pub draw_balance : A

-- `TieredResult`.
pub record TieredResult {ℓ} (A : Type ℓ) : Type ℓ where
  pub tiered_gross : A
  pub applied_rate : Option A

-- `DrawRecoveryResult`.
pub record DrawRecoveryResult {ℓ} (A : Type ℓ) : Type ℓ where
  pub net_after_draw : A
  pub draw_deducted : A

-- `PayableResult`.
pub record PayableResult {ℓ} (A : Type ℓ) : Type ℓ where
  pub net_payable : A
  pub held_for_collection : Bool
  pub held_for_guarantee : Bool

-- `CommissionRecordStatus`.
pub data CommissionRecordStatus : Type 0 where
  accrued held payable : CommissionRecordStatus

-- `CalculationEngine`: the interface that the pipeline runs. `BaseResult` is its one field.
pub record CalculationEngine {ℓ} (A : Type ℓ) : Type ℓ where
  pub calculate_base : CalculationInput A → Option A
  pub apply_tiers : A → CalculationInput A → TieredResult A
  pub recover_draw : TieredResult A → CalculationInput A → DrawRecoveryResult A
  pub gate_on_collection : DrawRecoveryResult A → CalculationInput A → PayableResult A
  pub apply_guarantee_hold : PayableResult A → CalculationInput A → PayableResult A

module _ {ℓ} {A : Type ℓ} where
  -- `x ?? d`, and `rules?.field ?? d`.
  abbrev pub or_else : Option A → A → A
  or_else none d = d
  or_else (some x) d = x

module _ {ℓ} {A : Type ℓ} ⦃n : Number A⦄ where
  abbrev pub base_rate_of : Option (PlanRulesSnapshot A) → A
  base_rate_of none = n.nought
  base_rate_of (some r) = r.base_rate

  abbrev pub desk_cost_of : Option (PlanRulesSnapshot A) → A
  desk_cost_of none = n.nought
  desk_cost_of (some r) = or_else r.desk_cost n.nought

  abbrev pub tiers_of : Option (PlanRulesSnapshot A) → Option (List (TierRule A))
  tiers_of none = none
  tiers_of (some r) = r.tiers

  -- Stage 1.
  unfoldable pub calculate_base : CalculationInput A → Option A
  calculate_base i =
      if n.le i.split_pct n.nought || lt n.one i.split_pct
      then none
      else some (i.commissionable_base ⊗ i.split_pct)

  -- `rules?.tiers && rules.tiers.length > 0`: on no tiers at all the loop selects none, so that the
  -- base rate comes out either way.
  abbrev pub applied_rate : Option (List (TierRule A)) → A → A → A
  applied_rate none production base = base
  applied_rate (some ts) production base = rate_of (select_tier production none ts) base

  -- Stage 2.
  unfoldable pub apply_tiers : A → CalculationInput A → TieredResult A
  apply_tiers credited_base i =
      let rules = i.plan_rules in
      let rate = applied_rate (tiers_of rules) (i.ytd_gross ⊕ credited_base) (base_rate_of rules) in
      record {
        tiered_gross = max n.nought (credited_base ⊖ desk_cost_of rules) ⊗ rate;
        applied_rate = some rate;
      }

  -- Stage 3.
  unfoldable pub recover_draw : TieredResult A → CalculationInput A → DrawRecoveryResult A
  recover_draw t i =
      let deducted = min t.tiered_gross (max n.nought i.draw_balance) in
      record { net_after_draw = t.tiered_gross ⊖ deducted; draw_deducted = deducted }

  -- Stage 4.
  unfoldable pub gate_on_collection : DrawRecoveryResult A → CalculationInput A → PayableResult A
  gate_on_collection r i =
      if not i.invoice_collected
      then record { net_payable = n.nought; held_for_collection = true; held_for_guarantee = false }
      else (record {
        net_payable = r.net_after_draw;
        held_for_collection = false;
        held_for_guarantee = false;
      })

  -- Stage 5.
  unfoldable pub apply_guarantee_hold : PayableResult A → CalculationInput A → PayableResult A
  apply_guarantee_hold p i =
      if i.inside_guarantee_window
      then (record {
        net_payable = n.nought;
        held_for_collection = p.held_for_collection;
        held_for_guarantee = true;
      })
      else p

  -- `CommissionCalculationEngine`.
  abbrev pub commission_calculation_engine : CalculationEngine A
  commission_calculation_engine = record {
    calculate_base = calculate_base;
    apply_tiers = apply_tiers;
    recover_draw = recover_draw;
    gate_on_collection = gate_on_collection;
    apply_guarantee_hold = apply_guarantee_hold;
  }
