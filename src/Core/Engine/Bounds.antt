-- ===== src/Core/Engine/Bounds.antt =====
-- The amounts of a commission stay inside the commissionable base.
use mathlib.Core.Path.{subst}
use mathlib.Core.Option.{some-injective}
use comission_mgmt.Prelude.{
  ℕ, Bool, ◌≡◌, inl, inr, true, false, Option, none, some, List, [], ◌∷◌, arith, All, if◌then◌else◌,
  Option-cases,
}
use comission_mgmt.Core.Number.{Number, IsOrdered, ◌≼◌, ◌⊖◌, ◌⊕◌, max, min}
use comission_mgmt.Core.Explanation.Text.{Text, Format}
use comission_mgmt.Core.Tiers.Scan.{TierRule, select_tier, rate_of}
use comission_mgmt.Core.Engine.Stages.{
  PlanRulesSnapshot, CalculationInput, TieredResult, commission_calculation_engine, calculate_base,
  apply_tiers, recover_draw, gate_on_collection, apply_guarantee_hold, base_rate_of, desk_cost_of,
  tiers_of, applied_rate,
}
use comission_mgmt.Core.Engine.Pipeline.{
  CommissionRecord, record_of, run_stages, run_calculation_pipeline,
}

module _ {A : Type 0} ⦃n : Number A⦄ where
  abbrev pub IsFraction : A → Type 0
  IsFraction x = (n.nought ≼ x) × (x ≼ n.one)

  abbrev pub IsFractionTiers : Option (List (TierRule A)) → Type 0
  IsFractionTiers none = Unit
  IsFractionTiers (some ts) = All (λ t. IsFraction t.rate) ts

  -- Rates from 0 to 1 and a desk cost that is not negative. Plan validation asks for it of the base
  -- rate only, not of the tiers' rates and the desk cost.
  abbrev pub IsSound : Option (PlanRulesSnapshot A) → Type 0
  IsSound rules =
      IsFraction (base_rate_of rules)
      × IsFractionTiers (tiers_of rules)
      × (n.nought ≼ desk_cost_of rules)

  kept-IsFraction :
      (b : Bool) (base : A) (selected : Option (TierRule A)) (t : TierRule A)
      → IsFraction (rate_of selected base)
      → IsFraction t.rate
      → IsFraction (rate_of (if b then some t else selected) base)
  kept-IsFraction true base selected t h k = k
  kept-IsFraction false base selected t h k = h

  select_tier-IsFraction :
      (p base : A) (ts : List (TierRule A)) (selected : Option (TierRule A))
      → IsFraction (rate_of selected base)
      → All (λ t. IsFraction t.rate) ts
      → IsFraction (rate_of (select_tier p selected ts) base)
  unfolding select_tier
  select_tier-IsFraction p base [] selected h hs = h
  select_tier-IsFraction p base (t ∷ ts) selected h hs =
      select_tier-IsFraction p base ts _ (kept-IsFraction _ base selected t h hs.0) hs.1

  applied_rate-IsFraction :
      (o : Option (List (TierRule A))) (p base : A)
      → IsFraction base
      → IsFractionTiers o
      → IsFraction (applied_rate o p base)
  applied_rate-IsFraction none p base h hs = h
  applied_rate-IsFraction (some ts) p base h hs = select_tier-IsFraction p base ts none h hs

  -- The gross commission lies between zero and the commissionable base, the draw deducted and the
  -- net payable between zero and the gross commission.
  abbrev pub IsBounded : CalculationInput A → CommissionRecord A → Type 0
  IsBounded i r =
      (n.nought ≼ r.gross_commission)
      × (r.gross_commission ≼ i.commissionable_base)
      × (n.nought ≼ r.draw_deducted)
      × (r.draw_deducted ≼ r.gross_commission)
      × (n.nought ≼ r.net_payable)
      × (r.net_payable ≼ r.gross_commission)

  module _ (laws : IsOrdered A) where
    open laws use {
      le_refl, le_trans, le_total, subtract_nonneg, subtract-le, multiply_nonneg, multiply-le,
      nought-le-one,
    }

    max_bounds :
        (x b : A) → n.nought ≼ b → x ≼ b → (n.nought ≼ max n.nought x) × (max n.nought x ≼ b)
    max_bounds x b h k = ground (arith, le_refl n.nought, le_total n.nought x)

    min-le : (x y : A) → (min x y ≼ x) × (min x y ≼ y)
    min-le x y = ground (arith, le_refl x, le_refl y, le_total x y)

    le-max : (x : A) → n.nought ≼ max n.nought x
    le-max x = ground (arith, le_refl n.nought, le_total n.nought x)

    min_nonneg : (x y : A) → n.nought ≼ x → n.nought ≼ y → n.nought ≼ min x y
    min_nonneg x y h k = ground arith

    -- Stage 2 leaves at most the credited base.
    apply_tiers_bounds :
        (credited : A) (i : CalculationInput A)
        → n.nought ≼ credited
        → IsSound i.plan_rules
        → (n.nought ≼ (apply_tiers credited i).tiered_gross)
          × ((apply_tiers credited i).tiered_gross ≼ credited)
    unfolding apply_tiers
    apply_tiers_bounds credited i h (base, tiers, desk) =
        let cost = desk_cost_of i.plan_rules in
        let rate =
          applied_rate-IsFraction (tiers_of i.plan_rules) (i.ytd_gross ⊕ credited)
            (base_rate_of i.plan_rules) base tiers in
        let (low, high) =
          max_bounds (credited ⊖ cost) credited h (subtract-le credited cost desk) in
        (multiply_nonneg _ _ low rate.0, le_trans _ _ _ (multiply-le _ _ low rate.1) high)

    -- Stage 3 splits the gross amount into two parts that it bounds.
    recover_draw_bounds :
        (t : TieredResult A) (i : CalculationInput A)
        → n.nought ≼ t.tiered_gross
        → let d = recover_draw t i in
          (n.nought ≼ d.draw_deducted)
          × (d.draw_deducted ≼ t.tiered_gross)
          × (n.nought ≼ d.net_after_draw)
          × (d.net_after_draw ≼ t.tiered_gross)
    unfolding recover_draw
    recover_draw_bounds t i h =
        let gross = t.tiered_gross in
        let due = max n.nought i.draw_balance in
        let low = min_nonneg gross due h (le-max i.draw_balance) in
        let high = (min-le gross due).0 in
        (low, high, subtract_nonneg gross _ high, subtract-le gross _ low)

    -- Stage 1 leaves at most the commissionable base.
    calculate_base_bounds :
        (i : CalculationInput A) (credited : A)
        → n.nought ≼ i.commissionable_base
        → calculate_base i ≡ some credited
        → (n.nought ≼ credited) × (credited ≼ i.commissionable_base)
    unfolding calculate_base
    calculate_base_bounds i credited h e =
        let base = i.commissionable_base in
        let split = i.split_pct in
        let low = multiply_nonneg base split h in
        let high = multiply-le base split h in ground (arith, low, high, le_total n.nought split)

    record_of-IsBounded :
        ⦃f : Format A⦄
        → (i : CalculationInput A) (v : Option ℕ) (g : Option Text) (credited : A)
        → n.nought ≼ credited
        → credited ≼ i.commissionable_base
        → IsSound i.plan_rules
        → let tiered = apply_tiers credited i in
          let recovery = recover_draw tiered i in
          let final = apply_guarantee_hold (gate_on_collection recovery i) i in
          IsBounded i (record_of i credited tiered recovery final v g)
    unfolding record_of gate_on_collection apply_guarantee_hold
    record_of-IsBounded i v g credited low high s =
        let gross = apply_tiers_bounds credited i low s in
        let draw = recover_draw_bounds (apply_tiers credited i) i gross.0 in
        ground (arith, le_refl n.nought, le_trans _ _ _ gross.1 high)

    -- Over any ordered arithmetic, if the commissionable base is not negative, the base rate and the
    -- rates of the tiers are from 0 to 1 and the desk cost is not negative: of a commission that the
    -- pipeline computes, the gross commission lies between zero and the base, and the deducted draw
    -- and the net payable between zero and the gross commission.
    pub run_calculation_pipeline-IsBounded :
        ⦃f : Format A⦄
        → (i : CalculationInput A) (v : Option ℕ) (g : Option Text) (r : CommissionRecord A)
        → n.nought ≼ i.commissionable_base
        → IsSound i.plan_rules
        → run_calculation_pipeline commission_calculation_engine i v g ≡ some r
        → IsBounded i r
    unfolding run_calculation_pipeline
    run_calculation_pipeline-IsBounded i v g r h s e = elim (Option-cases (calculate_base i)) [
      | inl c ↦ cc
      | inr (credited, c) ↦
          let (low, high) = calculate_base_bounds i credited h c in
          let e' : run_stages commission_calculation_engine i v g (some credited) ≡ some r =
            rw c at e in
          subst (IsBounded i) (some-injective _ _ e')
            (record_of-IsBounded i v g credited low high s)
    ]
