-- ===== src/Core/Engine/Holds.antt =====
-- When the pipeline throws, which amounts it holds back, and what it recovers of a draw.
use mathlib.Core.Path.{subst}
use mathlib.Core.Option.{some-injective}
use comission_mgmt.Prelude.{
  ℕ, ◌≡◌, ◌⊎◌, ◌↔◌, inl, inr, true, not, ◌||◌, Option, none, some, arith, if◌then◌else◌,
  Option-cases,
}
use comission_mgmt.Core.Number.{Number, IsOrdered, lt, ◌≼◌, ◌⊖◌, max}
use comission_mgmt.Core.Explanation.Text.{Text, Format}
use comission_mgmt.Core.Engine.Stages.{
  CalculationInput, commission_calculation_engine, calculate_base, apply_tiers, recover_draw,
  gate_on_collection, apply_guarantee_hold, accrued, held,
}
use comission_mgmt.Core.Engine.Pipeline.{
  CommissionRecord, record_of, run_stages, run_calculation_pipeline,
}

module _ {A : Type 0} ⦃n : Number A⦄ ⦃f : Format A⦄ where
  -- The pipeline throws exactly on a split outside of (0, 1].
  run_calculation_pipeline-none_iff :
      (i : CalculationInput A) (v : Option ℕ) (g : Option Text)
      → (run_calculation_pipeline commission_calculation_engine i v g ≡ none)
        ↔ ((i.split_pct ≼ n.nought) ⊎ (lt n.one i.split_pct ≡ true))
  unfolding run_calculation_pipeline calculate_base
  run_calculation_pipeline-none_iff i v g = (λ e. ground arith, λ h. ground arith)

  -- The two flags are the two conditions, the status is held exactly if one of them is, and the net
  -- payable is then zero and otherwise what the draw leaves of the gross commission.
  abbrev pub IsHeldRight : CalculationInput A → CommissionRecord A → Type 0
  IsHeldRight i r =
      (r.held_for_collection ≡ not i.invoice_collected)
      × (r.held_for_guarantee ≡ i.inside_guarantee_window)
      × (r.status
          ≡ (if not i.invoice_collected || i.inside_guarantee_window then held else accrued))
      × (r.net_payable ≡ (
          if not i.invoice_collected || i.inside_guarantee_window
          then n.nought
          else r.gross_commission ⊖ r.draw_deducted))

  record_of-IsHeldRight :
      (i : CalculationInput A) (v : Option ℕ) (g : Option Text) (credited : A)
      → let tiered = apply_tiers credited i in
        let recovery = recover_draw tiered i in
        let final = apply_guarantee_hold (gate_on_collection recovery i) i in
        IsHeldRight i (record_of i credited tiered recovery final v g)
  unfolding record_of gate_on_collection apply_guarantee_hold recover_draw
  record_of-IsHeldRight i v g credited = ground arith

  -- What holds of the record of every credited base holds of every result.
  of_result :
      (P : CommissionRecord A → Type 0) (i : CalculationInput A) (v : Option ℕ) (g : Option Text)
      → ((credited : A)
          → let tiered = apply_tiers credited i in
            let recovery = recover_draw tiered i in
            let final = apply_guarantee_hold (gate_on_collection recovery i) i in
            P (record_of i credited tiered recovery final v g))
      → (r : CommissionRecord A)
      → run_calculation_pipeline commission_calculation_engine i v g ≡ some r
      → P r
  unfolding run_calculation_pipeline
  of_result P i v g h r e = elim (Option-cases (calculate_base i)) [
    | inl c ↦ cc
    | inr (credited, c) ↦
        let e' : run_stages commission_calculation_engine i v g (some credited) ≡ some r =
          rw c at e in
        subst P (some-injective _ _ e') (h credited)
  ]

  -- The hold flags, the status and the net payable of every computed commission.
  pub run_calculation_pipeline-IsHeldRight :
      (i : CalculationInput A) (v : Option ℕ) (g : Option Text) (r : CommissionRecord A)
      → run_calculation_pipeline commission_calculation_engine i v g ≡ some r
      → IsHeldRight i r
  run_calculation_pipeline-IsHeldRight i v g = of_result _ i v g (record_of-IsHeldRight i v g)

  module _ (laws : IsOrdered A) where
    open laws use {subtract_self}

    record_of-draw :
        (i : CalculationInput A) (v : Option ℕ) (g : Option Text) (credited : A)
        → let tiered = apply_tiers credited i in
          let recovery = recover_draw tiered i in
          let final = apply_guarantee_hold (gate_on_collection recovery i) i in
          let r = record_of i credited tiered recovery final v g in
          (r.draw_deducted ≡ max n.nought i.draw_balance) ⊎ (r.net_payable ≡ n.nought)
    unfolding record_of gate_on_collection apply_guarantee_hold recover_draw
    record_of-draw i v g credited =
        ground (arith, subtract_self (apply_tiers credited i).tiered_gross)

    -- Nothing is payable before the outstanding draw is recovered in full.
    pub run_calculation_pipeline-draw_first :
        (i : CalculationInput A) (v : Option ℕ) (g : Option Text) (r : CommissionRecord A)
        → run_calculation_pipeline commission_calculation_engine i v g ≡ some r
        → (r.draw_deducted ≡ max n.nought i.draw_balance) ⊎ (r.net_payable ≡ n.nought)
    run_calculation_pipeline-draw_first i v g = of_result _ i v g (record_of-draw i v g)
