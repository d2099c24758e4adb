-- ===== src/Guarantee/Atomicity.antt =====
-- An expiry that the worker skips, or that an error ends, writes nothing; and the expiry of a
-- period that the task did not name.
use comission_mgmt.Prelude.{
  ℕ, suc, ◌≡◌, ◌∙◌, ap, ◌⊎◌, inl, inr, true, false, Option, none, some, arith, Bool-cases, select,
  any, length,
}
use comission_mgmt.Core.Lifecycle.States.{expired_clean}
use comission_mgmt.Store.Tables.{Uuid, Tables, GuaranteePeriodRow}
use comission_mgmt.Store.Monad.{
  Environment, World, Outcome, returned, thrown, concurrent_expiry, statement, query, append_audit,
}
use comission_mgmt.Guarantee.Statements.{
  is_in_force, is_period_of, first_period, is_active_period, is_releasable, is_advancing,
}
use comission_mgmt.Guarantee.Worker.{
  Payload, RecalcResult, was_skipped, process_guarantee_expired_recalc, expiry_transaction,
  after_transaction, process_period,
}
use comission_mgmt.Guarantee.Expiry.{
  transaction_thrown, after_not_done, after_thrown, skipped_neither, expired_tables,
}

-- A result that was skipped, or an error.
abbrev pub IsUndone : Outcome RecalcResult → Type 0
IsUndone (returned r) = was_skipped r ≡ true
IsUndone (thrown x) = Unit

module _ (env : Environment) (others : Tables → Tables) (p : Payload) where
  period_undone :
      (period : GuaranteePeriodRow) (o : Outcome RecalcResult) (w w' : World)
      → is_in_force period.status ≡ true
      → process_period env others p (some period) w ≡ (o, w')
      → IsUndone o
      → w'.tables ≡ others w.tables
  period_undone period (returned r) w w' f e u =
      let w1 = record w { tables = others w.tables } in
      let t = expiry_transaction env p period.id w1 in
      let (thrown_it, same) =
        after_not_done env p period.id t.1 w' t.0 r (skipped_neither env others p w w' period f e)
          u in
      ap (λ (v : World). v.tables) same
      ∙ transaction_thrown env p period.id w1 t.1 concurrent_expiry (ap (λ x. (x, t.1)) thrown_it)
  period_undone period (thrown x) w w' f e u =
      let w1 = record w { tables = others w.tables } in
      let t = expiry_transaction env p period.id w1 in
      let (thrown_it, same) =
        after_thrown env p period.id t.1 w' t.0 x (skipped_neither env others p w w' period f e) in
      ap (λ (v : World). v.tables) same
      ∙ transaction_thrown env p period.id w1 t.1 x (ap (λ y. (y, t.1)) thrown_it)

  found_undone :
      (found : Option GuaranteePeriodRow) (o : Outcome RecalcResult) (w w' : World)
      → process_period env others p found w ≡ (o, w')
      → IsUndone o
      → (w'.tables ≡ w.tables) ⊎ (w'.tables ≡ others w.tables)
  found_undone none o w w' e u = inl (ground arith)
  found_undone (some period) o w w' e u = elim (Bool-cases (is_in_force period.status)) [
    | inl f ↦ inr (period_undone period o w w' f e u)
    | inr f ↦ inl (ground arith)
  ]

  -- A run of the worker that is skipped or that ends in an error leaves the tables as it found them,
  -- or as the other sessions made them.
  pub process_guarantee_expired_recalc_undone :
      (o : Outcome RecalcResult) (w w' : World)
      → process_guarantee_expired_recalc env others p w ≡ (o, w')
      → IsUndone o
      → (w'.tables ≡ w.tables) ⊎ (w'.tables ≡ others w.tables)
  unfolding process_guarantee_expired_recalc query statement
  process_guarantee_expired_recalc_undone o w w' e u =
      let next = record w { statements = suc w.statements } in
      let rows = select (is_period_of p.org_id p.placement_id) w.tables.guarantee_periods in
      elim (Bool-cases (env.fails w.statements)) [
        | inl failed ↦ inl (ground arith)
        | inr fine ↦ found_undone (first_period rows) o next w' (rw fine at e) u
      ]

module _ (env : Environment) (p : Payload) (w : World) where
  -- The result of an expiry of the period.
  abbrev pub expired_result : Uuid → RecalcResult
  expired_result period_id = record {
    guarantee_period_id = period_id;
    placement_id = p.placement_id;
    new_guarantee_state = some expired_clean;
    commission_records_released =
        length (select (is_releasable env p.org_id p.placement_id) w.tables.commission_records);
    placement_advanced = any (is_advancing env p.org_id p.placement_id) w.tables.placements;
    skip_reason = none;
  }

  -- With no failing statement and no other session, the worker expires the first period of the
  -- placement whenever that period is in force: the result names it and the tables hold the
  -- expiry. Neither the period that the task names nor the end of the guarantee is asked for.
  pub stale_task_expires :
      (period : GuaranteePeriodRow)
      → first_period (select (is_period_of p.org_id p.placement_id) w.tables.guarantee_periods)
        ≡ some period
      → is_in_force period.status ≡ true
      → any (is_active_period env period.id) w.tables.guarantee_periods ≡ true
      → ((n : ℕ) → env.fails n ≡ false)
      → ((process_guarantee_expired_recalc env (λ t. t) p w).0
          ≡ returned (expired_result period.id))
        × ((process_guarantee_expired_recalc env (λ t. t) p w).1.tables
            ≡ expired_tables env p period.id w.tables)
  unfolding process_guarantee_expired_recalc query statement expiry_transaction after_transaction
      append_audit
  stale_task_expires period found here active fine =
      let n = w.statements in
      let f0 = fine n in
      let f1 = fine (suc n) in
      let f2 = fine (suc (suc n)) in
      let f3 = fine (suc (suc (suc n))) in let f4 = fine (suc (suc (suc (suc n)))) in ground arith
