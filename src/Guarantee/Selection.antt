-- ===== src/Guarantee/Selection.antt =====
-- `getGuaranteePeriodForPlacement` picks a row that no other row of the placement comes before.
use comission_mgmt.Prelude.{◌≡◌, true, false, ◌&&◌, some, arith, All, Any, select}
use comission_mgmt.Prelude.First.{IsWeakOrder, first_by-select}
use comission_mgmt.Store.Tables.{Uuid, GuaranteePeriodRow}
use comission_mgmt.Store.Monad.{Environment, World, returned, statement, query}
use comission_mgmt.Guarantee.Statements.{
  comes_before, first_period, is_period_of, get_guarantee_period_for_placement,
}

comes_before-IsWeakOrder : IsWeakOrder comes_before
comes_before-IsWeakOrder = record {
  before_self = λ p. ground arith;
  before_through = λ p best r h k. ground arith;
  before_trans = λ p best r h k. ground arith;
}

-- The period that the query for a placement answers is one of the placement's rows, and no row of
-- the placement comes before it: it is active whenever some row of the placement is, and among the
-- rows of its kind its guarantee ends last. The query writes nothing.
get_guarantee_period_for_placement_lem :
    (env : Environment) (org_id placement_id : Uuid) (w w' : World) (r : GuaranteePeriodRow)
    → get_guarantee_period_for_placement env org_id placement_id w ≡ (returned (some r), w')
    → Any (λ q. (q ≡ r) × (is_period_of org_id placement_id q ≡ true)) w.tables.guarantee_periods
      × All
          (λ q. is_period_of org_id placement_id q && comes_before q r ≡ false)
          w.tables.guarantee_periods
      × (w'.tables ≡ w.tables)
unfolding get_guarantee_period_for_placement query statement first_period
get_guarantee_period_for_placement_lem env org_id placement_id w w' r e =
    let rows = w.tables.guarantee_periods in
    let mine = is_period_of org_id placement_id in
    let found : first_period (select mine rows) ≡ some r = ground arith in
    let (here, first) = first_by-select comes_before comes_before-IsWeakOrder mine r rows found in
    (here, first, ground arith)
