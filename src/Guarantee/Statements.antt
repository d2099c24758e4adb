-- ===== src/Guarantee/Statements.antt =====
-- The statements of packages/db/src/guarantee-periods.ts.
use comission_mgmt.Prelude.{
  ℕ, Bool, true, false, ◌&&◌, Option, none, some, List, [], ◌∷◌, ◌++◌, ◌==◌, ltb, if◌then◌else◌,
  any, select, update_where, length,
}
use comission_mgmt.Prelude.First.{first_by}
use comission_mgmt.Core.Lifecycle.States.{
  GuaranteeState, in_force, expired_clean, PlacementState, guarantee_expired,
}
use comission_mgmt.Store.Tables.{
  Uuid, Tables, GuaranteePeriodRow, CommissionRecordRow, CommissionState, PlacementRow, HoldReason,
  payable, clean_expiry,
}
use comission_mgmt.Store.Monad.{Environment, M, statement, query, fresh_uuid, ◌>>=◌}

abbrev pub is_in_force : GuaranteeState → Bool
is_in_force GuaranteeState.in_force = true
is_in_force _ = false

abbrev pub is_guarantee_active : PlacementState → Bool
is_guarantee_active PlacementState.guarantee_active = true
is_guarantee_active _ = false

abbrev pub is_held_for_guarantee : CommissionState → Option HoldReason → Bool
is_held_for_guarantee CommissionState.held (some HoldReason.guarantee_hold) = true
is_held_for_guarantee _ _ = false

-- `ORDER BY CASE WHEN status = 'Active' THEN 0 ELSE 1 END, guarantee_ends DESC`: whether the first
-- row comes before the second one.
abbrev pub comes_before : GuaranteePeriodRow → GuaranteePeriodRow → Bool
comes_before p q =
    if is_in_force p.status
    then (if is_in_force q.status then ltb q.guarantee_ends p.guarantee_ends else true)
    else if is_in_force q.status
    then false
    else ltb q.guarantee_ends p.guarantee_ends

-- `LIMIT 1` on the ordered rows.
unfoldable pub first_period : List GuaranteePeriodRow → Option GuaranteePeriodRow
unfolding first_by
first_period = first_by comes_before

abbrev pub is_period_of : Uuid → Uuid → GuaranteePeriodRow → Bool
is_period_of org_id placement_id p = p.org_id == org_id && p.placement_id == placement_id

module _ (env : Environment) where
  -- `createGuaranteePeriod`; the encrypted risk amount is left out.
  unfoldable pub create_guarantee_period : Uuid → Uuid → ℕ → M GuaranteePeriodRow
  unfolding statement
  create_guarantee_period org_id placement_id guarantee_ends = do
    id ← fresh_uuid env
    let row : GuaranteePeriodRow = record {
      id = id;
      org_id = org_id;
      placement_id = placement_id;
      guarantee_ends = guarantee_ends;
      status = in_force;
      triggered_at = none;
      resolved_at = none;
      resolution = none;
      expired_at = none;
    }
    statement env (λ t. (row, record t { guarantee_periods = t.guarantee_periods ++ (row ∷ []) }))

  -- `getGuaranteePeriodForPlacement`.
  unfoldable pub get_guarantee_period_for_placement : Uuid → Uuid → M (Option GuaranteePeriodRow)
  unfolding query
  get_guarantee_period_for_placement org_id placement_id =
      query env (λ t. first_period (select (is_period_of org_id placement_id) t.guarantee_periods))

  -- `listActiveExpiredGuaranteePeriods`, in the order of the table.
  unfoldable pub list_active_expired_guarantee_periods : ℕ → M (List GuaranteePeriodRow)
  unfolding query
  list_active_expired_guarantee_periods cutoff_date = query env (λ t.
      select (λ p. is_in_force p.status && ltb p.guarantee_ends cutoff_date) t.guarantee_periods)

  abbrev pub expire_row : GuaranteePeriodRow → GuaranteePeriodRow
  expire_row p = record p {
    status = expired_clean;
    expired_at = some env.now;
    resolved_at = some env.now;
    resolution = some clean_expiry;
  }

  abbrev pub is_active_period : Uuid → GuaranteePeriodRow → Bool
  is_active_period id p = p.id == id && is_in_force p.status

  abbrev pub expired_periods : Uuid → Tables → Tables
  expired_periods id t = record t {
    guarantee_periods = update_where (is_active_period id) expire_row t.guarantee_periods;
  }

  -- `expireGuaranteePeriodClean`: whether a row was updated.
  unfoldable pub expire_guarantee_period_clean : Uuid → M Bool
  unfolding statement
  expire_guarantee_period_clean id =
      statement env (λ t. (any (is_active_period id) t.guarantee_periods, expired_periods id t))

  abbrev pub is_releasable : Uuid → Uuid → CommissionRecordRow → Bool
  is_releasable org_id placement_id c =
      c.org_id == org_id
      && c.placement_id == placement_id
      && is_held_for_guarantee c.status c.hold_reason

  abbrev pub release_row : CommissionRecordRow → CommissionRecordRow
  release_row c = record c { status = payable; hold_reason = none }

  abbrev pub released_records : Uuid → Uuid → Tables → Tables
  released_records org_id placement_id t = record t {
    commission_records =
        update_where (is_releasable org_id placement_id) release_row t.commission_records;
  }

  -- `releaseHeldCommissionRecordsForPlacement`: the number of rows.
  unfoldable pub release_held_commission_records_for_placement : Uuid → Uuid → M ℕ
  unfolding statement
  release_held_commission_records_for_placement org_id placement_id = statement env (λ t. (
    length (select (is_releasable org_id placement_id) t.commission_records),
    released_records org_id placement_id t,
  ))

  abbrev pub is_advancing : Uuid → Uuid → PlacementRow → Bool
  is_advancing org_id placement_id p =
      p.id == placement_id && p.org_id == org_id && is_guarantee_active p.status

  abbrev pub advance_row : PlacementRow → PlacementRow
  advance_row p = record p { status = guarantee_expired; updated_at = env.now }

  abbrev pub advanced_placements : Uuid → Uuid → Tables → Tables
  advanced_placements org_id placement_id t = record t {
    placements = update_where (is_advancing org_id placement_id) advance_row t.placements;
  }

  -- `advancePlacementToGuaranteeExpired`: whether a row was updated.
  unfoldable pub advance_placement_to_guarantee_expired : Uuid → Uuid → M Bool
  unfolding statement
  advance_placement_to_guarantee_expired org_id placement_id = statement env (λ t. (
    any (is_advancing org_id placement_id) t.placements,
    advanced_placements org_id placement_id t,
  ))
