-- ===== src/Guarantee/Expiry.antt =====
-- What the expiry worker leaves: a whole expiry, or nothing of one.
use comission_mgmt.Prelude.{
  ℕ, ◌≡◌, refl, ◌⊎◌, Bool, true, false, some, arith, Zip, ◌&&◌, ◌==◌, Option, none, any, select,
  length,
}
use comission_mgmt.Core.Lifecycle.States.{
  can_transition, can_transition_guarantee, GuaranteeState, PlacementState, expired_clean,
  guarantee_expired,
}
use comission_mgmt.Store.Tables.{
  Uuid, Tables, GuaranteePeriodRow, PlacementRow, CommissionRecordRow, CommissionState, HoldReason,
  payable, clean_expiry,
}
use comission_mgmt.Store.Monad.{
  Environment, World, Outcome, returned, thrown, statement, append_audit, Exception,
  concurrent_expiry, concurrent_trigger, database_error, type_error,
}
use comission_mgmt.Guarantee.Statements.{
  is_in_force, is_period_of, first_period, expired_periods, released_records, advanced_placements,
}
use comission_mgmt.Guarantee.Worker.{
  Payload, RecalcResult, was_skipped, expiry_transaction, after_transaction, process_period,
}

abbrev is_running : GuaranteeState → Bool
is_running GuaranteeState.in_force = true
is_running _ = false

abbrev is_hold : CommissionState → Option HoldReason → Bool
is_hold CommissionState.held (some HoldReason.guarantee_hold) = true
is_hold _ _ = false

abbrev is_under_guarantee : PlacementState → Bool
is_under_guarantee PlacementState.guarantee_active = true
is_under_guarantee _ = false

module _ (env : Environment) where
  -- The three updates of the transaction.
  abbrev pub expired_tables : Payload → Uuid → Tables → Tables
  expired_tables p period_id t =
      released_records env p.org_id p.placement_id
        (advanced_placements env p.org_id p.placement_id (expired_periods env period_id t))

  module _ (p : Payload) (period_id : Uuid) (w w' : World) where
    pub transaction_thrown :
        (x : Exception)
        → expiry_transaction env p period_id w ≡ (thrown x, w')
        → w'.tables ≡ w.tables
    unfolding expiry_transaction statement
    transaction_thrown x e = ground arith

  module _ (p : Payload) (period_id : Uuid) (w w' : World) where
    pub after_not_done :
        (o : Outcome (Bool × ℕ)) (r : RecalcResult)
        → after_transaction env p period_id (o, w) ≡ (returned r, w')
        → was_skipped r ≡ true
        → (o ≡ thrown concurrent_expiry) × (w' ≡ w)
    unfolding after_transaction append_audit
    after_not_done (thrown concurrent_expiry) r e s = (refl, ground arith)
    after_not_done (thrown x) r e s = cc
    after_not_done (returned (advanced, released)) r e s = ground arith

    pub after_thrown :
        (o : Outcome (Bool × ℕ)) (x : Exception)
        → after_transaction env p period_id (o, w) ≡ (thrown x, w')
        → (o ≡ thrown x) × (w' ≡ w)
    unfolding after_transaction append_audit
    after_thrown (thrown concurrent_expiry) x e = cc
    after_thrown (thrown database_error) x e = ground arith
    after_thrown (thrown type_error) x e = ground arith
    after_thrown (thrown concurrent_trigger) x e = ground arith
    after_thrown (returned (advanced, released)) x e = ground arith

  -- The period that the worker acts on is the one that the placement's first row names, and it is
  -- in force.
  abbrev pub IsFirstPeriod : Payload → Uuid → Tables → Type 0
  IsFirstPeriod p period_id t =
      (period : GuaranteePeriodRow) × (first_period
          (select (is_period_of p.org_id p.placement_id) t.guarantee_periods)
        ≡ some period)
      × (is_in_force period.status ≡ true)
      × (period.id ≡ period_id)

  abbrev pub IsMovedPlacement : PlacementRow → PlacementRow → Type 0
  IsMovedPlacement x y = (x ≡ y) ⊎ (can_transition x.status y.status ≡ true)

  abbrev pub IsMovedPeriod : GuaranteePeriodRow → GuaranteePeriodRow → Type 0
  IsMovedPeriod x y = (x ≡ y) ⊎ (can_transition_guarantee x.status y.status ≡ true)

  -- The period in force of the identifier is expired cleanly, every other one stays.
  abbrev pub IsPeriodExpiry : Uuid → GuaranteePeriodRow → GuaranteePeriodRow → Type 0
  IsPeriodExpiry period_id x y =
      ((x.id == period_id && is_running x.status ≡ false) × (y ≡ x))
      ⊎ ((x.id == period_id && is_running x.status ≡ true)
          × (y ≡ record x {
            status = expired_clean;
            expired_at = some env.now;
            resolved_at = some env.now;
            resolution = some clean_expiry;
          }))

  -- A record of the placement that is held for the guarantee.
  abbrev pub is_waiting : Payload → CommissionRecordRow → Bool
  is_waiting p c =
      c.org_id == p.org_id && c.placement_id == p.placement_id && is_hold c.status c.hold_reason

  -- Such a record is payable and has no reason of a hold, every other one stays.
  abbrev pub IsReleaseOf : Payload → CommissionRecordRow → CommissionRecordRow → Type 0
  IsReleaseOf p x y =
      ((is_waiting p x ≡ false) × (y ≡ x))
      ⊎ ((is_waiting p x ≡ true) × (y ≡ record x { status = payable; hold_reason = none }))

  -- The placement under an active guarantee.
  abbrev pub is_guaranteed : Payload → PlacementRow → Bool
  is_guaranteed p q = q.id == p.placement_id && q.org_id == p.org_id && is_under_guarantee q.status

  abbrev pub IsAdvanceOf : Payload → PlacementRow → PlacementRow → Type 0
  IsAdvanceOf p x y =
      ((is_guaranteed p x ≡ false) × (y ≡ x))
      ⊎ ((is_guaranteed p x ≡ true)
          × (y ≡ record x { status = guarantee_expired; updated_at = env.now }))

  -- The three tables row by row, no other table, and the answer.
  abbrev pub IsExpired : Payload → RecalcResult → Tables → Tables → Type 0
  IsExpired p r t t' =
      Zip (IsPeriodExpiry r.guarantee_period_id) t.guarantee_periods t'.guarantee_periods
      × Zip (IsReleaseOf p) t.commission_records t'.commission_records
      × Zip (IsAdvanceOf p) t.placements t'.placements
      × (t' ≡ record t {
        guarantee_periods = t'.guarantee_periods;
        commission_records = t'.commission_records;
        placements = t'.placements;
      })
      × Zip IsMovedPeriod t.guarantee_periods t'.guarantee_periods
      × Zip IsMovedPlacement t.placements t'.placements
      × (r.placement_advanced ≡ any (is_guaranteed p) t.placements)
      × (r.commission_records_released ≡ length (select (is_waiting p) t.commission_records))

  module _ (others : Tables → Tables) (p : Payload) (w w' : World) where
    -- A period in force takes the third branch.
    pub skipped_neither :
        (period : GuaranteePeriodRow) {out : Outcome RecalcResult × World}
        → is_in_force period.status ≡ true
        → process_period env others p (some period) w ≡ out
        → let w1 = record w { tables = others w.tables } in
          after_transaction env p period.id (expiry_transaction env p period.id w1) ≡ out
    skipped_neither period f e = ground arith
