-- ===== src/Clawback/Transaction.antt =====
-- The specification of a triggered clawback, and that the transaction meets it.
use mathlib.Core.Path.{subst}
use comission_mgmt.Prelude.{
  ◌≡◌, refl, sym, ap, ◌∙◌, inl, inr, false, List, [], ◌∷◌, ◌++◌, length, ◌⊎◌, Bool, true, some,
  ◌==◌, ◌&&◌, Zip, Zip-update_where_if, Zip-update_where, select, sort_by, arith,
}
use comission_mgmt.Core.Lifecycle.States.{GuaranteeState, triggered, can_transition_guarantee}
use comission_mgmt.Store.Tables.{
  Uuid, Tables, GuaranteePeriodRow, CommissionRecordRow, CommissionState, clawback_initiated,
  clawback_hold, clawback_triggered, ClawbackEventRow, AdjustmentRow, RecoveryScheduleRow,
}
use comission_mgmt.Store.Monad.{
  Environment, World, Exception, returned, thrown, statement, SessionClaims,
}
use comission_mgmt.Store.Steps.{continue_returned, begin_returned, begin_thrown}
use comission_mgmt.Guarantee.Statements.{is_active_period}
use comission_mgmt.Guarantee.Expiry.{IsMovedPeriod}
use comission_mgmt.Clawback.Statements.{
  CreateClawbackEventInput, create_clawback_event, new_event, triggered_periods, trigger_row,
  claim_row, is_claimed, is_record_of,
}
use comission_mgmt.Clawback.Handler.{
  TriggerRequest, Triggered, posts, schedules, trigger_transaction,
}
use comission_mgmt.Clawback.Ledger.{IsPosted, IsScheduled, scheduled_for, IsLedgerOf}
use comission_mgmt.Clawback.Trigger.{
  event_input, posted_if, marked, IsAfter, event_returned, trigger_returned, after_trigger_returned,
}

abbrev is_running : GuaranteeState → Bool
is_running GuaranteeState.in_force = true
is_running _ = false

abbrev is_unpaid : CommissionState → Bool
is_unpaid CommissionState.held = true
is_unpaid CommissionState.payable = true
is_unpaid CommissionState.accrued = true
is_unpaid CommissionState.pending_approval = true
is_unpaid _ = false

module _ (env : Environment) (claims : SessionClaims) (placement_id : Uuid) where
  -- The rows that the ledger grew by.
  abbrev pub IsGrown : TriggerRequest → Triggered → Tables → Tables → Type 0
  IsGrown r done t t' =
      (posted : List AdjustmentRow) × (ss : List RecoveryScheduleRow) × IsPosted claims
        done.event_id r (posted_if env claims placement_id (posts r.rule) t') posted
      × IsScheduled claims done.event_id r
          (scheduled_for (schedules r.rule) (posted_if env claims placement_id (posts r.rule) t'))
          ss
      × (t'.adjustments ≡ t.adjustments ++ posted)
      × (t'.recovery_schedules ≡ t.recovery_schedules ++ ss)

  -- The event of the request.
  abbrev pub IsEventOf : Uuid → TriggerRequest → ClawbackEventRow → Type 0
  IsEventOf period_id r e =
      (e.org_id ≡ claims.org_id)
      × (e.placement_id ≡ placement_id)
      × (e.guarantee_period_id ≡ period_id)
      × (e.event_type ≡ r.event_type)
      × (e.rule ≡ r.rule)
      × (e.occurred_at ≡ r.occurred_at)
      × (e.triggered_by ≡ claims.user_id)
      × (e.created_at ≡ env.now)

  abbrev pub IsRaised : Uuid → TriggerRequest → Triggered → Tables → Tables → Type 0
  IsRaised period_id r done t t' =
      (event : ClawbackEventRow) × IsEventOf period_id r event
      × (event.id ≡ done.event_id)
      × (t'.clawback_events ≡ t.clawback_events ++ (event ∷ []))

  -- The period in force of the identifier is triggered at the time of the event, every other one
  -- stays.
  abbrev pub IsTriggering : Uuid → TriggerRequest → GuaranteePeriodRow → GuaranteePeriodRow → Type 0
  IsTriggering period_id r x y =
      ((x.id == period_id && is_running x.status ≡ false) × (y ≡ x))
      ⊎ ((x.id == period_id && is_running x.status ≡ true)
          × (y ≡ record x {
            status = triggered;
            triggered_at = some r.occurred_at;
            resolved_at = some r.occurred_at;
            resolution = some clawback_triggered;
          }))

  -- A record of the placement that can be claimed.
  abbrev pub is_due : CommissionRecordRow → Bool
  is_due c = c.org_id == claims.org_id && c.placement_id == placement_id && is_unpaid c.status

  -- Such a record is held for the clawback, every other one stays.
  abbrev pub IsClaiming : CommissionRecordRow → CommissionRecordRow → Type 0
  IsClaiming x y =
      ((is_due x ≡ false) × (y ≡ x))
      ⊎ ((is_due x ≡ true)
          × (y ≡ record x { status = clawback_initiated; hold_reason = some clawback_hold }))

  -- A clawback: the event is raised, the period is triggered, along its transition table, and the
  -- records that could be claimed are held, of which the answer has the count; the ledger grows by
  -- one adjustment, and under the rule `clawback` by one recovery schedule, for each record of the
  -- placement; no other table is written.
  abbrev pub IsClawedBack : Uuid → TriggerRequest → Triggered → Tables → Tables → Type 0
  IsClawedBack period_id r done t t' =
      IsRaised period_id r done t t'
      × Zip (IsTriggering period_id r) t.guarantee_periods t'.guarantee_periods
      × Zip (IsMovedPeriod env) t.guarantee_periods t'.guarantee_periods
      × Zip IsClaiming t.commission_records t'.commission_records
      × (done.affected ≡ length (select is_due t.commission_records))
      × (length done.adjustment_ids ≡ length (posted_if env claims placement_id (posts r.rule) t'))
      × IsGrown r done t t'
      × (t' ≡ record t {
        clawback_events = t'.clawback_events;
        guarantee_periods = t'.guarantee_periods;
        commission_records = t'.commission_records;
        adjustments = t'.adjustments;
        recovery_schedules = t'.recovery_schedules;
      })

  event_row :
      (input : CreateClawbackEventInput) (event : ClawbackEventRow) (w w' : World)
      → create_clawback_event env input w ≡ (returned event, w')
      → event ≡ new_event env event.id input
  unfolding create_clawback_event statement
  event_row input event w w' e = ground arith

  event-IsEventOf :
      (period_id : Uuid) (r : TriggerRequest) (event : ClawbackEventRow) (w w' : World)
      → create_clawback_event env (event_input env claims placement_id period_id r) w
        ≡ (returned event, w')
      → IsEventOf period_id r event
  event-IsEventOf period_id r event w w' e =
      subst (IsEventOf period_id r)
        (sym (event_row (event_input env claims placement_id period_id r) event w w' e))
        (refl, refl, refl, refl, refl, refl, refl, refl)

  IsGrown-resp :
      (r : TriggerRequest) (event_id : Uuid) (done : Triggered) (t t' held : Tables)
      → event_id ≡ done.event_id
      → held.commission_records ≡ t'.commission_records
      → held.adjustments ≡ t.adjustments
      → held.recovery_schedules ≡ t.recovery_schedules
      → IsLedgerOf claims event_id r (posted_if env claims placement_id (posts r.rule) held) held t'
      → IsGrown r done t t'
  IsGrown-resp r event_id done t t' held e c a b (posted, ss, p, s, grown) = (
    posted,
    ss,
    subst (λ rows. IsPosted claims done.event_id r (rows_of rows) posted) c
        (subst
          (λ i. IsPosted claims i r (posted_if env claims placement_id (posts r.rule) held) posted)
          e p),
    subst
        (λ rows.
          IsScheduled claims done.event_id r (scheduled_for (schedules r.rule) (rows_of rows)) ss)
        c
        (subst
          (λ i.
            IsScheduled claims i r
              (scheduled_for (schedules r.rule)
                (posted_if env claims placement_id (posts r.rule) held))
              ss)
          e s),
    ap (λ (x : Tables). x.adjustments) grown ∙ ap (λ (x : List AdjustmentRow). x ++ posted) a,
    ap (λ (x : Tables). x.recovery_schedules) grown
        ∙ ap (λ (x : List RecoveryScheduleRow). x ++ ss) b,
  )
    where
      rows_of : List CommissionRecordRow → List CommissionRecordRow
      rows_of rows =
          scheduled_for (posts r.rule)
            (sort_by (λ c. c.created_at) (select (is_record_of claims.org_id placement_id) rows))

  IsClawedBack-of_steps :
      (period_id : Uuid) (r : TriggerRequest) (event : ClawbackEventRow) (done : Triggered)
      (t : Tables) (w' : World)
      → IsEventOf period_id r event
      → IsAfter env claims placement_id r event.id
          (triggered_periods env period_id r.occurred_at
            (record t { clawback_events = t.clawback_events ++ (event ∷ []) }))
          done
          w'
      → IsClawedBack period_id r done t w'.tables
  unfolding can_transition_guarantee
  IsClawedBack-of_steps period_id r event done t w' raised (id, count, (ledger, n)) =
      let held = marked env claims placement_id period_id r event t in
      let grown = ledger.4 in
      (
        (event, raised, sym id, rw grown refl),
        rw grown (
            Zip-update_where_if (IsTriggering period_id r) (is_active_period env period_id)
              (trigger_row env r.occurred_at) (λ q e. inr (e, refl)) (λ q e. inl (e, refl))
              t.guarantee_periods),
        rw grown (
            Zip-update_where _ (is_active_period env period_id) (trigger_row env r.occurred_at)
              (λ q e. inr (ground arith)) (λ q. inl refl) t.guarantee_periods),
        rw grown (
            Zip-update_where_if IsClaiming (is_claimed claims.org_id placement_id) claim_row
              (λ c e. inr (e, refl)) (λ c e. inl (e, refl)) t.commission_records),
        count,
        rw grown n,
        IsGrown-resp r event.id done t w'.tables held (sym id) (rw grown refl) refl refl ledger,
        rw grown refl,
      )

  -- The transaction of `handleTriggerClawback` leaves a clawback.
  pub transaction_returned :
      (period_id : Uuid) (r : TriggerRequest) (done : Triggered) (w w' : World)
      → trigger_transaction env claims placement_id period_id r w ≡ (returned done, w')
      → IsClawedBack period_id r done w.tables w'.tables
  unfolding trigger_transaction
  transaction_returned period_id r done w w' e =
      let (event, w1, e1, k1) = continue_returned _ _ _ _ (begin_returned w.tables _ _ _ e) in
      let (updated, w2, e2, k2) = continue_returned _ _ _ _ k1 in
      let a = event_returned env claims placement_id _ event w w1 e1 in
      let b = trigger_returned env claims placement_id period_id r.occurred_at updated w1 w2 e2 in
      let after = after_trigger_returned env claims placement_id r event.id updated done w2 w' k2 in
      IsClawedBack-of_steps period_id r event done w.tables w'
        (event-IsEventOf period_id r event w w1 e1)
        (subst (λ t. IsAfter env claims placement_id r event.id t done w')
          (b ∙ ap (triggered_periods env period_id r.occurred_at) a) after)

  -- A transaction that throws leaves nothing.
  pub transaction_thrown :
      (period_id : Uuid) (r : TriggerRequest) (x : Exception) (w w' : World)
      → trigger_transaction env claims placement_id period_id r w ≡ (thrown x, w')
      → w'.tables ≡ w.tables
  unfolding trigger_transaction
  transaction_thrown period_id r x w w' e = begin_thrown w.tables _ x w' e
