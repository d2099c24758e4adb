-- ===== src/Clawback/Trigger.antt =====
-- What a triggered clawback leaves.
use mathlib.Core.Path.{subst}
use comission_mgmt.Prelude.{
  ℕ, ◌≡◌, refl, Bool, true, false, List, [], ◌∷◌, ◌++◌, length, select, sort_by, arith,
}
use comission_mgmt.Store.Tables.{Uuid, Tables, CommissionRecordRow, ClawbackEventRow}
use comission_mgmt.Store.Monad.{Environment, World, returned, statement, query, SessionClaims}
use comission_mgmt.Store.Steps.{continue_returned, returned_resp}
use comission_mgmt.Clawback.Statements.{
  CreateClawbackEventInput, create_clawback_event, trigger_guarantee_period,
  hold_commission_records_for_clawback, list_commission_records_for_placement, triggered_periods,
  claimed_records, is_claimed, is_record_of,
}
use comission_mgmt.Clawback.Handler.{
  TriggerRequest, Triggered, posts, post_if, post_all, after_trigger,
}
use comission_mgmt.Clawback.Ledger.{scheduled_for, IsLedgerOf, post_all-IsLedgerOf}

module _ (env : Environment) (claims : SessionClaims) (placement_id : Uuid) where
  abbrev pub event_input : Uuid → TriggerRequest → CreateClawbackEventInput
  event_input period_id r = record {
    org_id = claims.org_id;
    placement_id = placement_id;
    guarantee_period_id = period_id;
    event_type = r.event_type;
    rule = r.rule;
    occurred_at = r.occurred_at;
    triggered_by = claims.user_id;
  }

  -- The records of the placement for which the rule posts, in the order in which they were created.
  abbrev pub sorted_records : Tables → List CommissionRecordRow
  sorted_records t =
      sort_by (λ c. c.created_at)
        (select (is_record_of claims.org_id placement_id) t.commission_records)

  abbrev pub posted_if : Bool → Tables → List CommissionRecordRow
  posted_if b t = scheduled_for b (sorted_records t)

  -- The tables before the ledger.
  abbrev pub marked : Uuid → TriggerRequest → ClawbackEventRow → Tables → Tables
  marked period_id r event t = claimed_records claims.org_id placement_id (
      triggered_periods env period_id r.occurred_at
        (record t { clawback_events = t.clawback_events ++ (event ∷ []) }))

  pub event_returned :
      (input : CreateClawbackEventInput) (event : ClawbackEventRow) (w w' : World)
      → create_clawback_event env input w ≡ (returned event, w')
      → w'.tables ≡ record w.tables { clawback_events = w.tables.clawback_events ++ (event ∷ []) }
  unfolding create_clawback_event statement
  event_returned input event w w' e = ground arith

  pub trigger_returned :
      (id : Uuid) (at : ℕ) (updated : Bool) (w w' : World)
      → trigger_guarantee_period env id at w ≡ (returned updated, w')
      → w'.tables ≡ triggered_periods env id at w.tables
  unfolding trigger_guarantee_period statement
  trigger_returned id at updated w w' e = ground arith

  hold_returned :
      (affected : ℕ) (w w' : World)
      → hold_commission_records_for_clawback env claims.org_id placement_id w
        ≡ (returned affected, w')
      → (w'.tables ≡ claimed_records claims.org_id placement_id w.tables)
        × (affected
            ≡ length (select (is_claimed claims.org_id placement_id) w.tables.commission_records))
  unfolding hold_commission_records_for_clawback statement
  hold_returned affected w w' e = ground arith

  list_returned :
      (rows : List CommissionRecordRow) (w w' : World)
      → list_commission_records_for_placement env claims.org_id placement_id w ≡ (returned rows, w')
      → (w'.tables ≡ w.tables) × (rows ≡ sorted_records w.tables)
  unfolding list_commission_records_for_placement query statement
  list_returned rows w w' e = ground arith

  abbrev pub IsPostedTo :
      Uuid
      → TriggerRequest
      → List Uuid × List Uuid
      → List CommissionRecordRow
      → Tables
      → Tables
      → Type 0
  IsPostedTo event_id r ids rows t t' =
      IsLedgerOf claims event_id r rows t t' × (length ids.0 ≡ length rows)

  IsPostedTo-resp :
      (event_id : Uuid) (r : TriggerRequest) (ids : List Uuid × List Uuid)
      (rows rows' : List CommissionRecordRow) (t t1 t' : Tables)
      → t1 ≡ t
      → rows' ≡ rows
      → IsPostedTo event_id r ids rows' t1 t'
      → IsPostedTo event_id r ids rows t t'
  IsPostedTo-resp event_id r ids rows rows' t t1 t' e f h =
      subst (λ rs. IsPostedTo event_id r ids rs t t') f
        (subst (λ x. IsPostedTo event_id r ids rows' x t') e h)

  posted_returned :
      (event_id : Uuid) (r : TriggerRequest) (ids : List Uuid × List Uuid) (b : Bool) (w w' : World)
      → post_if env b claims placement_id event_id r w ≡ (returned ids, w')
      → IsPostedTo event_id r ids (posted_if b w.tables) w.tables w'.tables
  unfolding post_all
  posted_returned event_id r ids false w w' e =
      post_all-IsLedgerOf env claims event_id r [] ids w w' e
  posted_returned event_id r ids true w w' e =
      let (rows, w1, e1, k1) = continue_returned _ _ _ _ e in
      let (same, sorted) = list_returned rows w w1 e1 in
      IsPostedTo-resp event_id r ids (sorted_records w.tables) rows w.tables w1.tables w'.tables
        same sorted (post_all-IsLedgerOf env claims event_id r rows ids w1 w' k1)

  -- What `after_trigger` makes of the tables.
  abbrev pub IsAfter : TriggerRequest → Uuid → Tables → Triggered → World → Type 0
  IsAfter r event_id t done w' =
      let held = claimed_records claims.org_id placement_id t in
      (done.event_id ≡ event_id)
      × (done.affected
          ≡ length (select (is_claimed claims.org_id placement_id) t.commission_records))
      × IsPostedTo event_id r (done.adjustment_ids, done.schedule_ids)
          (posted_if (posts r.rule) held) held w'.tables

  pub after_trigger_returned :
      (r : TriggerRequest) (event_id : Uuid) (updated : Bool) (done : Triggered) (w w' : World)
      → after_trigger env claims placement_id r event_id updated w ≡ (returned done, w')
      → IsAfter r event_id w.tables done w'
  after_trigger_returned r event_id false done w w' e = absurd (cc)
  after_trigger_returned r event_id true done w w' e =
      let (affected, w3, e3, k3) = continue_returned _ _ _ _ e in
      let (ids, w4, e4, k4) = continue_returned _ _ _ _ k3 in
      let (tables, count) = hold_returned affected w w3 e3 in
      let made : Triggered = record {
        event_id = event_id;
        affected = affected;
        adjustment_ids = ids.0;
        schedule_ids = ids.1;
      } in
      returned_resp (IsAfter r event_id w.tables) made done w4 w' k4 (
        refl,
        count,
        subst (λ t. IsPostedTo event_id r ids (posted_if (posts r.rule) t) t w4.tables) tables
            (posted_returned event_id r ids (posts r.rule) w3 w4 e4),
      )
