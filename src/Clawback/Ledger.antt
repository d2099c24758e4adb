-- ===== src/Clawback/Ledger.antt =====
-- What the loop over the records of a placement posts to the ledger.
use mathlib.Core.List.{append_assoc, append-nil}
use comission_mgmt.Prelude.{
  ℕ, suc, ◌+◌, ◌*◌, ◌/◌, ◌≡◌, refl, sym, ap, ◌∙◌, Bool, true, false, some, List, [], ◌∷◌, ◌++◌,
  length, arith, Bool-cases, inl, inr, if◌then◌else◌,
}
use comission_mgmt.Store.Tables.{
  Uuid, Tables, CommissionRecordRow, AdjustmentRow, RecoveryScheduleRow,
}
use comission_mgmt.Store.Monad.{Environment, World, Outcome, returned, statement, SessionClaims}
use comission_mgmt.Store.Steps.{continue_returned}
use comission_mgmt.Clawback.Statements.{new_adjustment, new_schedule}
use comission_mgmt.Clawback.Handler.{TriggerRequest, schedules, post_one, post_all}

-- One adjustment for each record, in the order of the records: a deduction of one, for the event
-- and the rule, by the user, and not yet recovered.
abbrev pub IsPosted :
    SessionClaims → Uuid → TriggerRequest → List CommissionRecordRow → List AdjustmentRow → Type 0
IsPosted claims event_id r [] [] = Unit
IsPosted claims event_id r (c ∷ cs) (a ∷ rest) =
    (a.commission_record_id ≡ c.id)
    × (a.org_id ≡ claims.org_id)
    × (a.clawback_event_id ≡ some event_id)
    × (a.reason_code ≡ r.rule)
    × (a.recovered ≡ false)
    × (a.deducted ≡ 1)
    × (a.adjusted_by ≡ claims.user_id)
    × IsPosted claims event_id r cs rest
IsPosted claims event_id r _ _ = ⊥

-- One schedule for each record, in the order of the records: of the amount one, in the installments
-- of the request, whose cents are rounded.
abbrev pub IsScheduled :
    SessionClaims
    → Uuid
    → TriggerRequest
    → List CommissionRecordRow
    → List RecoveryScheduleRow
    → Type 0
IsScheduled claims event_id r [] [] = Unit
IsScheduled claims event_id r (c ∷ cs) (s ∷ ss) =
    (s.commission_record_id ≡ c.id)
    × (s.clawback_event_id ≡ event_id)
    × (s.installment_count ≡ r.installment_count)
    × (s.org_id ≡ claims.org_id)
    × (s.clawback_amount ≡ 1)
    × (s.installment_cents ≡ (200 + r.installment_count) / (2 * r.installment_count))
    × IsScheduled claims event_id r cs ss
IsScheduled claims event_id r _ _ = ⊥

-- The records for which recovery is scheduled.
abbrev pub scheduled_for : Bool → List CommissionRecordRow → List CommissionRecordRow
scheduled_for b cs = if b then cs else []

-- The ledger grows by the posted rows, and no other table changes.
abbrev pub IsLedgerOf :
    SessionClaims → Uuid → TriggerRequest → List CommissionRecordRow → Tables → Tables → Type 0
IsLedgerOf claims event_id r cs t t' =
    (posted : List AdjustmentRow) × (ss : List RecoveryScheduleRow) × IsPosted claims event_id r cs
      posted
    × IsScheduled claims event_id r (scheduled_for (schedules r.rule) cs) ss
    × (t' ≡ record t {
      adjustments = t.adjustments ++ posted;
      recovery_schedules = t.recovery_schedules ++ ss;
    })

IsScheduled-append :
    (claims : SessionClaims) (event_id : Uuid) (r : TriggerRequest) (b : Bool)
    (c : CommissionRecordRow) (cs : List CommissionRecordRow) (ss rest : List RecoveryScheduleRow)
    → IsScheduled claims event_id r (scheduled_for b (c ∷ [])) ss
    → IsScheduled claims event_id r (scheduled_for b cs) rest
    → IsScheduled claims event_id r (scheduled_for b (c ∷ cs)) (ss ++ rest)
IsScheduled-append claims event_id r false c cs [] rest one more = more
IsScheduled-append claims event_id r false c cs (s ∷ ss) rest one more = absurd one
IsScheduled-append claims event_id r true c cs [] rest one more = absurd one
IsScheduled-append claims event_id r true c cs (s ∷ []) rest one more =
    (one.0, one.1, one.2, one.3, one.4, one.5, more)
IsScheduled-append claims event_id r true c cs (s ∷ u ∷ ss) rest one more = absurd one.6

-- The tables with rows added to the ledger.
abbrev grown : Tables → List AdjustmentRow → List RecoveryScheduleRow → Tables
grown t posted ss = record t {
  adjustments = t.adjustments ++ posted;
  recovery_schedules = t.recovery_schedules ++ ss;
}

grown_twice :
    (t : Tables) (a b : List AdjustmentRow) (s u : List RecoveryScheduleRow)
    → grown (grown t a s) b u ≡ grown t (a ++ b) (s ++ u)
grown_twice t a b s u =
    rw (append_assoc t.adjustments a b, append_assoc t.recovery_schedules s u) refl

grown_none : (t : Tables) → t ≡ grown t [] []
grown_none t = rw (append-nil t.adjustments, append-nil t.recovery_schedules) refl

module _ (env : Environment) (claims : SessionClaims) (event_id : Uuid) (r : TriggerRequest) where
  post_one_lem :
      (c : CommissionRecordRow) (one : Uuid × List Uuid) (w w' : World)
      → post_one env claims event_id r c w ≡ (returned one, w')
      → (a : AdjustmentRow) × (ss : List RecoveryScheduleRow) × IsPosted claims event_id r
          (c ∷ [])
          (a ∷ [])
        × IsScheduled claims event_id r (scheduled_for (schedules r.rule) (c ∷ [])) ss
        × (w'.tables ≡ grown w.tables (a ∷ []) ss)
  unfolding post_one statement
  post_one_lem c one w w' e =
      let a =
        new_adjustment env (env.uuid w.drawn) claims.org_id c.id event_id r.rule claims.user_id in
      let s =
        new_schedule env (env.uuid (suc w.drawn)) claims.org_id event_id c.id r.installment_count in
      elim (Bool-cases (schedules r.rule)) [
        | inl yea ↦ (a, s ∷ [], ground arith, rw yea (ground arith), ground arith)
        | inr nay ↦
            (a, [], ground arith, rw nay tt, ground (arith, append-nil w.tables.recovery_schedules))
      ]

  returned_length :
      (x y : List Uuid × List Uuid) (w w' : World) (n : ℕ) (i : Uuid) (s : List Uuid)
      → ◌≡◌ {A = Outcome (List Uuid × List Uuid) × World}
          (returned (i ∷ x.0, s), w)
          (returned y, w')
      → length x.0 ≡ n
      → length y.0 ≡ suc n
  returned_length x y w w' n i s e h = ground arith

  -- The loop posts the ledger rows.
  pub post_all-IsLedgerOf :
      (cs : List CommissionRecordRow) (ids : List Uuid × List Uuid) (w w' : World)
      → post_all env claims event_id r cs w ≡ (returned ids, w')
      → IsLedgerOf claims event_id r cs w.tables w'.tables × (length ids.0 ≡ length cs)
  unfolding post_all
  post_all-IsLedgerOf [] ids w w' e = (
    (
      [],
      [],
      tt,
      elim (Bool-cases (schedules r.rule)) [ inl yea ↦ rw yea tt | inr nay ↦ rw nay tt ],
      ground (arith, grown_none w.tables),
    ),
    ground arith,
  )
  post_all-IsLedgerOf (c ∷ cs) ids w w' e =
      let (one, w1, e1, k1) = continue_returned _ _ _ _ e in
      let (rest, w2, e2, k2) = continue_returned _ _ _ _ k1 in
      let ((posted, ss, p, s, t), n) = post_all-IsLedgerOf cs rest w1 w2 e2 in
      let (a, ss1, p1, s1, t1) = post_one_lem c one w w1 e1 in
      (
        (
          a ∷ posted,
          ss1 ++ ss,
          (p1.0, p1.1, p1.2, p1.3, p1.4, p1.5, p1.6, p),
          IsScheduled-append claims event_id r (schedules r.rule) c cs ss1 ss s1 s,
          sym (ap (λ (x : Outcome (List Uuid × List Uuid) × World). x.1.tables) k2)
              ∙ t
              ∙ ap (λ (x : Tables). grown x posted ss) t1
              ∙ grown_twice w.tables (a ∷ []) posted ss1 ss,
        ),
        returned_length rest ids w2 w' (length cs) one.0 (one.1 ++ rest.1) k2 n,
      )
