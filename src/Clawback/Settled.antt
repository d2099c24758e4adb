-- ===== src/Clawback/Settled.antt =====
-- Every outcome of `handleTriggerClawback`: a whole clawback, or nothing of one.
use comission_mgmt.Prelude.{
  ◌≡◌, ◌≢◌, refl, sym, ap, ◌∙◌, ◌⊎◌, inl, inr, true, some, none, arith, Bool-cases,
}
use comission_mgmt.Store.Tables.{Uuid, Tables, GuaranteePeriodRow}
use comission_mgmt.Store.Monad.{
  Environment, World, Outcome, returned, thrown, SessionClaims, Response, reply, refuse, status_of,
  concurrent_trigger, database_error, type_error, concurrent_expiry, ◌>>=◌, handled,
}
use comission_mgmt.Store.Steps.{returned_resp}
use comission_mgmt.Clawback.Statements.{get_placement}
use comission_mgmt.Clawback.Handler.{
  TriggerBody, invalid_json, no_object, trigger_object, TriggerRequest, TriggerReply, Triggered,
  is_finance_admin, trigger_of_placement, trigger_parsed, trigger_failed, handle_trigger_clawback,
  request_of, time_or, count_or_default,
}
use comission_mgmt.Clawback.Transaction.{IsClawedBack}
use comission_mgmt.Clawback.Report.{IsReported}
use comission_mgmt.Clawback.Outcomes.{IsRaw, IsTriggerable, request-IsRaw}

module _ (env : Environment) (others : Tables → Tables) (claims : SessionClaims)
    (placement_id : Uuid) where
  -- What the handler answers after the commit: its report, or that it failed.
  abbrev pub IsCommitAnswer : Uuid → Triggered → Response TriggerReply → Type 0
  IsCommitAnswer period_id done answer =
      IsReported env claims placement_id period_id done answer
      ⊎ (answer ≡ refuse 500 "Failed to trigger clawback event")

  -- A refusal.
  abbrev pub IsRefusal : Response TriggerReply → Type 0
  IsRefusal (reply s b) = ⊥
  IsRefusal (refuse s m) = Unit

  -- The request that a body makes: both keys are there, and the defaults fill in the others.
  abbrev pub IsRequestOf : TriggerBody → TriggerRequest → Type 0
  IsRequestOf (trigger_object (some event_type) (some rule) at count) r =
      (r.event_type ≡ event_type)
      × (r.rule ≡ rule)
      × (r.occurred_at ≡ time_or at env.now)
      × (r.installment_count ≡ count_or_default count)
  IsRequestOf _ r = ⊥

  -- A refusal that wrote nothing, or a whole clawback, of the body, by a finance admin.
  abbrev pub IsSettled : TriggerBody → Response TriggerReply → Tables → Tables → Type 0
  IsSettled body answer t t' =
      (IsRefusal answer × ((t' ≡ t) ⊎ (t' ≡ others t)))
      ⊎ ((r : TriggerRequest) × (period : GuaranteePeriodRow) × (done : Triggered) × IsRequestOf
            body r
          × (is_finance_admin claims.role ≡ true)
          × IsTriggerable env others claims placement_id t period
          × IsClawedBack env claims placement_id period.id r done (others t) t'
          × IsCommitAnswer period.id done answer)

  abbrev IsReturned : TriggerBody → Tables → Outcome (Response TriggerReply) × World → Type 0
  IsReturned body t (thrown x, w') = ⊥
  IsReturned body t (returned answer, w') = IsSettled body answer t w'.tables

  caught :
      (body : TriggerBody) (r : TriggerRequest) (t : Tables) (o : Outcome (Response TriggerReply))
      (w' : World)
      → IsRequestOf body r
      → is_finance_admin claims.role ≡ true
      → IsRaw env others claims placement_id r t (o, w')
      → IsReturned body t (handled (o, w') (trigger_failed env others claims placement_id))
  caught body r t (returned (reply s b)) w' of admin (inl u) = absurd u.0
  caught body r t (returned (refuse s m)) w' of admin (inl u) = inl u
  caught body r t (returned answer) w' of admin (inr (period, h, (done, back, a))) =
      inr (r, period, done, of, admin, h, back, inl a)
  caught body r t (thrown concurrent_trigger) w' of admin (inl u) = inl u
  caught body r t (thrown database_error) w' of admin (inl u) = inl u
  caught body r t (thrown type_error) w' of admin (inl u) = inl u
  caught body r t (thrown concurrent_expiry) w' of admin (inl u) = inl u
  caught body r t (thrown database_error) w' of admin (inr (period, h, (done, back, a))) =
      inr (r, period, done, of, admin, h, back, inr refl)
  caught body r t (thrown x) w' of admin (inr (period, h, (done, back, a))) = absurd (ground arith)

  parsed :
      (body : TriggerBody) (w : World)
      → is_finance_admin claims.role ≡ true
      → IsReturned body w.tables (trigger_parsed env others claims placement_id body w)
  parsed invalid_json w admin = inl (tt, inl refl)
  parsed no_object w admin = inl (tt, inl refl)
  parsed (trigger_object none rule at count) w admin = inl (tt, inl refl)
  parsed (trigger_object (some event_type) none at count) w admin = inl (tt, inl refl)
  parsed (trigger_object (some event_type) (some rule) at count) w admin =
      let r = request_of env event_type rule at count in
      let raw =
        (get_placement env placement_id >>= trigger_of_placement env others claims placement_id r)
          w in
      caught (trigger_object (some event_type) (some rule) at count) r w.tables raw.0 raw.1
        (refl, refl, refl, refl) admin (request-IsRaw env others claims placement_id r w)

  from_returned :
      (body : TriggerBody) (t : Tables) (p : Outcome (Response TriggerReply) × World)
      → IsReturned body t p
      → (answer : Response TriggerReply) × (w' : World) × (p ≡ (returned answer, w'))
        × IsSettled body answer t w'.tables
  from_returned body t (returned answer, w') h = (answer, w', refl, h)
  from_returned body t (thrown x, w') h = absurd h

  handled_admin :
      (body : TriggerBody) (w : World)
      → is_finance_admin claims.role ≡ true
      → handle_trigger_clawback env others claims placement_id body w
        ≡ trigger_parsed env others claims placement_id body w
  unfolding handle_trigger_clawback
  handled_admin body w admin = rw admin refl

  -- The trigger of a clawback always answers. Either it refuses and writes nothing, so that the
  -- tables are as it found them or as the other sessions made them; or the claims are a finance
  -- admin's, the first period of the placement was in force and not past its end, and a whole
  -- clawback of the body is in the tables, which the answer reports, or whose report failed with
  -- status 500: the event is raised; the period, if it is still in force, is triggered; the records
  -- of the placement that are held, payable, accrued or pending approval are held for the clawback;
  -- the adjustments and recovery schedules of the rule are posted; and nothing else is written.
  pub handle_trigger_clawback-IsSettled :
      (body : TriggerBody) (w : World)
      → (answer : Response TriggerReply) × (w' : World) × (handle_trigger_clawback env others claims
            placement_id body w
          ≡ (returned answer, w'))
        × IsSettled body answer w.tables w'.tables
  unfolding handle_trigger_clawback
  handle_trigger_clawback-IsSettled body w = elim (Bool-cases (is_finance_admin claims.role)) [
    | inr other ↦
        rw other (refuse 403 "Forbidden: Finance Admin role required", w, refl, inl (tt, inl refl))
    | inl admin ↦
        let (answer, w', e, s) =
          from_returned body w.tables (trigger_parsed env others claims placement_id body w)
            (parsed body w admin) in
        (answer, w', handled_admin body w admin ∙ e, s)
  ]

  reported-not-IsRefusal :
      (period_id : Uuid) (done : Triggered) (answer : Response TriggerReply)
      → IsReported env claims placement_id period_id done answer
      → IsRefusal answer
      → ⊥
  reported-not-IsRefusal period_id done (reply s b) h f = f
  reported-not-IsRefusal period_id done (refuse s m) h f = h

  IsSettled-refused :
      (body : TriggerBody) (answer : Response TriggerReply) (t t' : Tables)
      → IsSettled body answer t t'
      → IsRefusal answer
      → status_of answer ≢ 500
      → (t' ≡ t) ⊎ (t' ≡ others t)
  IsSettled-refused body answer t t' (inl u) f n = u.1
  IsSettled-refused body answer t t' (inr (r, period, done, of, admin, h, back, inl reported)) f n =
      absurd (reported-not-IsRefusal period.id done answer reported f)
  IsSettled-refused body answer t t' (inr (r, period, done, of, admin, h, back, inr failed)) f n =
      absurd (n (ap status_of failed))

  -- A trigger that is refused with a status other than 500 wrote no table: they are as it found them
  -- or as the other sessions made them.
  pub handle_trigger_clawback_refused :
      (body : TriggerBody) (w w' : World) (answer : Response TriggerReply)
      → handle_trigger_clawback env others claims placement_id body w ≡ (returned answer, w')
      → IsRefusal answer
      → status_of answer ≢ 500
      → (w'.tables ≡ w.tables) ⊎ (w'.tables ≡ others w.tables)
  handle_trigger_clawback_refused body w w' answer e f n =
      let (answer', w'', e', s) = handle_trigger_clawback-IsSettled body w in
      returned_resp
        (λ a v.
          IsRefusal a → status_of a ≢ 500 → (v.tables ≡ w.tables) ⊎ (v.tables ≡ others w.tables))
        answer' answer w'' w' (sym e' ∙ e) (IsSettled-refused body answer' w.tables w''.tables s) f
        n
