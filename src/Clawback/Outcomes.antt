-- ===== src/Clawback/Outcomes.antt =====
-- The steps of `handleTriggerClawback` inside its `try`: what each of them leaves.
use comission_mgmt.Prelude.{
  suc, ◌≡◌, refl, sym, ap, ◌∙◌, ◌⊎◌, inl, inr, true, false, some, none, Option, Bool-cases, ltb,
  ◌==◌, select,
}
use comission_mgmt.Store.Tables.{Uuid, Tables, GuaranteePeriodRow, PlacementRow}
use comission_mgmt.Store.Monad.{
  Environment, World, Outcome, returned, thrown, statement, query, SessionClaims, Response, reply,
  database_error, ◌>>=◌,
}
use comission_mgmt.Store.Steps.{continue_returned, continue_thrown}
use comission_mgmt.Guarantee.Statements.{
  is_in_force, is_period_of, first_period, get_guarantee_period_for_placement,
}
use comission_mgmt.Clawback.Statements.{get_placement}
use comission_mgmt.Clawback.Handler.{
  TriggerRequest, TriggerReply, Triggered, trigger_transaction, report, trigger_of_period,
  trigger_of_placement,
}
use comission_mgmt.Clawback.Transaction.{IsClawedBack, transaction_returned, transaction_thrown}
use comission_mgmt.Clawback.Report.{IsReported, report-Keeps, report_returned, report_thrown}

-- Any outcome but a reply.
abbrev pub IsNoReply : Outcome (Response TriggerReply) → Type 0
IsNoReply (returned (reply s b)) = ⊥
IsNoReply _ = Unit

module _ (env : Environment) (others : Tables → Tables) (claims : SessionClaims)
    (placement_id : Uuid) where
  -- The report of the commit, or the failure of its last query.
  abbrev pub IsAnswered : Uuid → Triggered → Outcome (Response TriggerReply) → Type 0
  IsAnswered period_id done (returned answer) =
      IsReported env claims placement_id period_id done answer
  IsAnswered period_id done (thrown x) = x ≡ database_error

  abbrev pub IsCommitted :
      TriggerRequest
      → GuaranteePeriodRow
      → Outcome (Response TriggerReply)
      → Tables
      → Tables
      → Type 0
  IsCommitted r period o t t' =
      (done : Triggered) × IsClawedBack env claims placement_id period.id r done t t'
      × IsAnswered period.id done o

  run_outcome :
      (r : TriggerRequest) (period : GuaranteePeriodRow) (o : Outcome (Response TriggerReply))
      (w w' : World)
      → (trigger_transaction env claims placement_id period.id r
            >>= report env claims placement_id period.id)
          w
        ≡ (o, w')
      → (IsNoReply o × (w'.tables ≡ w.tables)) ⊎ IsCommitted r period o w.tables w'.tables
  run_outcome r period (returned answer) w w' e =
      let (done, w1, e1, k1) =
        continue_returned (trigger_transaction env claims placement_id period.id r w)
          (report env claims placement_id period.id) answer w' e in
      let kept = report-Keeps env claims placement_id period.id done w1 in
      let same : w'.tables ≡ w1.tables =
        sym (ap (λ (x : Outcome (Response TriggerReply) × World). x.1.tables) k1) ∙ kept in
      inr (
        done,
        rw same (transaction_returned env claims placement_id period.id r done w w1 e1),
        report_returned env claims placement_id period.id done answer w1 w' k1,
      )
  run_outcome r period (thrown x) w w' e =
      elim (continue_thrown (trigger_transaction env claims placement_id period.id r w)
        (report env claims placement_id period.id) x w' e) [
          | inl t ↦ inl (tt, transaction_thrown env claims placement_id period.id r x w w' t)
          | inr (done, w1, e1, k1) ↦
              let kept = report-Keeps env claims placement_id period.id done w1 in
              let same : w'.tables ≡ w1.tables =
                sym (ap (λ (x : Outcome (Response TriggerReply) × World). x.1.tables) k1) ∙ kept in
              inr (
                done,
                rw same (transaction_returned env claims placement_id period.id r done w w1 e1),
                report_thrown env claims placement_id period.id done x w1 w' k1,
              )
        ]

  -- The period that the trigger acts on: the first of the placement, in force and not yet at its end.
  abbrev pub IsTriggerable : Tables → GuaranteePeriodRow → Type 0
  IsTriggerable t period =
      (first_period (select (is_period_of claims.org_id placement_id) t.guarantee_periods)
        ≡ some period)
      × (is_in_force period.status ≡ true)
      × (ltb period.guarantee_ends env.today ≡ false)

  abbrev pub IsUnwritten : Tables → Outcome (Response TriggerReply) × World → Type 0
  IsUnwritten t (o, w') = IsNoReply o × ((w'.tables ≡ t) ⊎ (w'.tables ≡ others t))

  abbrev pub IsRaw : TriggerRequest → Tables → Outcome (Response TriggerReply) × World → Type 0
  IsRaw r t (o, w') =
      IsUnwritten t (o, w')
      ⊎ ((period : GuaranteePeriodRow) × IsTriggerable t period
          × IsCommitted r period o (others t) w'.tables)

  transaction-IsRaw :
      (r : TriggerRequest) (period : GuaranteePeriodRow) (w : World)
      → IsTriggerable w.tables period
      → IsRaw r w.tables (
          (trigger_transaction env claims placement_id period.id r
              >>= report env claims placement_id period.id)
            (record w { tables = others w.tables }))
  transaction-IsRaw r period w h =
      let next = record w { tables = others w.tables } in
      let run =
        (trigger_transaction env claims placement_id period.id r
            >>= report env claims placement_id period.id)
          next in
      elim (run_outcome r period run.0 next run.1 refl) [
        | inl (n, same) ↦ inl (n, inr same)
        | inr done ↦ inr (period, h, done)
      ]

  period-IsRaw :
      (r : TriggerRequest) (found : Option GuaranteePeriodRow) (w : World)
      → first_period (select (is_period_of claims.org_id placement_id) w.tables.guarantee_periods)
        ≡ found
      → IsRaw r w.tables (trigger_of_period env others claims placement_id r found w)
  period-IsRaw r none w f = inl (tt, inl refl)
  period-IsRaw r (some period) w f = elim (Bool-cases (is_in_force period.status)) [
    | inr ended ↦ rw ended (inl (tt, inl refl))
    | inl active ↦ elim (Bool-cases (ltb period.guarantee_ends env.today)) [
      | inl past ↦ rw (active, past) (inl (tt, inl refl))
      | inr due ↦ rw (active, due) (transaction-IsRaw r period w (f, active, due))
    ]
  ]

  placement-IsRaw :
      (r : TriggerRequest) (found : Option PlacementRow) (w : World)
      → IsRaw r w.tables (trigger_of_placement env others claims placement_id r found w)
  unfolding get_guarantee_period_for_placement query statement
  placement-IsRaw r none w = inl (tt, inl refl)
  placement-IsRaw r (some placement) w = elim (Bool-cases (placement.org_id == claims.org_id)) [
    | inr other ↦ rw other (inl (tt, inl refl))
    | inl mine ↦ elim (Bool-cases (env.fails w.statements)) [
      | inl failed ↦ rw (mine, failed) (inl (tt, inl refl))
      | inr fine ↦
          rw (mine, fine) (period-IsRaw r _ (record w { statements = suc w.statements }) refl)
    ]
  ]

  pub request-IsRaw :
      (r : TriggerRequest) (w : World)
      → IsRaw r w.tables (
          (get_placement env placement_id >>= trigger_of_placement env others claims placement_id r)
            w)
  unfolding get_placement query statement
  request-IsRaw r w = elim (Bool-cases (env.fails w.statements)) [
    | inl failed ↦ rw failed (inl (tt, inl refl))
    | inr fine ↦ rw fine (placement-IsRaw r _ (record w { statements = suc w.statements }))
  ]
