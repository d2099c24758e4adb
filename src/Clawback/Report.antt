-- ===== src/Clawback/Report.antt =====
-- What follows the commit of a clawback: the audit entries, the status and the answer.
use comission_mgmt.Prelude.{◌≡◌, refl, inl, inr, List, [], ◌∷◌, length, arith, Bool-cases}
use comission_mgmt.Store.Tables.{
  Uuid, AuditAction, clawback_triggered_action, ledger_adjustment_posted,
}
use comission_mgmt.Store.Monad.{
  Environment, World, Exception, returned, thrown, statement, query, append_audit, SessionClaims,
  Response, reply, refuse, database_error, return,
}
use comission_mgmt.Store.Steps.{
  continue_returned, continue_thrown, returned_resp, Keeps, chain-Keeps,
}
use comission_mgmt.Clawback.Statements.{get_clawback_status_for_placement}
use comission_mgmt.Clawback.Handler.{
  TriggerReply, Triggered, write_audit_log, audit_all, triggered_reply, answer_of, audit_ledger,
  report,
}

module _ (env : Environment) (claims : SessionClaims) (placement_id : Uuid) where
  write_audit_log-Keeps :
      (action : AuditAction) (id : Uuid) → Keeps (write_audit_log env claims action id)
  unfolding append_audit
  write_audit_log-Keeps action id w = ground arith

  audit_all-Keeps : (ids : List Uuid) → Keeps (audit_all env claims ids)
  unfolding audit_all
  audit_all-Keeps [] = λ w. refl
  audit_all-Keeps (id ∷ ids) =
      chain-Keeps (write_audit_log env claims ledger_adjustment_posted id)
        (λ _. audit_all env claims ids) (write_audit_log-Keeps ledger_adjustment_posted id)
        (λ _. audit_all-Keeps ids)

  status-Keeps : Keeps (get_clawback_status_for_placement env claims.org_id placement_id)
  unfolding get_clawback_status_for_placement query statement
  status-Keeps w = ground arith

  pub report-Keeps :
      (period_id : Uuid) (done : Triggered) → Keeps (report env claims placement_id period_id done)
  unfolding report
  report-Keeps period_id done =
      chain-Keeps (write_audit_log env claims clawback_triggered_action done.event_id) _
        (write_audit_log-Keeps clawback_triggered_action done.event_id)
        (λ _.
          chain-Keeps (audit_all env claims done.adjustment_ids) _
            (audit_all-Keeps done.adjustment_ids)
            (λ _.
              chain-Keeps (get_clawback_status_for_placement env claims.org_id placement_id) _
                status-Keeps (λ s w. refl)))

  -- The answer counts what the transaction did.
  abbrev pub IsReported : Uuid → Triggered → Response TriggerReply → Type 0
  IsReported period_id done (reply s b) =
      (s ≡ 201)
      × (b.clawback_event_id ≡ done.event_id)
      × (b.guarantee_period_id ≡ period_id)
      × (b.commission_records_affected ≡ done.affected)
      × (b.adjustments_posted ≡ length done.adjustment_ids)
  IsReported period_id done (refuse s m) = ⊥

  pub report_returned :
      (period_id : Uuid) (done : Triggered) (answer : Response TriggerReply) (w w' : World)
      → report env claims placement_id period_id done w ≡ (returned answer, w')
      → IsReported period_id done answer
  unfolding report
  report_returned period_id done answer w w' e =
      let (_, w1, _, k1) =
        continue_returned (write_audit_log env claims clawback_triggered_action done.event_id w)
          (λ _. audit_ledger env claims placement_id period_id done) answer w' e in
      let (_, w2, _, k2) =
        continue_returned (audit_all env claims done.adjustment_ids w1)
          (λ _. answer_of env claims placement_id period_id done) answer w' k1 in
      let (s, w3, _, k3) =
        continue_returned (get_clawback_status_for_placement env claims.org_id placement_id w2)
          (λ s. return (triggered_reply env period_id done s)) answer w' k2 in
      returned_resp (λ x v. IsReported period_id done x) (triggered_reply env period_id done s)
        answer w3 w' k3 (refl, refl, refl, refl, refl)

  audit_all_returned : (ids : List Uuid) (w : World) → (audit_all env claims ids w).0 ≡ returned tt
  unfolding audit_all append_audit
  audit_all_returned [] w = refl
  audit_all_returned (id ∷ ids) w = elim (Bool-cases (env.fails w.statements)) [
    | inl failed ↦ rw failed (audit_all_returned ids _)
    | inr fine ↦ rw fine (audit_all_returned ids _)
  ]

  write_audit_log_returned :
      (action : AuditAction) (id : Uuid) (x : Exception) (w w' : World)
      → write_audit_log env claims action id w ≡ (thrown x, w')
      → ⊥
  unfolding append_audit
  write_audit_log_returned action id x w w' e = ground arith

  answer_thrown :
      (period_id : Uuid) (done : Triggered) (x : Exception) (w w' : World)
      → answer_of env claims placement_id period_id done w ≡ (thrown x, w')
      → x ≡ database_error
  unfolding get_clawback_status_for_placement query statement
  answer_thrown period_id done x w w' e = ground arith

  ledger_thrown :
      (period_id : Uuid) (done : Triggered) (x : Exception) (w w' : World)
      → audit_ledger env claims placement_id period_id done w ≡ (thrown x, w')
      → x ≡ database_error
  ledger_thrown period_id done x w w' e =
      let first =
        continue_thrown (audit_all env claims done.adjustment_ids w)
          (λ _. answer_of env claims placement_id period_id done) x w' e in
      elim first [
        | inl t ↦
            let none_thrown = audit_all_returned done.adjustment_ids w in
            absurd (ground (arith, t, none_thrown))
        | inr (_, w1, _, k1) ↦ answer_thrown period_id done x w1 w' k1
      ]

  -- After the commit only the query of the status can fail.
  pub report_thrown :
      (period_id : Uuid) (done : Triggered) (x : Exception) (w w' : World)
      → report env claims placement_id period_id done w ≡ (thrown x, w')
      → x ≡ database_error
  unfolding report
  report_thrown period_id done x w w' e =
      let log = write_audit_log env claims clawback_triggered_action done.event_id in
      let first =
        continue_thrown (log w) (λ _. audit_ledger env claims placement_id period_id done) x w' e in
      elim first [
        | inl t ↦ absurd (write_audit_log_returned clawback_triggered_action done.event_id x w w' t)
        | inr (_, w1, _, k1) ↦ ledger_thrown period_id done x w1 w' k1
      ]
