-- ===== src/Runs/Finalization.antt =====
-- The reconciliation gate of `handleFinalizeCommissionRun`.
use Prim.Native.String.{String}
use mathlib.Core.Option.{some-injective}
use comission_mgmt.Prelude.{
  ℕ, suc, ◌≡◌, refl, ◌⊎◌, inl, inr, true, false, not, ◌&&◌, Option, none, some, List, [], arith,
  Bool-cases, Option-cases, find, select, length, ◌==◌,
}
use comission_mgmt.Core.Explanation.Text.{Text}
use comission_mgmt.Store.Tables.{Uuid, Tables, CommissionRunRow, CommissionRunRecordRow}
use comission_mgmt.Store.Monad.{
  Environment, World, returned, statement, query, append_audit, reply, SessionClaims, attempt,
  ◌>>=◌,
}
use comission_mgmt.Runs.Statements.{
  get_commission_run, get_commission_run_records, approve_commission_run,
  count_unacknowledged_discrepancies, is_approved_run, is_run, run_records, is_open_run, mark_run,
}
use comission_mgmt.Runs.Handlers.{
  RunBody, unapproved, handle_finalize_commission_run, FinalizeBody, null_json, invalid_json,
  override_of, has_override, approve_with_records, audit_override, finalize_gate, finalize_counted,
  finalize_of,
}
use comission_mgmt.Runs.Approval.{AllApproved, IsApproved, IsMarked, IsMarked-IsApproved}

module _ (env : Environment) where
  -- The count of the unacknowledged discrepancies of a run's period.
  abbrev pub open_discrepancies : Uuid → CommissionRunRow → Tables → ℕ
  open_discrepancies org_id run t = length (
      select
        (λ d.
          d.org_id == org_id
          && d.period_start == run.period_start
          && d.period_end == run.period_end
          && not d.acknowledged)
        t.discrepancies)

  -- No open discrepancy, or a reason that is more than white space.
  abbrev pub IsGated : Uuid → Uuid → FinalizeBody → Tables → Type 0
  IsGated run_id org_id body t =
      (run : CommissionRunRow) × (find (is_run run_id org_id) t.commission_runs ≡ some run)
      × (is_approved_run run.status ≡ false)
      × ((open_discrepancies org_id run t ≡ 0) ⊎ (has_override (override_of body) ≡ true))

  module _ (run_id : Uuid) (claims : SessionClaims) (body : RunBody) where
    with_records_ok :
        (message : String) (override : Option Text) (records : Option (List CommissionRunRecordRow))
        (w w' : World)
        → approve_with_records env run_id claims
            (audit_override env run_id claims override)
            message
            override
            records
            w
          ≡ (returned (reply 200 body), w')
        → (rs : List CommissionRunRecordRow) × (records ≡ some rs)
          × (unapproved rs ≡ [])
          × IsMarked env run_id claims w.tables w'.tables
    unfolding append_audit approve_commission_run statement mark_run
    with_records_ok message override none w w' e = cc
    with_records_ok message none (some rs) w w' e =
        elim (Option-cases (find (is_open_run env run_id claims.org_id) w.tables.commission_runs)) [
          | inl missing ↦ absurd (ground arith)
          | inr (r, found) ↦ (rs, refl, ground arith, ((r, found), ground arith))
        ]
    with_records_ok message (some t) (some rs) w w' e =
        elim (Option-cases (find (is_open_run env run_id claims.org_id) w.tables.commission_runs)) [
          | inl missing ↦ absurd (ground arith)
          | inr (r, found) ↦ (rs, refl, ground arith, ((r, found), ground arith))
        ]

    gate_ok :
        (override : Option Text) (count : ℕ) (w w' : World)
        → finalize_gate env run_id claims override count w ≡ (returned (reply 200 body), w')
        → ((count ≡ 0) ⊎ (has_override override ≡ true))
          × AllApproved env run_id claims.org_id w.tables
          × IsMarked env run_id claims w.tables w'.tables
    unfolding get_commission_run_records query statement
    gate_ok override count w w' e =
        let next = record w { statements = suc w.statements } in
        let records = run_records claims.org_id run_id w.tables in
        ground (
          arith,
          with_records_ok "Failed to finalize commission run" override (some records) next w',
          with_records_ok "Failed to finalize commission run" override none next w',
        )

    counted_ok :
        (request : FinalizeBody) (count : Option ℕ) (w w' : World)
        → finalize_counted env run_id claims request count w ≡ (returned (reply 200 body), w')
        → (c : ℕ) × (count ≡ some c)
          × ((c ≡ 0) ⊎ (has_override (override_of request) ≡ true))
          × AllApproved env run_id claims.org_id w.tables
          × IsMarked env run_id claims w.tables w'.tables
    counted_ok null_json none w w' e = cc
    counted_ok null_json (some c) w w' e = cc
    counted_ok request none w w' e = cc
    counted_ok request (some c) w w' e =
        let (gate, all, tables) = gate_ok (override_of request) c w w' e in
        (c, refl, gate, all, tables)

    found_ok :
        (request : FinalizeBody) (found : Option (Option CommissionRunRow)) (w w' : World)
        → finalize_of env run_id claims request found w ≡ (returned (reply 200 body), w')
        → (run : CommissionRunRow) × (found ≡ some (some run))
          × (is_approved_run run.status ≡ false)
          × ((open_discrepancies claims.org_id run w.tables ≡ 0)
              ⊎ (has_override (override_of request) ≡ true))
          × AllApproved env run_id claims.org_id w.tables
          × IsMarked env run_id claims w.tables w'.tables
    unfolding count_unacknowledged_discrepancies query statement
    found_ok request none w w' e = cc
    found_ok request (some none) w w' e = cc
    found_ok request (some (some run)) w w' e =
        let next = record w { statements = suc w.statements } in
        let count = open_discrepancies claims.org_id run w.tables in
        let yea = counted_ok request (some count) next w' in
        let nay = counted_ok request none next w' in
        (
          run,
          refl,
          ground arith,
          ground (arith, yea, nay),
          ground (arith, yea, nay),
          ground (arith, yea, nay),
        )

    started_ok :
        (request : FinalizeBody) (w w' : World)
        → (attempt (get_commission_run env claims.org_id run_id)
              >>= finalize_of env run_id claims request)
            w
          ≡ (returned (reply 200 body), w')
        → IsGated run_id claims.org_id request w.tables
          × AllApproved env run_id claims.org_id w.tables
          × IsMarked env run_id claims w.tables w'.tables
    unfolding get_commission_run query statement
    started_ok request w w' e =
        let next = record w { statements = suc w.statements } in
        let found = find (is_run run_id claims.org_id) w.tables.commission_runs in
        elim (Bool-cases (env.fails w.statements)) [
          | inl failed ↦ cc
          | inr fine ↦
              let (run, is_found, not_yet, gate, all, tables) =
                found_ok request (some found) next w' (rw fine at e) in
              ((run, some-injective _ _ is_found, not_yet, gate), all, tables)
        ]

    request_ok :
        (request : FinalizeBody) (w w' : World)
        → handle_finalize_commission_run env run_id request claims w
          ≡ (returned (reply 200 body), w')
        → IsGated run_id claims.org_id request w.tables
          × AllApproved env run_id claims.org_id w.tables
          × IsMarked env run_id claims w.tables w'.tables
    unfolding handle_finalize_commission_run
    request_ok invalid_json w w' e = cc
    request_ok request w w' e = started_ok request w w' e

  -- A run that is finalized with status 200 was open, its period had no unacknowledged discrepancy
  -- or the request gave a reason, and its records were all individually approved. It is approved by
  -- the user, together with every record of it in the organisation that was accrued or pending
  -- approval; every other row and every other table stays as it was.
  pub handle_finalize_commission_run_ok :
      (run_id : Uuid) (claims : SessionClaims) (request : FinalizeBody) (w w' : World)
      (body : RunBody)
      → handle_finalize_commission_run env run_id request claims w ≡ (returned (reply 200 body), w')
      → IsGated run_id claims.org_id request w.tables
        × AllApproved env run_id claims.org_id w.tables
        × IsApproved env run_id claims w.tables w'.tables
  handle_finalize_commission_run_ok run_id claims request w w' body e =
      let (gate, all, tables) = request_ok run_id claims body request w w' e in
      (gate, all, IsMarked-IsApproved env run_id claims w.tables w'.tables tables)
