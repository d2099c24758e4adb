-- ===== src/Calculation/Loop.antt =====
-- The loop over the contributors.
use mathlib.Core.Path.{subst}
use comission_mgmt.Prelude.{
  ℕ, ◌≡◌, refl, sym, ap, ◌∙◌, Bool, Option, none, some, List, [], ◌∷◌, ◌++◌, arith, map,
}
use comission_mgmt.Core.Number.{Number}
use comission_mgmt.Core.Explanation.Text.{Format}
use comission_mgmt.Core.Engine.Stages.{commission_calculation_engine}
use comission_mgmt.Core.Engine.Pipeline.{CommissionRecord, run_calculation_pipeline}
use comission_mgmt.Store.Tables.{
  Uuid, Tables, ContributorRow, PlanVersionRow, PlacementRow, CommissionRecordRow,
}
use comission_mgmt.Store.Monad.{
  Environment, World, Outcome, returned, Response, reply, SessionClaims,
}
use comission_mgmt.Store.Steps.{continue_returned}
use comission_mgmt.Calculation.Statements.{
  new_record, add_record, resolve_active_plan_version, resolve_nought,
}
use comission_mgmt.Calculation.Handler.{
  Reading, Created, calculation_input, create_input, expiry_text, Rest, persisted, persist,
  calculate_with, calculate_all,
}
use comission_mgmt.Calculation.Resolved.{
  Pairs, append_cons, append_nil, plan_version_in, version_returned, nought_returned, created_cases,
}

-- The table of records grows by the entries' rows.
abbrev pub grown : {A : Type 0} → List (Created A) → Tables → Tables
grown {A} es t = record t {
  commission_records = t.commission_records ++ map (λ (e : Created A). e.row) es;
}

module _ {A : Type 0} ⦃n : Number A⦄ ⦃f : Format A⦄ (reading : Reading A) where
  module _ (env : Environment) (claims : SessionClaims) (p : PlacementRow) (collected : Bool)
      (window : Option ℕ) where
    -- The entry of a contributor: its plan version is the one in effect, the pipeline made the
    -- record from it, and the row holds the record.
    abbrev pub IsCreated : Tables → ContributorRow → Created A → Type 0
    IsCreated t c e =
        (v : PlanVersionRow) × (plan_version_in env.now claims.org_id c.producer_id t ≡ some v)
        × (run_calculation_pipeline commission_calculation_engine
              (calculation_input reading claims.org_id p c v n.nought n.nought collected window)
              (some v.id) (expiry_text reading window)
            ≡ some e.calculated)
        × ((id : Uuid) × (e.row
              ≡ new_record env id (create_input reading claims.org_id p c v e.calculated)))

    -- What the loop makes of the contributors.
    abbrev pub IsLoop :
        Tables → List ContributorRow → List (Created A) → List (Created A) → Tables → Type 0
    IsLoop t cs done out t' =
        (es : List (Created A)) × (out ≡ done ++ es) × Pairs (IsCreated t) cs es × (t' ≡ grown es t)

    abbrev pub IsRest : List ContributorRow → Rest reading env claims p → Type 0
    IsRest cs rest =
        (done out : List (Created A)) (w w' : World)
        → rest done w ≡ (returned (reply 200 out), w')
        → IsLoop w.tables cs done out w'.tables

    one_more :
        (rest : Rest reading env claims p) (cs : List ContributorRow) (c : ContributorRow)
        (done out : List (Created A)) (e : Created A) (t : Tables) (v w' : World)
        → IsRest cs rest
        → IsCreated t c e
        → v.tables ≡ add_record env e.row t
        → rest (done ++ (e ∷ [])) v ≡ (returned (reply 200 out), w')
        → IsLoop t (c ∷ cs) done out w'.tables
    one_more rest cs c done out e t v w' ih made added ran =
        let (es, outs, pairs, tables) = ih (done ++ (e ∷ [])) out v w' ran in
        (
          e ∷ es,
          outs ∙ append_cons done e es,
          (made, subst (λ x. Pairs (IsCreated x) cs es) added pairs),
          tables
              ∙ ap (grown es) added
              ∙ ap {A = List CommissionRecordRow} {B = Tables}
                  (λ rs. record t { commission_records = rs })
                  (append_cons t.commission_records e.row (map (λ (x : Created A). x.row) es)),
        )

    persisted-IsLoop :
        (rest : Rest reading env claims p) (cs : List ContributorRow) (c : ContributorRow)
        (done out : List (Created A)) (v : PlanVersionRow) (made : Option (CommissionRecord A))
        (t : Tables) (w w' : World)
        → IsRest cs rest
        → plan_version_in env.now claims.org_id c.producer_id t ≡ some v
        → run_calculation_pipeline commission_calculation_engine
            (calculation_input reading claims.org_id p c v n.nought n.nought collected window)
            (some v.id)
            (expiry_text reading window)
          ≡ made
        → w.tables ≡ t
        → persist reading env claims p rest done c v made w ≡ (returned (reply 200 out), w')
        → IsLoop t (c ∷ cs) done out w'.tables
    persisted-IsLoop rest cs c done out v none t w w' ih version pipeline same = λ e. absurd (cc)
    persisted-IsLoop rest cs c done out v (some r) t w w' ih version pipeline same =
        created_cases env
          (λ o. o ≡ (returned (reply 200 out), w') → IsLoop t (c ∷ cs) done out w'.tables)
          (create_input reading claims.org_id p c v r) (persisted reading env claims p rest done r)
          w (λ u e. absurd (cc))
          (λ id u added.
            one_more rest cs c done out
              (record {
                row = new_record env id (create_input reading claims.org_id p c v r);
                calculated = r;
              })
              t u w' ih (v, version, pipeline, (id, refl))
              (added
                ∙ ap
                    (add_record env
                      (new_record env id (create_input reading claims.org_id p c v r)))
                    same))

    calculated-IsLoop :
        (rest : Rest reading env claims p) (cs : List ContributorRow) (c : ContributorRow)
        (done out : List (Created A)) (found : Option PlanVersionRow) (t : Tables) (w w' : World)
        → IsRest cs rest
        → found ≡ plan_version_in env.now claims.org_id c.producer_id t
        → w.tables ≡ t
        → calculate_with reading env claims p rest done collected window c found w
          ≡ (returned (reply 200 out), w')
        → IsLoop t (c ∷ cs) done out w'.tables
    calculated-IsLoop rest cs c done out none t w w' ih version same e = absurd (cc)
    calculated-IsLoop rest cs c done out (some v) t w w' ih version same e =
        let (ytd, w1, ran1, rest1) =
          continue_returned (resolve_nought env n.nought w) _ (reply 200 out) w' e in
        let (zero1, same1) = nought_returned env n.nought ytd w w1 ran1 in
        let (draw, w2, ran2, rest2) =
          continue_returned (resolve_nought env n.nought w1) _ (reply 200 out) w' rest1 in
        let (zero2, same2) = nought_returned env n.nought draw w1 w2 ran2 in
        persisted-IsLoop rest cs c done out v
          (run_calculation_pipeline commission_calculation_engine
            (calculation_input reading claims.org_id p c v ytd draw collected window) (some v.id)
            (expiry_text reading window))
          t w2 w' ih (sym version) (rw (zero1, zero2) refl) (same2 ∙ same1 ∙ same) rest2

    finished :
        (done out : List (Created A)) (w w' : World)
        → ◌≡◌ {A = Outcome (Response (List (Created A))) × World}
            (returned (reply 200 done), w)
            (returned (reply 200 out), w')
        → (done ≡ out) × (w.tables ≡ w'.tables)
    finished done out w w' e = (ground arith, ground arith)

    pub calculate_all-IsRest :
        (cs : List ContributorRow)
        → IsRest cs (calculate_all reading env claims p collected window cs)
    unfolding calculate_all
    calculate_all-IsRest [] done out w w' e =
        let (outs, tables) = finished done out w w' e in
        (
          [],
          sym outs ∙ sym (append_nil done),
          tt,
          sym tables
              ∙ ap {A = List CommissionRecordRow} {B = Tables}
                  (λ rs. record w.tables { commission_records = rs })
                  (sym (append_nil w.tables.commission_records)),
        )
    calculate_all-IsRest (c ∷ cs) done out w w' e =
        let (found, w1, ran, rest) =
          continue_returned (resolve_active_plan_version env claims.org_id c.producer_id w) _
            (reply 200 out) w' e in
        let (version, same) = version_returned env claims.org_id c.producer_id found w w1 ran in
        calculated-IsLoop (calculate_all reading env claims p collected window cs) cs c done out
          found w.tables w1 w' (calculate_all-IsRest cs) version same rest
