-- ===== src/Calculation/Holds.antt =====
-- The holds of the records that a calculation creates.
use comission_mgmt.Prelude.{
  ℕ, ◌≡◌, ap, ◌∙◌, Bool, true, false, not, ◌||◌, Option, none, some, List, [], ◌∷◌, arith, All,
  if◌then◌else◌, find, ◌==◌,
}
use comission_mgmt.Core.Number.{Number}
use comission_mgmt.Core.Explanation.Text.{Format}
use comission_mgmt.Core.Engine.Pipeline.{CommissionRecord}
use comission_mgmt.Core.Engine.Stages.{held, accrued}
use comission_mgmt.Core.Engine.Holds.{run_calculation_pipeline-IsHeldRight}
use comission_mgmt.Store.Tables.{
  Uuid, Tables, ContributorRow, PlacementRow, CommissionRecordRow, CommissionState, HoldReason,
  collection_gate, guarantee_hold,
}
use comission_mgmt.Store.Monad.{Environment, World, returned, reply, SessionClaims}
use comission_mgmt.Calculation.Statements.{invoice_collected_in, guarantee_in, contributors_in}
use comission_mgmt.Calculation.Handler.{
  Reading, Created, is_inside, state_of, hold_reason_of, calculation_input, expiry_text,
  handle_calculate_commission,
}
use comission_mgmt.Calculation.Resolved.{Pairs}
use comission_mgmt.Calculation.Loop.{IsCreated}
use comission_mgmt.Calculation.Created.{handle_calculate_commission_ok}

-- The state and the reason that collection and guarantee call for: the collection comes first.
abbrev pub expected_state : Bool → Bool → CommissionState
expected_state collected inside =
    if not collected || inside then CommissionState.held else CommissionState.accrued

abbrev pub expected_reason : Bool → Bool → Option HoldReason
expected_reason collected inside =
    if not collected then some collection_gate else if inside then some guarantee_hold else none

module _ {A : Type 0} ⦃n : Number A⦄ ⦃f : Format A⦄ (reading : Reading A) (env : Environment)
    (claims : SessionClaims) where
  -- The row of an entry is held for what the tables say of the placement, and nothing is payable
  -- of it then.
  abbrev pub IsHeldFor : Bool → Bool → CommissionRecordRow → Type 0
  IsHeldFor collected inside row =
      (row.status ≡ expected_state collected inside)
      × (row.hold_reason ≡ expected_reason collected inside)
      × ((not collected || inside) ≡ true → row.net_payable ≡ f.to_fixed n.nought 4)

  -- The columns that the handler fills from a record that is held right.
  held_columns :
      (r : CommissionRecord A) (collected inside : Bool)
      → r.held_for_collection ≡ not collected
      → r.held_for_guarantee ≡ inside
      → r.status ≡ (if not collected || inside then held else accrued)
      → (state_of r ≡ expected_state collected inside)
        × (hold_reason_of r ≡ expected_reason collected inside)
  held_columns r true true a b c = (ground arith, ground arith)
  held_columns r true false a b c = (ground arith, ground arith)
  held_columns r false true a b c = (ground arith, ground arith)
  held_columns r false false a b c = (ground arith, ground arith)

  nothing_payable :
      (x y : A) (b : Bool)
      → x ≡ (if b then n.nought else y)
      → b ≡ true
      → f.to_fixed x 4 ≡ f.to_fixed n.nought 4
  nothing_payable x y b e k = ap (λ z. f.to_fixed z 4) (rw k at e)

  pub created-IsHeldFor :
      (p : PlacementRow) (collected : Bool) (window : Option ℕ) (t : Tables) (c : ContributorRow)
      (e : Created A)
      → IsCreated reading env claims p collected window t c e
      → IsHeldFor collected (is_inside window) e.row
  created-IsHeldFor p collected window t c e (v, version, pipeline, (id, row)) =
      let i = calculation_input reading claims.org_id p c v n.nought n.nought collected window in
      let (a, b, status, net) =
        run_calculation_pipeline-IsHeldRight i (some v.id) (expiry_text reading window) e.calculated
          pipeline in
      let (state, reason) = held_columns e.calculated collected (is_inside window) a b status in
      (
        ap (λ x. x.status) row ∙ state,
        ap (λ x. x.hold_reason) row ∙ reason,
        λ k.
            ap (λ x. x.net_payable) row
            ∙ nothing_payable e.calculated.net_payable _ (not collected || is_inside window) net k,
      )

  paired :
      (p : PlacementRow) (collected : Bool) (window : Option ℕ) (t : Tables)
      (cs : List ContributorRow) (es : List (Created A))
      → Pairs (IsCreated reading env claims p collected window t) cs es
      → All (λ e. IsHeldFor collected (is_inside window) e.row) es
  paired p collected window t [] [] h = tt
  paired p collected window t [] (e ∷ es) h = absurd h
  paired p collected window t (c ∷ cs) [] h = absurd h
  paired p collected window t (c ∷ cs) (e ∷ es) (h, hs) =
      (created-IsHeldFor p collected window t c e h, paired p collected window t cs es hs)

  -- Every record that a calculation creates is held while the placement's invoices are not all
  -- paid or a guarantee of it runs, and accrued otherwise; its reason is the collection gate in the
  -- first case, whatever the guarantee is, and the guarantee in the second; and a held record has a
  -- net payable of zero.
  pub handle_calculate_commission_holds :
      (placement_id : Uuid) (out : List (Created A)) (w w' : World)
      → handle_calculate_commission reading env claims placement_id w
        ≡ (returned (reply 200 out), w')
      → (p : PlacementRow) × (find (λ q. q.id == placement_id) w.tables.placements ≡ some p)
        × All
            (λ e.
              IsHeldFor
                (invoice_collected_in claims.org_id p.id w.tables)
                (is_inside (guarantee_in env.today claims.org_id p.id w.tables))
                e.row)
            out
  handle_calculate_commission_holds placement_id out w w' e =
      let (p, found, (own, active, (pairs, tables))) =
        handle_calculate_commission_ok reading env claims placement_id out w w' e in
      (p, found, paired p _ _ w.tables (contributors_in p.id w.tables) out pairs)
