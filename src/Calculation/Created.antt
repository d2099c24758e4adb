-- ===== src/Calculation/Created.antt =====
-- What a calculation that is answered with status 200 wrote.
use mathlib.Core.Path.{subst}
use comission_mgmt.Prelude.{
  ℕ, ◌≡◌, refl, sym, ap, ◌∙◌, inl, inr, Bool, true, Option, some, List, [], ◌∷◌, ◌==◌, arith, find,
  Bool-cases, Option-cases,
}
use comission_mgmt.Core.Number.{Number}
use comission_mgmt.Core.Explanation.Text.{Format}
use comission_mgmt.Store.Tables.{Uuid, Tables, ContributorRow, PlacementRow}
use comission_mgmt.Store.Monad.{Environment, World, returned, query, reply, SessionClaims}
use comission_mgmt.Store.Steps.{continue_returned}
use comission_mgmt.Store.Within.{attempt_statement, failed}
use comission_mgmt.Clawback.Statements.{get_placement}
use comission_mgmt.Calculation.Statements.{
  invoice_collected_in, guarantee_in, contributors_in, resolve_invoice_collected,
  resolve_inside_guarantee_window, list_contributors,
}
use comission_mgmt.Calculation.Handler.{
  Reading, Created, is_active, with_contributors, with_placement, handle_calculate_commission,
}
use comission_mgmt.Calculation.Resolved.{Pairs, query_returned}
use comission_mgmt.Calculation.Loop.{grown, IsCreated, calculate_all-IsRest}

module _ {A : Type 0} ⦃n : Number A⦄ ⦃f : Format A⦄ (reading : Reading A) where
  module _ (env : Environment) (claims : SessionClaims) where
    abbrev collected_for : PlacementRow → Tables → Bool
    collected_for p t = invoice_collected_in claims.org_id p.id t

    abbrev window_for : PlacementRow → Tables → Option ℕ
    window_for p t = guarantee_in env.today claims.org_id p.id t

    -- The entries of a placement, and the tables after them.
    abbrev pub IsCalculation : PlacementRow → List (Created A) → Tables → Tables → Type 0
    IsCalculation p out t t' =
        Pairs (IsCreated reading env claims p (collected_for p t) (window_for p t) t)
          (contributors_in p.id t) out
        × (t' ≡ grown out t)

    assembled :
        (p : PlacementRow) (t u : Tables) (cs : List ContributorRow) (out es : List (Created A))
        (collected : Bool) (window : Option ℕ) (t' : Tables)
        → u ≡ t
        → collected ≡ collected_for p t
        → window ≡ window_for p t
        → contributors_in p.id t ≡ cs
        → out ≡ es
        → Pairs (IsCreated reading env claims p collected window u) cs es
        → t' ≡ grown es u
        → IsCalculation p out t t'
    assembled p t u cs out es collected window t' same a b which outs pairs tables =
        let made = λ (x : Bool) (y : Option ℕ) (z : Tables). IsCreated reading env claims p x y z in
        let p1 : Pairs (made collected window t) cs es =
          subst (λ z. Pairs (made collected window z) cs es) same pairs in
        let p2 : Pairs (made (collected_for p t) window t) cs es =
          subst (λ x. Pairs (made x window t) cs es) a p1 in
        let p3 : Pairs (made (collected_for p t) (window_for p t) t) cs es =
          subst (λ y. Pairs (made (collected_for p t) y t) cs es) b p2 in
        (
          subst (λ xs. Pairs (made (collected_for p t) (window_for p t) t) xs out) (sym which)
              (subst (λ xs. Pairs (made (collected_for p t) (window_for p t) t) cs xs) (sym outs)
                p3),
          tables ∙ ap (grown es) same ∙ ap (λ x. grown x t) (sym outs),
        )

    loop-IsCalculation :
        (p : PlacementRow) (t : Tables) (cs : List ContributorRow) (out : List (Created A))
        (w w' : World)
        → w.tables ≡ t
        → contributors_in p.id t ≡ cs
        → with_contributors reading env claims p (some cs) w ≡ (returned (reply 200 out), w')
        → IsCalculation p out t w'.tables
    loop-IsCalculation p t [] out w w' same which e = absurd (cc)
    loop-IsCalculation p t (c ∷ cs) out w w' same which e =
        let (collected, w1, ran1, rest1) =
          continue_returned (resolve_invoice_collected env claims.org_id p.id w) _ (reply 200 out)
            w' e in
        let (a, same1) = collected_returned p collected w w1 ran1 in
        let (window, w2, ran2, rest2) =
          continue_returned (resolve_inside_guarantee_window env claims.org_id p.id w1) _
            (reply 200 out) w' rest1 in
        let (b, same2) = window_returned p window w1 w2 ran2 in
        let (es, outs, pairs, tables) =
          calculate_all-IsRest reading env claims p collected window (c ∷ cs) [] out w2 w' rest2 in
        assembled p t w2.tables (c ∷ cs) out es collected window w'.tables (same2 ∙ same1 ∙ same)
          (a ∙ ap (collected_for p) same) (b ∙ ap (window_for p) (same1 ∙ same)) which outs pairs
          tables
      where
        collected_returned :
            (p : PlacementRow) (a : Bool) (w w' : World)
            → resolve_invoice_collected env claims.org_id p.id w ≡ (returned a, w')
            → (a ≡ collected_for p w.tables) × (w'.tables ≡ w.tables)
        collected_returned p a w w' e =
            query_returned env (invoice_collected_in claims.org_id p.id) a w w'
              (unfold resolve_invoice_collected in e)

        window_returned :
            (p : PlacementRow) (a : Option ℕ) (w w' : World)
            → resolve_inside_guarantee_window env claims.org_id p.id w ≡ (returned a, w')
            → (a ≡ window_for p w.tables) × (w'.tables ≡ w.tables)
        window_returned p a w w' e =
            query_returned env (guarantee_in env.today claims.org_id p.id) a w w'
              (unfold resolve_inside_guarantee_window in e)

    placed-IsCalculation :
        (p : PlacementRow) (t : Tables) (out : List (Created A)) (w w' : World)
        → w.tables ≡ t
        → with_placement reading env claims (some (some p)) w ≡ (returned (reply 200 out), w')
        → (p.org_id == claims.org_id ≡ true)
          × (is_active p.status ≡ true)
          × IsCalculation p out t w'.tables
    unfolding list_contributors query
    placed-IsCalculation p t out w w' same = elim (Bool-cases (p.org_id == claims.org_id)) [
      | inr k ↦ rw k (λ e. absurd (cc))
      | inl k ↦ rw k (elim (Bool-cases (is_active p.status)) [
        | inr l ↦ rw l (λ e. absurd (cc))
        | inl l ↦ rw l (
            attempt_statement env (λ t. (contributors_in p.id t, t))
              (λ r.
                r ≡ (returned (reply 200 out), w')
                → (true ≡ true) × (true ≡ true) × IsCalculation p out t w'.tables)
              (with_contributors reading env claims p) w (λ m e. absurd (cc))
              (λ m e. (
                refl,
                refl,
                loop-IsCalculation p t (contributors_in p.id w.tables) out (failed w) w' same
                    (ap (contributors_in p.id) (sym same)) e,
              )))
      ])
    ]

    -- A calculation that is answered with status 200 found the placement, active and of the
    -- organisation. Its entries are those of the placement's contributors, in the order of their
    -- creation: each has the plan version in effect for the producer, the record that the pipeline
    -- makes of the contributor under that version, with the collection of the placement's invoices,
    -- its guarantee window, no production of the year and no draw, and the row that holds the
    -- record. These rows are added to the commission records, and nothing else changes.
    pub handle_calculate_commission_ok :
        (placement_id : Uuid) (out : List (Created A)) (w w' : World)
        → handle_calculate_commission reading env claims placement_id w
          ≡ (returned (reply 200 out), w')
        → (p : PlacementRow) × (find (λ q. q.id == placement_id) w.tables.placements ≡ some p)
          × ((p.org_id == claims.org_id ≡ true)
              × (is_active p.status ≡ true)
              × IsCalculation p out w.tables w'.tables)
    unfolding handle_calculate_commission get_placement query
    handle_calculate_commission_ok placement_id out w w' =
        attempt_statement env (λ t. (find (λ q. q.id == placement_id) t.placements, t))
          (λ r.
            r ≡ (returned (reply 200 out), w')
            → (p : PlacementRow) × (find (λ q. q.id == placement_id) w.tables.placements ≡ some p)
              × ((p.org_id == claims.org_id ≡ true)
                  × (is_active p.status ≡ true)
                  × IsCalculation p out w.tables w'.tables))
          (with_placement reading env claims) w (λ m e. absurd (cc))
          (λ m. elim (Option-cases (find (λ q. q.id == placement_id) w.tables.placements)) [
            | inl missing ↦ λ e. absurd (ground (arith, missing, e))
            | inr (p, found) ↦ λ e.
                (p, found, placed-IsCalculation p w.tables out (failed w) w' refl (rw found at e))
          ])
