-- ===== src/Disputes/Listing.antt =====
-- What a listing of the disputes answers.
use comission_mgmt.Prelude.{
  suc, ◌≡◌, refl, ◌⊎◌, sym, ◌∙◌, inl, inr, Bool, true, false, ◌&&◌, ◌||◌, List, ◌∷◌, ◌==◌, arith,
  All, All-map, Any, select, Bool-cases,
}
use comission_mgmt.Store.Tables.{Tables, DisputeRow}
use comission_mgmt.Store.Monad.{
  Environment, World, returned, query, statement, append_audit, reply, refuse, Response, Outcome,
  SessionClaims,
}
use comission_mgmt.Disputes.Statements.{
  newest_first, is_dispute_of, is_dispute_by, list_disputes, list_disputes_by_producer,
}
use comission_mgmt.Disputes.Handlers.{sees_all, list_audit, handle_list_disputes}
use comission_mgmt.Disputes.Newest.{
  IsNewestFirst, newest_first-All, newest_first-Any, newest_first-IsNewestFirst, select-All,
  select-Any,
}

module _ (env : Environment) (claims : SessionClaims) where
  -- A dispute of the organisation, and the user's own if the role does not see all.
  abbrev pub is_visible : DisputeRow → Bool
  is_visible d =
      d.org_id == claims.org_id && (sees_all claims.role || d.submitted_by == claims.user_id)

  -- All that is visible and nothing else, the newest first.
  abbrev pub IsListing : List DisputeRow → List DisputeRow → Type 0
  IsListing ds out =
      IsNewestFirst out
      × All (λ d. is_visible d ≡ true) out
      × ((d : DisputeRow) → Any (λ e. e ≡ d) ds → is_visible d ≡ true → Any (λ e. e ≡ d) out)

  selected-IsListing :
      (p : DisputeRow → Bool) (ds : List DisputeRow)
      → ((d : DisputeRow) → p d ≡ is_visible d)
      → IsListing ds (newest_first (select p ds))
  selected-IsListing p ds same = (
    newest_first-IsNewestFirst (select p ds),
    newest_first-All (λ d. is_visible d ≡ true) (select p ds)
        (All-map (λ d. p d ≡ true) (λ d. is_visible d ≡ true) (λ d k. sym (same d) ∙ k)
          (select p ds) (select-All p ds)),
    λ d here seen.
        newest_first-Any (λ e. e ≡ d) (select p ds) (select-Any p d ds (same d ∙ seen) here),
  )

  -- The audit row is the first statement: if it fails, nothing else is run, and if not, it stands
  -- whatever comes of the read.
  abbrev pub IsAuditedFirst : Response (List DisputeRow) → World → World → Type 0
  IsAuditedFirst answer w w' =
      ((env.fails w.statements ≡ true)
        × (answer ≡ refuse 500 "Failed to list disputes")
        × (w' ≡ record w { statements = suc w.statements }))
      ⊎ ((env.fails w.statements ≡ false)
          × (w' ≡ record w {
            audit = list_audit env claims ∷ w.audit;
            statements = suc (suc w.statements);
          }))

  -- The list, or a failure.
  abbrev pub IsListed : Response (List DisputeRow) → Tables → Type 0
  IsListed (reply s out) t = (s ≡ 200) × IsListing t.disputes out
  IsListed (refuse s m) t = s ≡ 500

  abbrev IsAnswered : Outcome (Response (List DisputeRow)) × World → World → Type 0
  IsAnswered r w =
      (answer : Response (List DisputeRow)) × (w' : World) × (r ≡ (returned answer, w'))
      × IsAuditedFirst answer w w'
      × IsListed answer w.tables

  listed_all :
      (w : World) → sees_all claims.role ≡ true → IsAnswered (handle_list_disputes env claims w) w
  unfolding handle_list_disputes list_disputes query statement append_audit
  listed_all w all = elim (Bool-cases (env.fails w.statements)) [
    | inl k ↦ rw k (_, _, refl, inl (refl, refl, refl), refl)
    | inr k ↦
        rw (k, all)
          (elim (Bool-cases (env.fails (suc w.statements))) [
            | inl j ↦ rw j (_, _, refl, inr (refl, refl), refl)
            | inr j ↦ rw j (
              _,
              _,
              refl,
              inr (refl, refl),
              (
                refl,
                selected-IsListing (is_dispute_of claims.org_id) w.tables.disputes
                    (λ d. ground (arith, all)),
              ),
            )
          ])
  ]

  listed_own :
      (w : World) → sees_all claims.role ≡ false → IsAnswered (handle_list_disputes env claims w) w
  unfolding handle_list_disputes list_disputes_by_producer query statement append_audit
  listed_own w own = elim (Bool-cases (env.fails w.statements)) [
    | inl k ↦ rw k (_, _, refl, inl (refl, refl, refl), refl)
    | inr k ↦
        rw (k, own)
          (elim (Bool-cases (env.fails (suc w.statements))) [
            | inl j ↦ rw j (_, _, refl, inr (refl, refl), refl)
            | inr j ↦ rw j (
              _,
              _,
              refl,
              inr (refl, refl),
              (
                refl,
                selected-IsListing (is_dispute_by claims.org_id claims.user_id) w.tables.disputes
                    (λ d. ground (arith, own)),
              ),
            )
          ])
  ]

  -- A listing always answers, and writes no table. Its audit row is written before it reads: if that
  -- fails, the answer is 500 and no other statement is run; otherwise the row stands even if the
  -- read fails, which is answered with status 500. An answer with status 200 has the disputes of the
  -- organisation, those of others only if the role is that of a finance admin or an executive, all of
  -- them, and the newest first.
  pub handle_list_disputes-IsAudited :
      (w : World)
      → (answer : Response (List DisputeRow)) × (w' : World) × (handle_list_disputes env claims w
          ≡ (returned answer, w'))
        × IsAuditedFirst answer w w'
        × IsListed answer w.tables
  handle_list_disputes-IsAudited w = elim (Bool-cases (sees_all claims.role)) [
    | inl all ↦ listed_all w all
    | inr own ↦ listed_own w own
  ]
