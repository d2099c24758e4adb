-- ===== src/Plans/Activation.antt =====
-- What an activation of a plan version did.
use mathlib.Core.Path.{subst}
use comission_mgmt.Prelude.{
  ◌≡◌, refl, inl, inr, true, false, some, List, [], ◌∷◌, arith, All, Zip, find, map, Bool-cases,
  Option-cases, suc,
}
use comission_mgmt.Prelude.Distinct.{find-none_of}
use comission_mgmt.Store.Tables.{Uuid, Tables, PlanRow, PlanVersionRow}
use comission_mgmt.Store.Monad.{
  Environment, World, returned, statement, query, attempt, ◌>>=◌, reply, refuse, SessionClaims,
}
use comission_mgmt.Store.Within.{attempt_statement, failed}
use comission_mgmt.Calculation.Statements.{is_active_state}
use comission_mgmt.Exceptions.Statements.{changed}
use comission_mgmt.Plans.Statements.{
  is_plan, is_version_of, is_active_of, is_draft_of, activated, switched, switch_versions, get_plan,
  activate_plan_version,
}
use comission_mgmt.Plans.Handlers.{activated_answer, handle_activate_plan_version}

module _ {A : Type 0} where
  Zip-map :
      (R : A → A → Type 0) (f : A → A) → ((x : A) → R x (f x)) → (xs : List A) → Zip R xs (map f xs)
  Zip-map R f h [] = tt
  Zip-map R f h (x ∷ xs) = (h x, Zip-map R f h xs)

  map-All :
      (P Q : A → Type 0) (f : A → A)
      → ((x : A) → P x → Q (f x))
      → (xs : List A) → All P xs
      → All Q (map f xs)
  map-All P Q f h [] k = tt
  map-All P Q f h (x ∷ xs) k = (h x k.0, map-All P Q f h xs k.1)

module _ (org_id plan_id id : Uuid) where
  -- A version of another plan stays. One of the plan is active afterwards exactly if it is the
  -- activated draft, and of its other columns none changes.
  abbrev pub IsSwitched : PlanVersionRow → PlanVersionRow → Type 0
  IsSwitched v u =
      (is_version_of org_id plan_id v ≡ false → u ≡ v)
      × (is_version_of org_id plan_id v ≡ true
          → is_active_state u.status ≡ is_draft_of org_id plan_id id v)
      × (u ≡ record v { status = u.status })

  switched-IsSwitched : (v : PlanVersionRow) → IsSwitched v (switched org_id plan_id id v)
  switched-IsSwitched v = elim (Bool-cases (is_draft_of org_id plan_id id v)) [
    | inl d ↦ rw d (λ k. absurd (ground (arith, d, k)), λ k. refl, refl)
    | inr d ↦ rw d (elim (Bool-cases (is_active_of org_id plan_id v)) [
      | inl a ↦ rw a (λ k. absurd (ground (arith, a, k)), λ k. refl, refl)
      | inr a ↦ rw a (λ k. refl, λ k. ground arith, refl)
    ])
  ]

  -- Without a draft of the identifier, every active version of the plan is retired.
  switched-retires :
      (v : PlanVersionRow)
      → is_draft_of org_id plan_id id v ≡ false
      → is_active_of org_id plan_id (switched org_id plan_id id v) ≡ false
  switched-retires v d = elim (Bool-cases (is_active_of org_id plan_id v)) [
    | inl a ↦ rw (d, a) (ground arith)
    | inr a ↦ rw (d, a) a
  ]

module _ (env : Environment) (claims : SessionClaims) where
  -- The draft that an activation found, and the versions after it.
  abbrev pub IsActivation : Uuid → Uuid → PlanVersionRow → Tables → Tables → Type 0
  IsActivation plan_id id v t t' =
      ((d : PlanVersionRow) × (find (is_draft_of claims.org_id plan_id id) t.plan_versions ≡ some d)
        × (v ≡ activated d))
      × Zip (IsSwitched claims.org_id plan_id id) t.plan_versions t'.plan_versions
      × (t' ≡ record t { plan_versions = t'.plan_versions })

  statement-IsActivation :
      (plan_id id : Uuid) (v : PlanVersionRow) (w w' : World)
      → (attempt (activate_plan_version env claims.org_id plan_id id)
            >>= activated_answer env claims)
          w
        ≡ (returned (reply 200 v), w')
      → IsActivation plan_id id v w.tables w'.tables
  unfolding activate_plan_version
  statement-IsActivation plan_id id v w w' =
      attempt_statement env
        (λ t. (
          changed activated (find (is_draft_of claims.org_id plan_id id) t.plan_versions),
          switch_versions claims.org_id plan_id id t,
        ))
        (λ r. r ≡ (returned (reply 200 v), w') → IsActivation plan_id id v w.tables w'.tables)
        (activated_answer env claims) w (λ k ran. absurd (cc))
        (λ k.
          elim (Option-cases (find (is_draft_of claims.org_id plan_id id) w.tables.plan_versions)) [
            | inl missing ↦ λ ran. absurd (ground (arith, missing, ran))
            | inr (d, found) ↦ λ ran.
                let after : switch_versions claims.org_id plan_id id w.tables ≡ w'.tables =
                  ground (arith, found, ran) in
                let kept =
                  subst
                    (λ t.
                      Zip (IsSwitched claims.org_id plan_id id) w.tables.plan_versions
                        t.plan_versions
                      × (t ≡ record w.tables { plan_versions = t.plan_versions }))
                    after
                    (
                      Zip-map (IsSwitched claims.org_id plan_id id)
                          (switched claims.org_id plan_id id)
                          (switched-IsSwitched claims.org_id plan_id id) w.tables.plan_versions,
                      refl,
                    ) in
                ((d, found, ground (arith, found, ran)), kept.0, kept.1)
          ])

  -- An activation that is answered with status 200 found the plan, and a draft of the identifier
  -- among its versions, whose activated row is the answer. Afterwards a version of the plan is
  -- active exactly if it was a draft of that identifier; the versions of other plans, and every
  -- other column and table, are as they were.
  pub handle_activate_plan_version_ok :
      (plan_id id : Uuid) (v : PlanVersionRow) (w w' : World)
      → handle_activate_plan_version env claims plan_id id w ≡ (returned (reply 200 v), w')
      → ((p : PlanRow) × (find (is_plan claims.org_id plan_id) w.tables.commission_plans ≡ some p))
        × IsActivation plan_id id v w.tables w'.tables
  unfolding handle_activate_plan_version get_plan query
  handle_activate_plan_version_ok plan_id id v w w' = elim (Bool-cases (env.fails w.statements)) [
    | inl k ↦ rw k (λ ran. absurd (cc))
    | inr k ↦
        rw k (elim (Option-cases (find (is_plan claims.org_id plan_id) w.tables.commission_plans)) [
          | inl missing ↦ rw missing (λ ran. absurd (ground (arith, ran)))
          | inr (p, found) ↦
              rw found (λ ran. ((p, refl), statement-IsActivation plan_id id v (failed w) w' ran))
        ])
  ]

  -- The activation of a version that is not a draft of the plan, on a sound run of the two
  -- statements, is answered with status 404, and leaves the plan without any active version: the
  -- statement retires the active version although it activates none.
  pub handle_activate_plan_version_lost :
      (plan_id id : Uuid) (p : PlanRow) (w : World)
      → find (is_plan claims.org_id plan_id) w.tables.commission_plans ≡ some p
      → All (λ v. is_draft_of claims.org_id plan_id id v ≡ false) w.tables.plan_versions
      → env.fails w.statements ≡ false
      → env.fails (suc w.statements) ≡ false
      → let r = handle_activate_plan_version env claims plan_id id w in
        (r.0 ≡ returned (refuse 404 "Version not found or not in Draft state"))
        × All (λ v. is_active_of claims.org_id plan_id v ≡ false) r.1.tables.plan_versions
  unfolding handle_activate_plan_version get_plan query activate_plan_version statement
  handle_activate_plan_version_lost plan_id id p w found none_draft k j =
      rw
        (
          k,
          found,
          j,
          find-none_of (is_draft_of claims.org_id plan_id id) w.tables.plan_versions none_draft,
        )
        (
          refl,
          map-All (λ v. is_draft_of claims.org_id plan_id id v ≡ false)
              (λ v. is_active_of claims.org_id plan_id v ≡ false)
              (switched claims.org_id plan_id id) (switched-retires claims.org_id plan_id id)
              w.tables.plan_versions none_draft,
        )
