-- ===== src/Plans/Versions.antt =====
-- What the creation of a plan version did.
use mathlib.Core.Path.{subst}
use comission_mgmt.Prelude.{
  sym, ℕ, ◌+◌, ◌≡◌, refl, inl, inr, true, Option, some, List, [], ◌∷◌, ◌==◌, ltb, arith, All,
  All-map, find, select, Bool-cases, Option-cases,
}
use comission_mgmt.Core.Number.{Number}
use comission_mgmt.Store.Tables.{Uuid, Tables, PlanRow, PlanVersionRow}
use comission_mgmt.Store.Monad.{
  Environment, World, returned, statement, query, attempt, ◌>>=◌, reply, SessionClaims, json_body,
}
use comission_mgmt.Store.Within.{failed}
use comission_mgmt.Plans.Statements.{
  CreatePlanVersionInput, is_plan, is_draft_state, is_plan_version, larger, max_version,
  add_version, next_version, get_plan, create_plan_version,
}
use comission_mgmt.Plans.Handlers.{
  PlanRulesBody, CreatePlanVersionBody, validate_plan_rules, created_version,
  handle_create_plan_version,
}

larger_left : (x y : ℕ) → ltb x (larger x y + 1) ≡ true
larger_left x y = elim (Bool-cases (ltb x y)) [
  | inl e ↦ rw e (ground (arith, e))
  | inr e ↦ rw e (ground (arith, e))
]

larger_right : (n x y : ℕ) → ltb n (y + 1) ≡ true → ltb n (larger x y + 1) ≡ true
larger_right n x y h = elim (Bool-cases (ltb x y)) [
  | inl e ↦ rw e h
  | inr e ↦ rw e (ground (arith, e, h))
]

-- The number is above that of each version of the plan.
abbrev pub IsAbove : Uuid → ℕ → List PlanVersionRow → Type 0
IsAbove plan_id num vs = All (λ u. u.plan_id == plan_id ≡ true → ltb u.version_num num ≡ true) vs

-- The greatest number among the plan's versions.
abbrev greatest : Uuid → List PlanVersionRow → ℕ
greatest plan_id vs = max_version (select (is_plan_version plan_id) vs)

next-IsAbove :
    (plan_id : Uuid) (vs : List PlanVersionRow) → IsAbove plan_id (greatest plan_id vs + 1) vs
next-IsAbove plan_id [] = tt
next-IsAbove plan_id (v ∷ vs) = elim (Bool-cases (is_plan_version plan_id v)) [
  | inl e ↦
      let now : greatest plan_id (v ∷ vs) ≡ larger v.version_num (greatest plan_id vs) =
        rw e refl in
      subst (λ m. IsAbove plan_id (m + 1) (v ∷ vs)) (sym now)
        (
          λ k. larger_left v.version_num (greatest plan_id vs),
          All-map
              (λ u.
                u.plan_id == plan_id ≡ true → ltb u.version_num (greatest plan_id vs + 1) ≡ true)
              (λ u.
                u.plan_id == plan_id ≡ true
                → ltb u.version_num (larger v.version_num (greatest plan_id vs) + 1) ≡ true)
              (λ u h k. larger_right u.version_num v.version_num (greatest plan_id vs) (h k)) vs
              (next-IsAbove plan_id vs),
        )
  | inr e ↦
      let now : greatest plan_id (v ∷ vs) ≡ greatest plan_id vs = rw e refl in
      subst (λ m. IsAbove plan_id (m + 1) (v ∷ vs)) (sym now)
        (λ k. absurd (ground (arith, e, k)), next-IsAbove plan_id vs)
]

module _ {ℓ} {A : Type ℓ} ⦃n : Number A⦄ (env : Environment) (claims : SessionClaims)
    (document : PlanRulesBody A → ℕ) where
  -- The row that is added, which is a draft with a number above those of the plan's versions.
  abbrev pub IsNewVersion : Uuid → PlanVersionRow → Tables → Tables → Type 0
  IsNewVersion plan_id v t t' =
      (is_draft_state v.status ≡ true)
      × (v.plan_id ≡ plan_id)
      × (v.org_id ≡ claims.org_id)
      × IsAbove plan_id v.version_num t.plan_versions
      × (t' ≡ add_version v t)

  abbrev version_input : Uuid → Option ℕ → ℕ → CreatePlanVersionInput
  version_input plan_id at rules = record {
    org_id = claims.org_id;
    plan_id = plan_id;
    rules = rules;
    effective_at = at;
  }

  insert-IsNewVersion :
      (plan_id : Uuid) (at : Option ℕ) (rules : ℕ) (v : PlanVersionRow) (w w' : World)
      → (attempt (create_plan_version env (version_input plan_id at rules))
            >>= created_version env claims)
          w
        ≡ (returned (reply 201 v), w')
      → (v.rules_snapshot ≡ rules) × IsNewVersion plan_id v w.tables w'.tables
  unfolding create_plan_version statement
  insert-IsNewVersion plan_id at rules v w w' = elim (Bool-cases (env.fails w.statements)) [
    | inl k ↦ rw k (λ ran. absurd (cc))
    | inr k ↦ rw k (λ ran.
        let row = next_version env (env.uuid w.drawn) (version_input plan_id at rules) w.tables in
        let same : row ≡ v = ground (arith, ran) in
        let after : add_version row w.tables ≡ w'.tables = ground (arith, ran) in
        subst (λ t. (v.rules_snapshot ≡ rules) × IsNewVersion plan_id v w.tables t) after
          (subst
            (λ u.
              (u.rules_snapshot ≡ rules)
              × IsNewVersion plan_id u w.tables (add_version row w.tables))
            same (refl, (refl, refl, refl, next-IsAbove plan_id w.tables.plan_versions, refl))))
  ]

  -- A version that is created with status 201 belongs to a plan of the organisation, and its rules
  -- are those of the body, which are valid. It is added to the versions as a draft, whose number is
  -- above that of every version of the plan, and no other table is written.
  pub handle_create_plan_version_created :
      (plan_id : Uuid) (b : CreatePlanVersionBody A) (v : PlanVersionRow) (w w' : World)
      → handle_create_plan_version env claims document plan_id (json_body b) w
        ≡ (returned (reply 201 v), w')
      → ((rules : PlanRulesBody A) × (b.rules ≡ some rules)
          × (validate_plan_rules rules ≡ true)
          × (v.rules_snapshot ≡ document rules))
        × ((p : PlanRow) × (find (is_plan claims.org_id plan_id) w.tables.commission_plans
              ≡ some p))
        × IsNewVersion plan_id v w.tables w'.tables
  unfolding handle_create_plan_version get_plan query statement
  handle_create_plan_version_created plan_id b v w w' = elim (Option-cases b.rules) [
    | inl missing ↦ rw missing (λ ran. absurd (ground (arith, ran)))
    | inr (rules, given) ↦ elim (Bool-cases (validate_plan_rules rules)) [
      | inr bad ↦ rw (given, bad) (λ ran. absurd (ground (arith, ran)))
      | inl good ↦ elim (Bool-cases (env.fails w.statements)) [
        | inl k ↦ rw (given, good, k) (λ ran. absurd (cc))
        | inr k ↦
            elim (Option-cases (find (is_plan claims.org_id plan_id) w.tables.commission_plans)) [
              | inl none_found ↦
                  rw (given, good, k, none_found) (λ ran. absurd (ground (arith, ran)))
              | inr (p, found) ↦
                  rw (given, good, k, found)
                    (λ ran.
                      let new =
                        insert-IsNewVersion plan_id b.effective_at (document rules) v (failed w) w'
                          ran in
                      ((rules, refl, good, new.0), (p, refl), new.1))
            ]
      ]
    ]
  ]
