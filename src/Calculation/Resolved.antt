-- ===== src/Calculation/Resolved.antt =====
-- What the resolvers and the creation of a record return.
use comission_mgmt.Prelude.{
  ℕ, ◌≡◌, refl, ap, ◌∙◌, inl, inr, Option, none, some, List, [], ◌∷◌, ◌++◌, arith, Bool-cases,
}
use comission_mgmt.Store.Tables.{Uuid, Tables, PlanVersionRow, CommissionRecordRow}
use comission_mgmt.Store.Monad.{
  Environment, World, Outcome, returned, M, statement, query, attempt, ◌>>=◌,
}
use comission_mgmt.Store.Steps.{continue_returned}
use comission_mgmt.Calculation.Statements.{
  assigned_version, fallback_version, or_fallback, new_record, add_record,
  CreateCommissionRecordInput, resolve_active_plan_version, resolve_nought,
  create_commission_record,
}

-- Two lists of one length whose members are related place by place.
abbrev pub Pairs : {A B : Type 0} → (A → B → Type 0) → List A → List B → Type 0
Pairs R [] [] = Unit
Pairs R (x ∷ xs) (y ∷ ys) = R x y × Pairs R xs ys
Pairs R _ _ = ⊥

abbrev pub or_version : Option PlanVersionRow → Option PlanVersionRow → Option PlanVersionRow
or_version (some v) other = some v
or_version none other = other

pub append_cons :
    {A : Type 0} (xs : List A) (y : A) (ys : List A) → (xs ++ (y ∷ [])) ++ ys ≡ xs ++ (y ∷ ys)
append_cons [] y ys = refl
append_cons (x ∷ xs) y ys = ap (λ r. x ∷ r) (append_cons xs y ys)

pub append_nil : {A : Type 0} (xs : List A) → xs ++ [] ≡ xs
append_nil [] = refl
append_nil (x ∷ xs) = ap (λ r. x ∷ r) (append_nil xs)

-- The plan version of a producer: the last assigned one, or else the organisation's last one.
abbrev pub plan_version_in : ℕ → Uuid → Uuid → Tables → Option PlanVersionRow
plan_version_in now org_id producer_id t =
    or_version (assigned_version now org_id producer_id t) (fallback_version org_id t)

module _ (env : Environment) where
  fallback_returned :
      (org_id : Uuid) (first found : Option PlanVersionRow) (w w' : World)
      → or_fallback env org_id first w ≡ (returned found, w')
      → (found ≡ or_version first (fallback_version org_id w.tables)) × (w'.tables ≡ w.tables)
  unfolding query statement
  fallback_returned org_id (some v) found w w' e = (ground arith, ground arith)
  fallback_returned org_id none found w w' e = (ground arith, ground arith)

  pub query_returned {ℓ} :
      {A : Type ℓ} (g : Tables → A) (a : A) (w w' : World)
      → query env g w ≡ (returned a, w')
      → (a ≡ g w.tables) × (w'.tables ≡ w.tables)
  unfolding query statement
  query_returned g a w w' e = elim (Bool-cases (env.fails w.statements)) [
    | inl k ↦ absurd (ground (arith, k, e))
    | inr k ↦ (ground (arith, k, e), ground (arith, k, e))
  ]

  pub version_returned :
      (org_id producer_id : Uuid) (found : Option PlanVersionRow) (w w' : World)
      → resolve_active_plan_version env org_id producer_id w ≡ (returned found, w')
      → (found ≡ plan_version_in env.now org_id producer_id w.tables) × (w'.tables ≡ w.tables)
  unfolding resolve_active_plan_version
  version_returned org_id producer_id found w w' e =
      let (first, w1, ran, rest) =
        continue_returned (query env (assigned_version env.now org_id producer_id) w)
          (or_fallback env org_id) found w' e in
      let (a, same) = query_returned (assigned_version env.now org_id producer_id) first w w1 ran in
      let (b, same') = fallback_returned org_id first found w1 w' rest in
      (b ∙ (rw (a, same) refl), same' ∙ same)

  pub nought_returned {ℓ} :
      {A : Type ℓ} (nought a : A) (w w' : World)
      → resolve_nought env nought w ≡ (returned a, w')
      → (a ≡ nought) × (w'.tables ≡ w.tables)
  unfolding query statement
  nought_returned nought a w w' e = elim (Bool-cases (env.fails w.statements)) [
    | inl k ↦ absurd (ground (arith, k, e))
    | inr k ↦ (ground (arith, k, e), ground (arith, k, e))
  ]

  -- A record is created, or its creation is caught.
  pub created_cases {ℓ κ} :
      {B : Type ℓ} (P : Outcome B × World → Type κ) (input : CreateCommissionRecordInput)
      (k : Option CommissionRecordRow → M B) (w : World)
      → ((v : World) → P (k none v))
      → ((id : Uuid) (v : World)
          → v.tables ≡ add_record env (new_record env id input) w.tables
          → P (k (some (new_record env id input)) v))
      → P ((attempt (create_commission_record env input) >>= k) w)
  unfolding create_commission_record statement
  created_cases P input k w bad good = elim (Bool-cases (env.fails w.statements)) [
    | inl e ↦ rw e (bad _)
    | inr e ↦ rw e (good _ _ refl)
  ]
