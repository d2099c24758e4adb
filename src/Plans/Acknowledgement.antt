-- ===== src/Plans/Acknowledgement.antt =====
-- A producer's acknowledgement of a plan version is given once.
use mathlib.Core.Path.{subst}
use comission_mgmt.Prelude.{
  ◌≡◌, refl, sym, ap, ◌∙◌, ◌⊎◌, inl, inr, Bool, true, false, Option, none, some, List, [], ◌∷◌,
  ◌++◌, ◌==◌, ◌&&◌, arith, any, find, Bool-cases, Option-cases, suc,
}
use comission_mgmt.Prelude.Distinct.{find-append}
use comission_mgmt.Store.Tables.{Uuid, Tables, AcknowledgmentRow, PlanAssignmentRow, PlanRow}
use comission_mgmt.Store.Monad.{
  Environment, World, M, returned, statement, query, append_audit, Response, ◌>>=◌, ◌>>◌, return,
  reply, SessionClaims,
}
use comission_mgmt.Store.Steps.{continue_returned, Keeps}
use comission_mgmt.Plans.Statements.{
  is_plan, is_assignment, is_acknowledgement, has_version, new_acknowledgement, get_plan,
  acknowledge_plan_version, get_plan_version_acknowledgment,
}
use comission_mgmt.Plans.Handlers.{
  is_producer, if_plan, audit_first, acknowledge_assigned, handle_acknowledge_plan_version,
}

module _ {A : Type 0} (p : A → Bool) where
  match_any : (xs : List A) (x : A) → find p xs ≡ some x → any p xs ≡ true
  match_any [] x e = absurd (cc)
  match_any (y ∷ xs) x e = elim (Bool-cases (p y)) [
    | inl k ↦ rw k refl
    | inr k ↦ rw k (match_any xs x (rw k at e))
  ]

  no_match : (xs : List A) → find p xs ≡ none → any p xs ≡ false
  no_match [] e = refl
  no_match (y ∷ xs) e = elim (Bool-cases (p y)) [
    | inl k ↦ absurd (ground (arith, k, e))
    | inr k ↦ rw k (no_match xs (rw k at e))
  ]

module _ (org_id version_id producer_id : Uuid) where
  -- The row of the key stood there, or is added.
  abbrev pub IsGiven : AcknowledgmentRow → Tables → Tables → Type 0
  IsGiven a t t' =
      ((find (is_acknowledgement version_id producer_id) t.plan_acknowledgments ≡ some a)
        × (t' ≡ t))
      ⊎ ((find (is_acknowledgement version_id producer_id) t.plan_acknowledgments ≡ none)
          × (is_acknowledgement version_id producer_id a ≡ true)
          × (t' ≡ record t { plan_acknowledgments = t.plan_acknowledgments ++ (a ∷ []) }))

module _ (env : Environment) where
  query_returned :
      {A : Type 0} (f : Tables → A) (a : A) (w w' : World)
      → query env f w ≡ (returned a, w')
      → (a ≡ f w.tables) × (w'.tables ≡ w.tables)
  unfolding query statement
  query_returned f a w w' e = elim (Bool-cases (env.fails w.statements)) [
    | inl k ↦ absurd (ground (arith, k, e))
    | inr k ↦ (ground (arith, k, e), ground (arith, k, e))
  ]

  module _ (org_id version_id producer_id : Uuid) where
    acknowledge-IsGiven :
        (a : AcknowledgmentRow) (w w' : World)
        → acknowledge_plan_version env org_id version_id producer_id w ≡ (returned a, w')
        → IsGiven org_id version_id producer_id a w.tables w'.tables
    unfolding acknowledge_plan_version statement query
    acknowledge-IsGiven a w w' = elim (Bool-cases (env.fails w.statements)) [
      | inl k ↦ rw k (λ ran. absurd (cc))
      | inr k ↦
          elim (Option-cases
            (find (is_acknowledgement version_id producer_id) w.tables.plan_acknowledgments)) [
              | inl missing ↦ elim (Bool-cases (has_version version_id w.tables)) [
                | inl h ↦
                    rw
                      (
                        k,
                        no_match (is_acknowledgement version_id producer_id)
                            w.tables.plan_acknowledgments missing,
                        h,
                      )
                      (λ ran.
                        let row =
                          new_acknowledgement env (env.uuid w.drawn) org_id version_id
                            producer_id in
                        let same : row ≡ a = ground (arith, ran) in
                        let after : record w.tables {
                          plan_acknowledgments = w.tables.plan_acknowledgments ++ (row ∷ []);
                        }
                            ≡ w'.tables =
                          ground (arith, ran) in
                        inr (
                          missing,
                          subst (λ x. is_acknowledgement version_id producer_id x ≡ true) same
                              (ground arith),
                          sym after
                              ∙ ap
                                  (λ x. record w.tables {
                                    plan_acknowledgments =
                                        w.tables.plan_acknowledgments ++ (x ∷ []);
                                  })
                                  same,
                        ))
                | inr h ↦
                    rw
                      (
                        k,
                        no_match (is_acknowledgement version_id producer_id)
                            w.tables.plan_acknowledgments missing,
                        h,
                      )
                      (λ ran. absurd (cc))
              ]
              | inr (b, found) ↦ elim (Bool-cases (env.fails (suc w.statements))) [
                | inl j ↦
                    rw
                      (
                        k,
                        match_any (is_acknowledgement version_id producer_id)
                            w.tables.plan_acknowledgments b found,
                        j,
                      )
                      (λ ran. absurd (cc))
                | inr j ↦
                    rw
                      (
                        k,
                        match_any (is_acknowledgement version_id producer_id)
                            w.tables.plan_acknowledgments b found,
                        j,
                        found,
                      )
                      (λ ran. inl (ground (arith, found, ran), ground (arith, ran)))
              ]
            ]
    ]

module _ (env : Environment) (claims : SessionClaims) where
  -- The audit entry is no row of the tables.
  audit_first-Keeps :
      (version_id : Uuid) (x : Option AcknowledgmentRow)
      → Keeps (audit_first env claims version_id x)
  unfolding append_audit
  audit_first-Keeps version_id (some a) w = refl
  audit_first-Keeps version_id none w = elim (Bool-cases (env.fails w.statements)) [
    | inl k ↦ rw k refl
    | inr k ↦ rw k refl
  ]

  abbrev then_audit :
      Uuid → Option AcknowledgmentRow → AcknowledgmentRow → M (Response AcknowledgmentRow)
  then_audit version_id x a = audit_first env claims version_id x >> return (reply 200 a)

  abbrev then_acknowledge : Uuid → Option AcknowledgmentRow → M (Response AcknowledgmentRow)
  then_acknowledge version_id x =
      acknowledge_plan_version env claims.org_id version_id claims.user_id
      >>= then_audit version_id x

  audited-IsGiven :
      (version_id : Uuid) (x : Option AcknowledgmentRow) (a : AcknowledgmentRow) (w w' : World)
      → then_acknowledge version_id x w ≡ (returned (reply 200 a), w')
      → IsGiven claims.org_id version_id claims.user_id a w.tables w'.tables
  audited-IsGiven version_id x a w w' ran =
      let (b, w2, given, audited) =
        continue_returned (acknowledge_plan_version env claims.org_id version_id claims.user_id w)
          (then_audit version_id x) (reply 200 a) w' ran in
      let (u, w3, third, last) =
        continue_returned (audit_first env claims version_id x w2) (λ u. return (reply 200 b))
          (reply 200 a) w' audited in
      let same : b ≡ a = ground (arith, last) in
      let end : w3.tables ≡ w'.tables = ground (arith, last) in
      let kept : w2.tables ≡ w'.tables =
        sym (audit_first-Keeps version_id x w2) ∙ ap (λ r. r.1.tables) third ∙ end in
      subst (λ c. IsGiven claims.org_id version_id claims.user_id c w.tables w'.tables) same
        (subst (λ t. IsGiven claims.org_id version_id claims.user_id b w.tables t) kept
          (acknowledge-IsGiven env claims.org_id version_id claims.user_id b w w2 given))

  answered-IsGiven :
      (version_id : Uuid) (p : Option PlanAssignmentRow) (a : AcknowledgmentRow) (w w' : World)
      → acknowledge_assigned env claims version_id p w ≡ (returned (reply 200 a), w')
      → IsGiven claims.org_id version_id claims.user_id a w.tables w'.tables
  unfolding get_plan_version_acknowledgment
  answered-IsGiven version_id none a w w' ran = absurd (ground (arith, ran))
  answered-IsGiven version_id (some p) a w w' ran =
      let (x, w1, first, after) =
        continue_returned
          (get_plan_version_acknowledgment env claims.org_id version_id claims.user_id w)
          (then_acknowledge version_id) (reply 200 a) w' ran in
      let (value, kept) =
        query_returned env
          (λ t.
            find (λ b. b.org_id == claims.org_id && is_acknowledgement version_id claims.user_id b)
              t.plan_acknowledgments)
          x w w1 first in
      subst (λ t. IsGiven claims.org_id version_id claims.user_id a t w'.tables) kept
        (audited-IsGiven version_id x a w1 w' after)

  abbrev assignment_of : Uuid → Tables → Option PlanAssignmentRow
  assignment_of version_id t =
      find (λ b. b.org_id == claims.org_id && is_assignment version_id claims.user_id b)
        t.plan_assignments

  abbrev then_assigned : Uuid → M (Response AcknowledgmentRow)
  then_assigned version_id =
      query env (assignment_of version_id) >>= acknowledge_assigned env claims version_id

  planned-IsGiven :
      (version_id : Uuid) (p : Option PlanRow) (a : AcknowledgmentRow) (w w' : World)
      → if_plan env claims (then_assigned version_id) p w ≡ (returned (reply 200 a), w')
      → IsGiven claims.org_id version_id claims.user_id a w.tables w'.tables
  planned-IsGiven version_id none a w w' ran = absurd (ground (arith, ran))
  planned-IsGiven version_id (some p) a w w' ran =
      let (x, w1, first, after) =
        continue_returned (query env (assignment_of version_id) w)
          (acknowledge_assigned env claims version_id) (reply 200 a) w' ran in
      subst (λ t. IsGiven claims.org_id version_id claims.user_id a t w'.tables)
        (query_returned env (assignment_of version_id) x w w1 first).1
        (answered-IsGiven version_id x a w1 w' after)

  handled-IsGiven :
      (plan_id version_id : Uuid) (a : AcknowledgmentRow) (w w' : World)
      → handle_acknowledge_plan_version env claims plan_id version_id w
        ≡ (returned (reply 200 a), w')
      → (is_producer env claims claims.role ≡ true)
        × IsGiven claims.org_id version_id claims.user_id a w.tables w'.tables
  unfolding handle_acknowledge_plan_version get_plan
  handled-IsGiven plan_id version_id a w w' =
      elim (Bool-cases (is_producer env claims claims.role)) [
        | inr k ↦ rw k (λ ran. absurd (ground (arith, ran)))
        | inl k ↦ rw k (λ ran.
            let (p, w1, first, planned) =
              continue_returned
                (query env (λ t. find (is_plan claims.org_id plan_id) t.commission_plans) w)
                (if_plan env claims (then_assigned version_id)) (reply 200 a) w' ran in
            (
              refl,
              subst (λ t. IsGiven claims.org_id version_id claims.user_id a t w'.tables)
                  (query_returned env (λ t. find (is_plan claims.org_id plan_id) t.commission_plans)
                    p w w1 first).1
                  (planned-IsGiven version_id p a w1 w' planned),
            ))
      ]

module _ (env env' : Environment) (claims : SessionClaims) where
  given_found :
      (version_id : Uuid) (a : AcknowledgmentRow) (t t' : Tables)
      → IsGiven claims.org_id version_id claims.user_id a t t'
      → find (is_acknowledgement version_id claims.user_id) t'.plan_acknowledgments ≡ some a
  given_found version_id a t t' (inl (found, kept)) =
      subst
        (λ x. find (is_acknowledgement version_id claims.user_id) x.plan_acknowledgments ≡ some a)
        (sym kept) found
  given_found version_id a t t' (inr (missing, own, after)) =
      subst
        (λ x. find (is_acknowledgement version_id claims.user_id) x.plan_acknowledgments ≡ some a)
        (sym after)
        (find-append (is_acknowledgement version_id claims.user_id) t.plan_acknowledgments a missing
          own)

  given_again :
      (version_id : Uuid) (a b : AcknowledgmentRow) (t t' : Tables)
      → find (is_acknowledgement version_id claims.user_id) t.plan_acknowledgments ≡ some a
      → IsGiven claims.org_id version_id claims.user_id b t t'
      → (b ≡ a) × (t' ≡ t)
  given_again version_id a b t t' e (inl (found, kept)) = (ground (arith, e, found), kept)
  given_again version_id a b t t' e (inr (missing, own, after)) =
      absurd (ground (arith, e, missing))

  -- An acknowledgement that is answered with status 200 is a producer's, stands in the table
  -- afterwards, and is given once: another one by the same producer, for the same version, at
  -- whatever plan and at whatever later time, that is answered with status 200 has the same row as
  -- its answer, its time included, and leaves the tables.
  pub handle_acknowledge_plan_version_twice :
      (plan_id plan_id' version_id : Uuid) (a b : AcknowledgmentRow) (w w' w'' : World)
      → handle_acknowledge_plan_version env claims plan_id version_id w
        ≡ (returned (reply 200 a), w')
      → handle_acknowledge_plan_version env' claims plan_id' version_id w'
        ≡ (returned (reply 200 b), w'')
      → (is_producer env claims claims.role ≡ true)
        × (find (is_acknowledgement version_id claims.user_id) w'.tables.plan_acknowledgments
            ≡ some a)
        × (b ≡ a)
        × (w''.tables ≡ w'.tables)
  handle_acknowledge_plan_version_twice plan_id plan_id' version_id a b w w' w'' first second =
      let (own, given) = handled-IsGiven env claims plan_id version_id a w w' first in
      let found = given_found version_id a w.tables w'.tables given in
      let (same, kept) =
        given_again version_id a b w'.tables w''.tables found
          (handled-IsGiven env' claims plan_id' version_id b w' w'' second).1 in
      (own, found, same, kept)
