-- ===== src/Exceptions/Decided.antt =====
-- An exception is decided once, whatever requests and other sessions come between.
use mathlib.Core.Path.{subst}
use comission_mgmt.Prelude.{
  ◌≡◌, refl, sym, ap, ◌∙◌, ◌⊎◌, inl, inr, Bool, false, Option, none, some, arith, All,
  All-update_where, find, Bool-cases, Option-cases,
}
use comission_mgmt.Prelude.Distinct.{find-none_of, update_where-none_of}
use comission_mgmt.Prelude.Codes.{is_blank}
use comission_mgmt.Core.Explanation.Text.{Text}
use comission_mgmt.Store.Tables.{Uuid, Tables, ExceptionRow}
use comission_mgmt.Store.Monad.{
  Environment, World, returned, M, statement, query, append_audit, Response, reply, SessionClaims,
  ◌>>=◌, ◌>>◌, attempt, Body, invalid_body, null_body, json_body,
}
use comission_mgmt.Store.Within.{attempt_statement, failed, written}
use comission_mgmt.Exceptions.Statements.{
  is_exception, is_open_exception, decide, approved_row, rejected_row, approve_exception,
  reject_exception, get_exception,
}
use comission_mgmt.Exceptions.Handlers.{
  is_finance_admin, is_decided, if_undecided, approved_answer, rejected_answer, reject_after,
  reject_for, reject_body, handle_approve_exception, handle_reject_exception,
}
use comission_mgmt.Guarantee.Worker.{interrupted}
use comission_mgmt.Exceptions.Approval.{IsAdjusted, approved_tables, handle_approve_exception_ok}

-- No row of the exception can still be decided.
abbrev pub IsSettled : Uuid → Uuid → Tables → Type 0
IsSettled org_id id t = All (λ e. is_open_exception org_id id e ≡ false) t.exceptions

module _ (env : Environment) (claims : SessionClaims) where
  -- A decision closes what it finds, and writes nothing where all is closed.
  decide-IsSettled :
      (id : Uuid) (f : ExceptionRow → ExceptionRow) (t : Tables)
      → ((e : ExceptionRow) → is_open_exception claims.org_id id (f e) ≡ false)
      → IsSettled claims.org_id id (decide env claims.org_id id f t).1
  decide-IsSettled id f t closed =
      All-update_where _ (is_open_exception claims.org_id id) f (λ e k. closed e) (λ e k. k)
        t.exceptions

  approved-IsSettled :
      (sum : Text → Text → Text) (id : Uuid) (e : ExceptionRow) (adjusted : Bool) (t t' : Tables)
      → IsAdjusted env sum claims e.impact_amount e.commission_record_id adjusted
          (approved_tables env sum claims id t)
          t'
      → IsSettled claims.org_id id t'
  approved-IsSettled sum id e adjusted t t' (inl (no_change, same)) =
      subst (IsSettled claims.org_id id) (sym same)
        (decide-IsSettled id (approved_row env claims.user_id) t (λ x. ground arith))
  approved-IsSettled sum id e adjusted t t'
        (inr (change, (amount, record_id, c, a, b, found, same))) =
      subst (IsSettled claims.org_id id) (sym same)
        (decide-IsSettled id (approved_row env claims.user_id) t (λ x. ground arith))

  -- The tables that a request leaves are those that it or its update found.
  abbrev pub IsLeft : Tables → Tables → Tables → Type 0
  IsLeft t u t' = (t' ≡ t) ⊎ (t' ≡ u)

  -- Where all is closed, an update answers no row and writes nothing.
  closed_update {ℓ} :
      {B : Type ℓ} (id : Uuid) (f : ExceptionRow → ExceptionRow)
      (answer : Option (Option ExceptionRow) → M (Response B)) (w : World)
      → ((v : World) → (answer none v).1.tables ≡ v.tables)
      → ((v : World) → (answer (some none) v).1.tables ≡ v.tables)
      → IsSettled claims.org_id id w.tables
      → ((attempt (statement env (decide env claims.org_id id f)) >>= answer) w).1.tables ≡ w.tables
  closed_update id f answer w bad none_found h =
      attempt_statement env (decide env claims.org_id id f) (λ r. r.1.tables ≡ w.tables) answer w
        (λ k. bad (failed w))
        (λ k.
          rw
            (
              find-none_of (is_open_exception claims.org_id id) w.tables.exceptions h,
              update_where-none_of (is_open_exception claims.org_id id) f w.tables.exceptions h,
            )
            (none_found (written w.tables w)))

  review-IsLeft {ℓ} :
      {B : Type ℓ} (others : Tables → Tables) (id : Uuid) (f : ExceptionRow → ExceptionRow)
      (answer : Option (Option ExceptionRow) → M (Response B)) (w : World)
      → ((v : World) → (answer none v).1.tables ≡ v.tables)
      → ((v : World) → (answer (some none) v).1.tables ≡ v.tables)
      → IsSettled claims.org_id id (others w.tables)
      → IsLeft w.tables
          (others w.tables)
          ((attempt (get_exception env claims.org_id id)
              >>= if_undecided env (
                  interrupted others
                  >> (attempt (statement env (decide env claims.org_id id f)) >>= answer)))
            w).1.tables
  unfolding get_exception query
  review-IsLeft others id f answer w bad none_found h =
      attempt_statement env (λ t. (find (is_exception claims.org_id id) t.exceptions, t))
        (λ r. IsLeft w.tables (others w.tables) r.1.tables)
        (if_undecided env (
          interrupted others
          >> (attempt (statement env (decide env claims.org_id id f)) >>= answer)))
        w (λ m. inl refl)
        (λ m. elim (Option-cases (find (is_exception claims.org_id id) w.tables.exceptions)) [
          | inl missing ↦ rw missing (inl refl)
          | inr (i, found) ↦ rw found (elim (Bool-cases (is_decided i.status)) [
            | inl d ↦ rw d (inl refl)
            | inr d ↦ rw d (
                inr (
                  closed_update id f answer (record (failed w) { tables = others w.tables }) bad
                    none_found h))
          ])
        ])

  approve-IsLeft :
      (sum : Text → Text → Text) (others : Tables → Tables) (id : Uuid) (w : World)
      → IsSettled claims.org_id id (others w.tables)
      → IsLeft w.tables
          (others w.tables)
          (handle_approve_exception env sum claims others id w).1.tables
  unfolding handle_approve_exception approve_exception
  approve-IsLeft sum others id w h = elim (Bool-cases (is_finance_admin claims.role)) [
    | inr k ↦ rw k (inl refl)
    | inl k ↦ rw k (
        review-IsLeft others id (approved_row env claims.user_id) (approved_answer env sum claims) w
          (λ v. refl) (λ v. refl) h)
  ]

  reject_for-IsLeft :
      (others : Tables → Tables) (id : Uuid) (reason : Option Text) (w : World)
      → IsSettled claims.org_id id (others w.tables)
      → IsLeft w.tables (others w.tables) (reject_for env claims others id reason w).1.tables
  unfolding reject_exception
  reject_for-IsLeft others id none w h = inl refl
  reject_for-IsLeft others id (some reason) w h = elim (Bool-cases (is_blank reason)) [
    | inl b ↦ rw b (inl refl)
    | inr b ↦ rw b (
        review-IsLeft others id (rejected_row env claims.user_id reason)
          (rejected_answer env claims) w (λ v. refl) (λ v. refl) h)
  ]

  reject_body-IsLeft :
      (others : Tables → Tables) (id : Uuid) (body : Body (Option Text)) (w : World)
      → IsSettled claims.org_id id (others w.tables)
      → IsLeft w.tables (others w.tables) (reject_body env claims others id body w).1.tables
  reject_body-IsLeft others id invalid_body w h = inl refl
  reject_body-IsLeft others id null_body w h = inl refl
  reject_body-IsLeft others id (json_body reason) w h = reject_for-IsLeft others id reason w h

  reject-IsLeft :
      (others : Tables → Tables) (id : Uuid) (body : Body (Option Text)) (w : World)
      → IsSettled claims.org_id id (others w.tables)
      → IsLeft w.tables
          (others w.tables)
          (handle_reject_exception env claims others id body w).1.tables
  unfolding handle_reject_exception
  reject-IsLeft others id body w h = elim (Bool-cases (is_finance_admin claims.role)) [
    | inr k ↦ rw k (inl refl)
    | inl k ↦ rw k (reject_body-IsLeft others id body w h)
  ]

  rejected_answer_kept :
      (r : Option (Option ExceptionRow)) (v : World)
      → (rejected_answer env claims r v).1.tables ≡ v.tables
  unfolding append_audit
  rejected_answer_kept none v = refl
  rejected_answer_kept (some none) v = refl
  rejected_answer_kept (some (some e)) v = elim (Bool-cases (env.fails v.statements)) [
    | inl k ↦ rw k refl
    | inr k ↦ rw k refl
  ]

  -- A rejection that is answered with status 200 leaves its decision.
  rejection-IsSettled :
      (others : Tables → Tables) (id : Uuid) (reason : Text) (e : ExceptionRow) (w w' : World)
      → reject_after env claims others id reason w ≡ (returned (reply 200 e), w')
      → IsSettled claims.org_id id w'.tables
  unfolding reject_exception
  rejection-IsSettled others id reason e w w' =
      let f = rejected_row env claims.user_id reason in
      attempt_statement env (decide env claims.org_id id f)
        (λ r. r ≡ (returned (reply 200 e), w') → IsSettled claims.org_id id w'.tables)
        (rejected_answer env claims) (record w { tables = others w.tables }) (λ k ran. absurd (cc))
        (λ k ran.
          subst (IsSettled claims.org_id id)
            (sym (
                rejected_answer_kept (some (decide env claims.org_id id f (others w.tables)).0) (
                  written (decide env claims.org_id id f (others w.tables)).1
                    (record w { tables = others w.tables })))
              ∙ ap (λ r. r.1.tables) ran)
            (decide-IsSettled id f (others w.tables) (λ x. ground arith)))

  reject_for-IsSettled :
      (others : Tables → Tables) (id : Uuid) (reason : Option Text) (e : ExceptionRow)
      (w w' : World)
      → reject_for env claims others id reason w ≡ (returned (reply 200 e), w')
      → IsSettled claims.org_id id w'.tables
  unfolding get_exception query
  reject_for-IsSettled others id none e w w' = λ ran. absurd (cc)
  reject_for-IsSettled others id (some reason) e w w' = elim (Bool-cases (is_blank reason)) [
    | inl b ↦ rw b (λ ran. absurd (cc))
    | inr b ↦ rw b (
        attempt_statement env (λ t. (find (is_exception claims.org_id id) t.exceptions, t))
          (λ r. r ≡ (returned (reply 200 e), w') → IsSettled claims.org_id id w'.tables)
          (if_undecided env (reject_after env claims others id reason)) w (λ m ran. absurd (cc))
          (λ m. elim (Option-cases (find (is_exception claims.org_id id) w.tables.exceptions)) [
            | inl missing ↦ λ ran. absurd (ground (arith, missing, ran))
            | inr (i, found) ↦ elim (Bool-cases (is_decided i.status)) [
              | inl d ↦ λ ran. absurd (ground (arith, found, d, ran))
              | inr d ↦
                  λ ran. rejection-IsSettled others id reason e (failed w) w' (rw (found, d) at ran)
            ]
          ]))
  ]

  reject-IsSettled :
      (others : Tables → Tables) (id : Uuid) (body : Body (Option Text)) (e : ExceptionRow)
      (w w' : World)
      → handle_reject_exception env claims others id body w ≡ (returned (reply 200 e), w')
      → IsSettled claims.org_id id w'.tables
  unfolding handle_reject_exception
  reject-IsSettled others id body e w w' = elim (Bool-cases (is_finance_admin claims.role)) [
    | inr k ↦ rw k (λ ran. absurd (cc))
    | inl k ↦ rw k (bodied body)
  ]
    where
      bodied :
          (body : Body (Option Text))
          → reject_body env claims others id body w ≡ (returned (reply 200 e), w')
          → IsSettled claims.org_id id w'.tables
      bodied invalid_body ran = absurd (cc)
      bodied null_body ran = absurd (cc)
      bodied (json_body reason) ran = reject_for-IsSettled others id reason e w w' ran

  -- An exception is decided once. An approval or a rejection that is answered with status 200
  -- leaves no row of the exception that could still be decided; and where no such row is left at
  -- the update of an approval or a rejection, the request writes no table, and so adjusts no
  -- ledger, whatever it read before others wrote.
  pub decided_once :
      (sum : Text → Text → Text) (others : Tables → Tables) (id : Uuid) (w : World)
      → ((e : ExceptionRow) (adjusted : Bool) (w' : World)
          → handle_approve_exception env sum claims others id w
            ≡ (returned (reply 200 (e, adjusted)), w')
          → IsSettled claims.org_id id w'.tables)
        × ((body : Body (Option Text)) (e : ExceptionRow) (w' : World)
            → handle_reject_exception env claims others id body w ≡ (returned (reply 200 e), w')
            → IsSettled claims.org_id id w'.tables)
        × (IsSettled claims.org_id id (others w.tables)
            → IsLeft w.tables
                (others w.tables)
                (handle_approve_exception env sum claims others id w).1.tables
              × ((body : Body (Option Text))
                  → IsLeft w.tables
                      (others w.tables)
                      (handle_reject_exception env claims others id body w).1.tables))
  decided_once sum others id w = (
    λ e adjusted w' ran.
        let (role, read, (update, adjust)) =
          handle_approve_exception_ok env sum claims others id e adjusted w w' ran in
        approved-IsSettled sum id e adjusted (others w.tables) w'.tables adjust,
    λ body e w' ran. reject-IsSettled others id body e w w' ran,
    λ h. (approve-IsLeft sum others id w h, λ body. reject-IsLeft others id body w h),
  )
