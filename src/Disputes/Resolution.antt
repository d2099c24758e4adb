-- ===== src/Disputes/Resolution.antt =====
-- What a resolution of a dispute did.
use mathlib.Core.Path.{subst}
use comission_mgmt.Prelude.{
  ◌≡◌, refl, sym, inl, inr, true, false, Option, none, some, arith, All, any, All-update_where,
  find, update_where, Bool-cases, Option-cases,
}
use comission_mgmt.Prelude.Codes.{is_blank}
use comission_mgmt.Core.Explanation.Text.{Text}
use comission_mgmt.Store.Tables.{Uuid, Tables, DisputeRow}
use comission_mgmt.Store.Monad.{
  Environment, World, returned, statement, query, append_audit, reply, SessionClaims, Body,
  invalid_body, null_body, json_body,
}
use comission_mgmt.Store.Within.{attempt_statement, failed, written}
use comission_mgmt.Disputes.Statements.{
  is_dispute, is_open_dispute, resolved_row, may_resolve_with, resolve_dispute, get_dispute,
}
use comission_mgmt.Disputes.Handlers.{
  ResolveDisputeBody, may_resolve, is_resolved, resolved_answer, resolve_after, if_unresolved,
  resolve_for, resolve_body, handle_resolve_dispute,
}

module _ (env : Environment) (claims : SessionClaims) where
  abbrev pub resolved_tables : Uuid → Text → Option Uuid → Tables → Tables
  resolved_tables id note exception_id t = record t {
    disputes =
        update_where (is_open_dispute claims.org_id id)
          (resolved_row env claims.user_id note exception_id) t.disputes;
  }

  -- The update found the dispute open and resolved it; no row of it is open any more, and no other
  -- table is written.
  abbrev pub IsResolution : Uuid → Text → Option Uuid → DisputeRow → Tables → Tables → Type 0
  IsResolution id note exception_id d t t' =
      ((i : DisputeRow) × (find (is_open_dispute claims.org_id id) t.disputes ≡ some i)
        × (d ≡ resolved_row env claims.user_id note exception_id i))
      × (may_resolve_with exception_id t ≡ true)
      × All (λ x. is_open_dispute claims.org_id id x ≡ false) t'.disputes
      × (t' ≡ resolved_tables id note exception_id t)

  answered_row :
      (i d : DisputeRow) (v w' : World)
      → resolved_answer env claims (some (some i)) v ≡ (returned (reply 200 d), w')
      → (d ≡ i) × (w'.tables ≡ v.tables)
  unfolding append_audit
  answered_row i d v w' = elim (Bool-cases (env.fails v.statements)) [
    | inl k ↦ rw k (λ ran. (ground arith, ground arith))
    | inr k ↦ rw k (λ ran. (ground arith, ground arith))
  ]

  resolution :
      (others : Tables → Tables) (id : Uuid) (note : Text) (exception_id : Option Uuid)
      (d : DisputeRow) (w w' : World)
      → resolve_after env claims others id note exception_id w ≡ (returned (reply 200 d), w')
      → IsResolution id note exception_id d (others w.tables) w'.tables
  unfolding resolve_dispute statement
  resolution others id note exception_id d w w' = elim (Bool-cases (env.fails w.statements)) [
    | inl k ↦ rw k (λ ran. absurd (cc))
    | inr k ↦
        rw k
          (elim (Bool-cases (any (is_open_dispute claims.org_id id) (others w.tables).disputes)) [
            | inr a ↦ rw a (λ ran. absurd (cc))
            | inl a ↦ rw a (elim (Bool-cases (may_resolve_with exception_id (others w.tables))) [
              | inr m ↦ rw m (λ ran. absurd (cc))
              | inl m ↦
                  rw m
                    (elim (Option-cases
                      (find (is_open_dispute claims.org_id id) (others w.tables).disputes)) [
                        | inl missing ↦ rw missing (λ ran. absurd (cc))
                        | inr (i, found) ↦ rw found (λ ran.
                            let (row, tables) =
                              answered_row (resolved_row env claims.user_id note exception_id i) d
                                (written (resolved_tables id note exception_id (others w.tables)) w)
                                w' ran in
                            (
                              (i, refl, row),
                              refl,
                              subst
                                  (λ x.
                                    All (λ y. is_open_dispute claims.org_id id y ≡ false)
                                      x.disputes)
                                  (sym tables)
                                  (All-update_where _ (is_open_dispute claims.org_id id)
                                    (resolved_row env claims.user_id note exception_id)
                                    (λ y h. ground arith) (λ y h. h) (others w.tables).disputes),
                              tables,
                            ))
                      ])
            ])
          ])
  ]

  -- How a request came to its resolution: the note, and the dispute as the first query found it.
  abbrev pub IsResolved :
      (Tables → Tables) → Uuid → Body ResolveDisputeBody → DisputeRow → Tables → Tables → Type 0
  IsResolved others id body d t t' =
      (b : ResolveDisputeBody) × (note : Text) × (i : DisputeRow) × (body ≡ json_body b)
      × (b.resolution_note ≡ some note)
      × (is_blank note ≡ false)
      × (find (is_dispute claims.org_id id) t.disputes ≡ some i)
      × (is_resolved i.state ≡ false)
      × IsResolution id note b.exception_id d (others t) t'

  noted :
      (others : Tables → Tables) (id : Uuid) (b : ResolveDisputeBody) (given : Option Text)
      (d : DisputeRow) (w w' : World)
      → b.resolution_note ≡ given
      → resolve_for env claims others id b.exception_id given w ≡ (returned (reply 200 d), w')
      → IsResolved others id (json_body b) d w.tables w'.tables
  unfolding get_dispute query
  noted others id b none d w w' same = λ ran. absurd (cc)
  noted others id b (some note) d w w' same = elim (Bool-cases (is_blank note)) [
    | inl k ↦ rw k (λ ran. absurd (cc))
    | inr k ↦ λ ran.
        attempt_statement env (λ t. (find (is_dispute claims.org_id id) t.disputes, t))
          (λ r.
            r ≡ (returned (reply 200 d), w')
            → IsResolved others id (json_body b) d w.tables w'.tables)
          (if_unresolved env claims (resolve_after env claims others id note b.exception_id)) w
          (λ m e. absurd (cc))
          (λ m. elim (Option-cases (find (is_dispute claims.org_id id) w.tables.disputes)) [
            | inl missing ↦ λ e. absurd (ground (arith, missing, e))
            | inr (i, found) ↦ elim (Bool-cases (is_resolved i.state)) [
              | inl r ↦ λ e. absurd (ground (arith, found, r, e))
              | inr r ↦ λ e. (
                b,
                note,
                i,
                refl,
                same,
                k,
                found,
                r,
                resolution others id note b.exception_id d (failed w) w' (rw (found, r) at e),
              )
            ]
          ])
          (rw k at ran)
  ]

  -- A resolution that is answered with status 200 was asked for by a finance admin, an executive or
  -- a manager, with a note that is not blank. It found the dispute unresolved, before and at its
  -- update, between which others may have written. The answer is the resolved row, with the note
  -- and the exception, if one is named, which is then there; no row of the dispute is open any
  -- more, and no other table is written.
  pub handle_resolve_dispute_ok :
      (others : Tables → Tables) (id : Uuid) (body : Body ResolveDisputeBody) (d : DisputeRow)
      (w w' : World)
      → handle_resolve_dispute env claims others id body w ≡ (returned (reply 200 d), w')
      → (may_resolve claims.role ≡ true) × IsResolved others id body d w.tables w'.tables
  unfolding handle_resolve_dispute
  handle_resolve_dispute_ok others id body d w w' = elim (Bool-cases (may_resolve claims.role)) [
    | inr k ↦ rw k (λ ran. absurd (cc))
    | inl k ↦ rw k (λ ran. (refl, bodied body ran))
  ]
    where
      bodied :
          (body : Body ResolveDisputeBody)
          → resolve_body env claims others id body w ≡ (returned (reply 200 d), w')
          → IsResolved others id body d w.tables w'.tables
      bodied invalid_body ran = absurd (cc)
      bodied null_body ran = absurd (cc)
      bodied (json_body b) ran = noted others id b b.resolution_note d w w' refl ran
