-- ===== src/Invoices/Requests.antt =====
-- The releases and the audit entries of the invoice handlers keep the invoices' numbers apart.
use comission_mgmt.Prelude.{
  ℕ, ◌+◌, ◌≡◌, refl, Bool, true, false, Option, none, some, List, [], ◌∷◌, select, map, length,
}
use comission_mgmt.Store.Tables.{Uuid, Tables, InvoiceRow, InvoiceStatus, AuditAction}
use comission_mgmt.Store.Monad.{
  Environment, M, statement, query, append_audit, return, attempt, ◌>>=◌, ◌>>◌, SessionClaims,
  reply,
}
use comission_mgmt.Store.Within.{
  Within, chain-Within, attempt-Within, statement-Within, append_audit-Within,
}
use comission_mgmt.Clawback.Statements.{get_placement}
use comission_mgmt.Invoices.Statements.{
  is_phase_gated, freed_members, release_members, journal_all, is_paid_now, release_collection_gate,
  release_phase_collection_gate,
}
use comission_mgmt.Invoices.Handlers.{
  add_released, release_phases, release_found_phases, phases_of, or_zero, release_paid,
  release_if_paid, write_invoice_audit_log, updated_answer, audit_action,
}
use comission_mgmt.Invoices.Numbers.{KeepsNumbers, KeepsNumbers-IsPreorder, query-Within}

pub chained :
    {A B : Type 0} (m : M A) (k : A → M B)
    → Within KeepsNumbers m
    → ((a : A) → Within KeepsNumbers (k a))
    → Within KeepsNumbers (m >>= k)
chained m k = chain-Within KeepsNumbers KeepsNumbers-IsPreorder m k

pub attempted : {A : Type 0} (m : M A) → Within KeepsNumbers m → Within KeepsNumbers (attempt m)
attempted m = attempt-Within KeepsNumbers KeepsNumbers-IsPreorder m

module _ (env : Environment) where
  -- A statement that leaves the invoices.
  elsewhere :
      {A : Type 0} (f : Tables → A × Tables)
      → ((t : Tables) → (f t).1.invoices ≡ t.invoices)
      → Within KeepsNumbers (statement env f)
  elsewhere f h = statement-Within KeepsNumbers KeepsNumbers-IsPreorder env f (λ t k. rw (h t) k)

  audited :
      (claims : SessionClaims) (action : AuditAction) (id : Uuid)
      → Within KeepsNumbers (write_invoice_audit_log env claims action id)
  audited claims action id =
      chained
        (attempt (
          append_audit env (record {
            org_id = claims.org_id;
            actor_id = claims.user_id;
            action = action;
            entity_id = id;
          })))
        (λ done. return tt)
        (attempted _ (append_audit-Within KeepsNumbers KeepsNumbers-IsPreorder env _))
        (λ done w h. h)

  pub answered :
      {B : Type 0} (claims : SessionClaims) (action : AuditAction) (id : Uuid) (r : B)
      → Within KeepsNumbers (write_invoice_audit_log env claims action id >> return r)
  answered claims action id r =
      chained (write_invoice_audit_log env claims action id) (λ done. return r)
        (audited claims action id) (λ done w h. h)

  pub gate-kept :
      (org_id placement_id : Uuid)
      → Within KeepsNumbers (release_collection_gate env org_id placement_id)
  unfolding release_collection_gate
  gate-kept org_id placement_id = elsewhere _ (λ t. refl)

  journaled :
      (org_id phase invoice : Uuid) (ids : List Uuid)
      → Within KeepsNumbers (journal_all env org_id phase invoice ids)
  unfolding journal_all
  journaled org_id phase invoice [] = λ w h. h
  journaled org_id phase invoice (r ∷ rs) =
      chained {A = Unit {0}} (statement env _) (λ done. journal_all env org_id phase invoice rs)
        (elsewhere _ (λ t. refl)) (λ done. journaled org_id phase invoice rs)

  members-kept :
      (org_id phase invoice : Uuid) (ids : List Uuid)
      → Within KeepsNumbers (release_members env org_id phase invoice ids)
  members-kept org_id phase invoice [] = λ w h. h
  members-kept org_id phase invoice (r ∷ rs) =
      chained {A = Unit {0}} (statement env (λ t. (tt, freed_members org_id phase (r ∷ rs) t)))
        (λ done. journal_all env org_id phase invoice (r ∷ rs) >> return (length (r ∷ rs)))
        (elsewhere _ (λ t. refl))
        (λ done.
          chained (journal_all env org_id phase invoice (r ∷ rs)) (λ x. return (length (r ∷ rs)))
            (journaled org_id phase invoice (r ∷ rs)) (λ x w h. h))

  phase-kept :
      (org_id phase invoice : Uuid)
      → Within KeepsNumbers (release_phase_collection_gate env org_id phase invoice)
  unfolding release_phase_collection_gate
  phase-kept org_id phase invoice =
      chained
        (query env
          (λ t. map (λ c. c.id) (select (is_phase_gated org_id phase) t.commission_records)))
        (release_members env org_id phase invoice) (query-Within env _)
        (members-kept org_id phase invoice)

  added-kept :
      (rest : ℕ → M ℕ) (count : ℕ)
      → ((n : ℕ) → Within KeepsNumbers (rest n))
      → (r : Option ℕ) → Within KeepsNumbers (add_released rest count r)
  added-kept rest count h none = λ w k. k
  added-kept rest count h (some n) = h (count + n)

  phases-kept :
      (org_id invoice : Uuid) (phases : List Uuid) (count : ℕ)
      → Within KeepsNumbers (release_phases env org_id invoice phases count)
  unfolding release_phases
  phases-kept org_id invoice [] count = λ w h. h
  phases-kept org_id invoice (p ∷ ps) count =
      chained (attempt (release_phase_collection_gate env org_id p invoice))
        (add_released (release_phases env org_id invoice ps) count)
        (attempted (release_phase_collection_gate env org_id p invoice)
          (phase-kept org_id p invoice))
        (added-kept (release_phases env org_id invoice ps) count
          (λ n. phases-kept org_id invoice ps n))

  found-kept :
      (org_id invoice : Uuid) (count : ℕ) (phases : Option (List Uuid))
      → Within KeepsNumbers (release_found_phases env org_id invoice count phases)
  found-kept org_id invoice count none = λ w h. h
  found-kept org_id invoice count (some ps) = phases-kept org_id invoice ps count

  paid-kept : (org_id : Uuid) (i : InvoiceRow) → Within KeepsNumbers (release_paid env org_id i)
  unfolding release_paid
  paid-kept org_id i =
      chained (attempt (release_collection_gate env org_id i.placement_id))
        (λ released.
          attempt (phases_of env org_id i.id)
          >>= release_found_phases env org_id i.id (or_zero released))
        (attempted (release_collection_gate env org_id i.placement_id)
          (gate-kept org_id i.placement_id))
        (λ released.
          chained (attempt (phases_of env org_id i.id))
            (release_found_phases env org_id i.id (or_zero released))
            (attempted (phases_of env org_id i.id) (query-Within env _))
            (found-kept org_id i.id (or_zero released)))

  if_paid-kept :
      (claims : SessionClaims) (b : Bool) (i : InvoiceRow)
      → Within KeepsNumbers (release_if_paid env claims b i)
  if_paid-kept claims true i = paid-kept claims.org_id i
  if_paid-kept claims false i = λ w h. h

  pub updated-kept :
      (claims : SessionClaims) (status : Option InvoiceStatus) (found : Option InvoiceRow)
      → Within KeepsNumbers (updated_answer env claims status found)
  updated-kept claims status none = λ w h. h
  updated-kept claims status (some i) =
      chained (release_if_paid env claims (is_paid_now status) i)
        (λ count.
          write_invoice_audit_log env claims (audit_action status) i.id
          >> return (reply 200 (i, count)))
        (if_paid-kept claims (is_paid_now status) i)
        (λ count. answered claims (audit_action status) i.id (reply 200 (i, count)))

  pub placement-kept : (id : Uuid) → Within KeepsNumbers (get_placement env id)
  unfolding get_placement
  placement-kept id = query-Within env _
