-- ===== src/Invoices/Paid.antt =====
-- What follows the payment of an invoice.
use mathlib.Core.Path.{subst}
use comission_mgmt.Prelude.{
  ℕ, ◌≡◌, refl, sym, ◌∙◌, inl, inr, true, false, ◌&&◌, Option, some, List, [], ◌∷◌, ◌==◌, arith,
  All, All-map, All-of, Option, length, Zip-All, All-update_where, select, map, update_where,
}
use comission_mgmt.Prelude.Distinct.{Distinct, Distinct-update_where}
use comission_mgmt.Store.Tables.{Uuid, Tables, CommissionRecordRow, InvoiceRow}
use comission_mgmt.Store.Monad.{Environment, World, query, attempt, ◌>>=◌}
use comission_mgmt.Store.Within.{attempt_statement, failed, written}
use comission_mgmt.Invoices.Statements.{
  is_gated, is_some_id, released, is_one_of, release_collection_gate,
}
use comission_mgmt.Invoices.Handlers.{release_found_phases, phases_of, or_zero, release_paid}
use comission_mgmt.Invoices.Members.{record_id, false-ne-true}
use comission_mgmt.Invoices.Release.{
  IsFreed, IsRelease, IsRelease-IsPreorder, update-IsRelease, found-Within,
}

-- The phases whose invoice it is.
abbrev pub linked_phases : Uuid → Uuid → Tables → List Uuid
linked_phases org_id invoice_id t =
    map (λ p. p.id)
      (select (λ p. p.org_id == org_id && is_some_id p.invoice_id invoice_id) t.billing_phases)

is_one_of-All : (ids : List Uuid) → All (λ p. is_one_of ids p ≡ true) ids
is_one_of-All [] = tt
is_one_of-All (x ∷ xs) = (
  ground arith,
  All-map (λ p. is_one_of xs p ≡ true) (λ p. is_one_of (x ∷ xs) p ≡ true) (λ p h. ground arith) xs
      (is_one_of-All xs),
)

module _ (env : Environment) (org_id : Uuid) (i : InvoiceRow) where
  abbrev IsPaidRelease : Tables → Tables → Tables → Type 0
  IsPaidRelease s = IsRelease org_id i.placement_id (linked_phases org_id i.id s)

  abbrev pub gate_opened : Tables → Tables
  gate_opened t = record t {
    commission_records =
        update_where (is_gated org_id i.placement_id) released t.commission_records;
  }

  stays_out :
      (linked : List Uuid) (c d : CommissionRecordRow)
      → IsFreed org_id i.placement_id linked c d
      → is_gated org_id i.placement_id c ≡ false
      → is_gated org_id i.placement_id d ≡ false
  stays_out linked c d (inl h) k = rw h k
  stays_out linked c d (inr h) k = rw h.1 (ground arith)

  opened-Distinct :
      (w : World)
      → Distinct record_id w.tables.commission_records
      → Distinct record_id (gate_opened w.tables).commission_records
  opened-Distinct w d =
      Distinct-update_where record_id (is_gated org_id i.placement_id) released (λ c. refl)
        w.tables.commission_records d

  linked-found :
      (s : Tables) (ps : List Uuid)
      → ◌≡◌ {A = Option (List Uuid)} (some (linked_phases org_id i.id s)) (some ps)
      → All (λ p. is_one_of (linked_phases org_id i.id s) p ≡ true) ps
  linked-found s ps e =
      let same : linked_phases org_id i.id s ≡ ps = ground arith in
      subst (All (λ p. is_one_of (linked_phases org_id i.id s) p ≡ true)) same (is_one_of-All _)

  phases-IsRelease :
      (count : ℕ) (w : World)
      → IsPaidRelease w.tables w.tables
          ((attempt (phases_of env org_id i.id) >>= release_found_phases env org_id i.id count)
            w).1.tables
  unfolding query
  phases-IsRelease count w =
      attempt_statement env (λ t. (linked_phases org_id i.id t, t))
        (λ r. IsPaidRelease w.tables w.tables r.1.tables)
        (release_found_phases env org_id i.id count) w
        (λ e. (IsRelease-IsPreorder _ _ _).unchanged w.tables)
        (λ e.
          found-Within org_id i.placement_id (linked_phases org_id i.id w.tables) env i.id count
            (some (linked_phases org_id i.id w.tables)) (linked-found w.tables) (failed w))

  -- What follows the payment of an invoice.
  pub release_paid-IsRelease :
      (w : World) → IsPaidRelease w.tables w.tables (release_paid env org_id i w).1.tables
  unfolding release_paid release_collection_gate
  release_paid-IsRelease w =
      attempt_statement env
        (λ t.
          (length (select (is_gated org_id i.placement_id) t.commission_records), gate_opened t))
        (λ r. IsPaidRelease w.tables w.tables r.1.tables)
        (λ released.
          attempt (phases_of env org_id i.id)
          >>= release_found_phases env org_id i.id (or_zero released))
        w (λ e. phases-IsRelease 0 (failed w))
        (λ e.
          (IsRelease-IsPreorder org_id i.placement_id (linked_phases org_id i.id w.tables)).chained
            w.tables (gate_opened w.tables) _
            (update-IsRelease org_id i.placement_id (linked_phases org_id i.id w.tables)
              (is_gated org_id i.placement_id) w.tables
              (λ d. All-of _ (λ c e. inl e) w.tables.commission_records))
            (phases-IsRelease _ (written (gate_opened w.tables) w)))

  -- The update of the gate leaves no record of the placement behind it, and no later release puts
  -- one there.
  pub release_paid-none_gated :
      (w : World)
      → env.fails w.statements ≡ false
      → Distinct record_id w.tables.commission_records
      → All
          (λ c. is_gated org_id i.placement_id c ≡ false)
          (release_paid env org_id i w).1.tables.commission_records
  unfolding release_paid release_collection_gate
  release_paid-none_gated w sound d =
      attempt_statement env
        (λ t.
          (length (select (is_gated org_id i.placement_id) t.commission_records), gate_opened t))
        (λ r. All (λ c. is_gated org_id i.placement_id c ≡ false) r.1.tables.commission_records)
        (λ released.
          attempt (phases_of env org_id i.id)
          >>= release_found_phases env org_id i.id (or_zero released))
        w (λ e. absurd (false-ne-true (sym sound ∙ e)))
        (λ e.
          Zip-All (IsFreed org_id i.placement_id (linked_phases org_id i.id w.tables))
            (λ c. is_gated org_id i.placement_id c ≡ false)
            (stays_out (linked_phases org_id i.id w.tables))
            (gate_opened w.tables).commission_records _
            (phases-IsRelease _ (written (gate_opened w.tables) w) (opened-Distinct w d)).1
            (All-update_where _ (is_gated org_id i.placement_id) released (λ c k. ground arith)
              (λ c k. k) w.tables.commission_records))
