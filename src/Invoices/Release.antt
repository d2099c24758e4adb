-- ===== src/Invoices/Release.antt =====
-- Which commission records the release of a gate and of phases changes.
use mathlib.Core.Path.{subst}
use comission_mgmt.Prelude.{
  ℕ, ◌≡◌, refl, sym, ap, ◌∙◌, ◌⊎◌, inl, inr, Bool, true, Option, none, some, List, [], ◌∷◌, arith,
  All, All-map, All-of, Option, length, ◌+◌, suc, Zip, Zip-of, Zip-chain, select, map, update_where,
  Bool-cases,
}
use comission_mgmt.Prelude.Distinct.{Distinct, Distinct-update_where, Zip-update_where-All}
use comission_mgmt.Store.Tables.{Uuid, Tables, CommissionRecordRow}
use comission_mgmt.Store.Monad.{Environment, World, M, statement, query, return, attempt, ◌>>◌}
use comission_mgmt.Store.Within.{
  Within, IsPreorder, continue-Within, chain-Within, attempt-Within, return-Within,
  statement-Within,
}
use comission_mgmt.Invoices.Statements.{
  is_gated, is_phase_gated, released, is_one_of, is_phase_member, freed_members, release_members,
  journal_all, release_collection_gate, release_phase_collection_gate,
}
use comission_mgmt.Invoices.Handlers.{add_released, release_phases, release_found_phases}
use comission_mgmt.Invoices.Members.{record_id, members-selected}

module _ (org_id placement_id : Uuid) (linked : List Uuid) where
  -- A record waits for the invoice: at the gate of its placement, or in a phase of the invoice.
  abbrev pub Waits : CommissionRecordRow → Type 0
  Waits c =
      (is_gated org_id placement_id c ≡ true)
      ⊎ ((phase : Uuid) × (is_one_of linked phase ≡ true) × (is_phase_gated org_id phase c ≡ true))

  -- A record that waits may be released, every other record stays.
  abbrev pub IsFreed : CommissionRecordRow → CommissionRecordRow → Type 0
  IsFreed c d = (d ≡ c) ⊎ (Waits c × (d ≡ released c))

  released-Waits : (c : CommissionRecordRow) → Waits (released c) → ⊥
  released-Waits c (inl h) = ground arith
  released-Waits c (inr (phase, l, h)) = ground arith

  IsFreed-chain : (c d e : CommissionRecordRow) → IsFreed c d → IsFreed d e → IsFreed c e
  IsFreed-chain c d e (inl h) k = subst (λ x. IsFreed x e) h k
  IsFreed-chain c d e (inr h) (inl k) = inr (h.0, k ∙ h.1)
  IsFreed-chain c d e (inr h) (inr k) = absurd (released-Waits c (subst Waits h.1 k.0))

  -- Only the records and the journal change, and they as far as the records waited.
  abbrev pub IsRelease : Tables → Tables → Type 0
  IsRelease t u =
      Distinct record_id t.commission_records
      → Distinct record_id u.commission_records
        × Zip IsFreed t.commission_records u.commission_records
        × (u ≡ record t {
          commission_records = u.commission_records;
          commission_journal = u.commission_journal;
        })

  pub IsRelease-IsPreorder : IsPreorder IsRelease
  IsRelease-IsPreorder = record {
    unchanged = λ t d. (d, Zip-of IsFreed (λ c. inl refl) t.commission_records, refl);
    chained = λ t u v f g d.
        let (d1, z1, e1) = f d in
        let (d2, z2, e2) = g d1 in
        (
          d2,
          Zip-chain IsFreed IsFreed-chain _ _ _ z1 z2,
          e2
              ∙ ap {A = Tables} {B = Tables}
                  (λ x. record x {
                    commission_records = v.commission_records;
                    commission_journal = v.commission_journal;
                  })
                  e1,
        );
  }

  -- One update by a test that only waiting records pass.
  pub update-IsRelease :
      (p : CommissionRecordRow → Bool) (t : Tables)
      → (Distinct record_id t.commission_records
          → All (λ c. p c ≡ true → Waits c) t.commission_records)
      → IsRelease t (record t { commission_records = update_where p released t.commission_records })
  update-IsRelease p t h d = (
    Distinct-update_where record_id p released (λ c. refl) t.commission_records d,
    Zip-update_where-All Waits p released t.commission_records (h d),
    refl,
  )

  module _ (env : Environment) where
    gate-Within : Within IsRelease (release_collection_gate env org_id placement_id)
    unfolding release_collection_gate
    gate-Within = statement-Within IsRelease IsRelease-IsPreorder env _ (λ t.
        update-IsRelease (is_gated org_id placement_id) t
          (λ d. All-of _ (λ c e. inl e) t.commission_records))

    journal_all-Within :
        (phase invoice_id : Uuid) (ids : List Uuid)
        → Within IsRelease (journal_all env org_id phase invoice_id ids)
    unfolding journal_all
    journal_all-Within phase invoice_id [] =
        return-Within IsRelease IsRelease-IsPreorder {A = Unit {0}} tt
    journal_all-Within phase invoice_id (r ∷ rs) =
        chain-Within IsRelease IsRelease-IsPreorder _ _
          (statement-Within IsRelease IsRelease-IsPreorder env _
            (λ t d. (d, Zip-of IsFreed (λ c. inl refl) t.commission_records, refl)))
          (λ done. journal_all-Within phase invoice_id rs)

    -- The update of the records that the phase holds.
    members-Waits :
        (phase : Uuid) (ids : List Uuid) (t : Tables)
        → is_one_of linked phase ≡ true
        → ids ≡ map record_id (select (is_phase_gated org_id phase) t.commission_records)
        → Distinct record_id t.commission_records
        → All (λ c. is_phase_member org_id phase ids c ≡ true → Waits c) t.commission_records
    members-Waits phase ids t l e d =
        All-map (λ c. is_one_of ids c.id ≡ true → is_phase_gated org_id phase c ≡ true)
          (λ c. is_phase_member org_id phase ids c ≡ true → Waits c)
          (λ c h m. inr (phase, l, h (last_test c m))) t.commission_records
          (subst
            (λ chosen.
              All (λ c. is_one_of chosen c.id ≡ true → is_phase_gated org_id phase c ≡ true)
                t.commission_records)
            (sym e) (members-selected (is_phase_gated org_id phase) t.commission_records d))
      where
        last_test :
            (c : CommissionRecordRow)
            → is_phase_member org_id phase ids c ≡ true
            → is_one_of ids c.id ≡ true
        last_test c m = ground arith

    freed-Within :
        (phase : Uuid) (ids : List Uuid) (w : World)
        → is_one_of linked phase ≡ true
        → ids ≡ map record_id (select (is_phase_gated org_id phase) w.tables.commission_records)
        → IsRelease w.tables
            (statement env (λ t. (tt {0}, freed_members org_id phase ids t)) w).1.tables
    unfolding statement
    freed-Within phase ids w l e = elim (Bool-cases (env.fails w.statements)) [
      | inl k ↦ rw k (IsRelease-IsPreorder.unchanged w.tables)
      | inr k ↦ rw k (
          update-IsRelease (is_phase_member org_id phase ids) w.tables
            (members-Waits phase ids w.tables l e))
    ]

    members-IsRelease :
        (phase invoice_id : Uuid) (ids : List Uuid) (w : World)
        → is_one_of linked phase ≡ true
        → ids ≡ map record_id (select (is_phase_gated org_id phase) w.tables.commission_records)
        → IsRelease w.tables (release_members env org_id phase invoice_id ids w).1.tables
    members-IsRelease phase invoice_id [] w l e = IsRelease-IsPreorder.unchanged w.tables
    members-IsRelease phase invoice_id (r ∷ rs) w l e =
        continue-Within IsRelease IsRelease-IsPreorder w.tables
          (statement env (λ t. (tt {0}, freed_members org_id phase (r ∷ rs) t)) w)
          (λ done. journal_all env org_id phase invoice_id (r ∷ rs) >> return (length (r ∷ rs)))
          (freed-Within phase (r ∷ rs) w l e)
          (λ done.
            chain-Within IsRelease IsRelease-IsPreorder
              (journal_all env org_id phase invoice_id (r ∷ rs)) (λ x. return (length (r ∷ rs)))
              (journal_all-Within phase invoice_id (r ∷ rs))
              (λ x. return-Within IsRelease IsRelease-IsPreorder (length (r ∷ rs))))

    phase-Within :
        (phase invoice_id : Uuid)
        → is_one_of linked phase ≡ true
        → Within IsRelease (release_phase_collection_gate env org_id phase invoice_id)
    unfolding release_phase_collection_gate query statement
    phase-Within phase invoice_id l w = elim (Bool-cases (env.fails w.statements)) [
      | inl k ↦ rw k (IsRelease-IsPreorder.unchanged w.tables)
      | inr k ↦
          rw k (
            members-IsRelease phase invoice_id _ (record w { statements = suc w.statements }) l
              refl)
    ]

    add_released-Within :
        (rest : ℕ → M ℕ) (count : ℕ)
        → ((n : ℕ) → Within IsRelease (rest n))
        → (r : Option ℕ) → Within IsRelease (add_released rest count r)
    add_released-Within rest count h none = return-Within IsRelease IsRelease-IsPreorder count
    add_released-Within rest count h (some n) = h (count + n)

    phases-Within :
        (invoice_id : Uuid) (phases : List Uuid) (count : ℕ)
        → All (λ p. is_one_of linked p ≡ true) phases
        → Within IsRelease (release_phases env org_id invoice_id phases count)
    unfolding release_phases
    phases-Within invoice_id [] count l = return-Within IsRelease IsRelease-IsPreorder count
    phases-Within invoice_id (p ∷ ps) count l =
        chain-Within IsRelease IsRelease-IsPreorder
          (attempt (release_phase_collection_gate env org_id p invoice_id))
          (add_released (release_phases env org_id invoice_id ps) count)
          (attempt-Within IsRelease IsRelease-IsPreorder
            (release_phase_collection_gate env org_id p invoice_id) (phase-Within p invoice_id l.0))
          (add_released-Within (release_phases env org_id invoice_id ps) count
            (λ n. phases-Within invoice_id ps n l.1))

    pub found-Within :
        (invoice_id : Uuid) (count : ℕ) (phases : Option (List Uuid))
        → ((ps : List Uuid) → phases ≡ some ps → All (λ p. is_one_of linked p ≡ true) ps)
        → Within IsRelease (release_found_phases env org_id invoice_id count phases)
    found-Within invoice_id count none h = return-Within IsRelease IsRelease-IsPreorder count
    found-Within invoice_id count (some ps) h = phases-Within invoice_id ps count (h ps refl)
