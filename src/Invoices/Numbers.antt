-- ===== src/Invoices/Numbers.antt =====
-- No two invoices of an organisation have the same number, whatever the handlers do.
use comission_mgmt.Prelude.{
  ◌≡◌, refl, inl, inr, Bool, false, Option, none, some, List, [], ◌∷◌, ◌++◌, ◌==◌, arith, All, any,
  find, update_where, Bool-cases,
}
use comission_mgmt.Prelude.Codes.{eq_codes}
use comission_mgmt.Prelude.Distinct.{All-append}
use comission_mgmt.Core.Explanation.Text.{Text}
use comission_mgmt.Store.Tables.{Uuid, Tables, InvoiceRow}
use comission_mgmt.Store.Monad.{Environment, statement, query, fresh_uuid, ◌>>=◌}
use comission_mgmt.Store.Within.{Within, IsPreorder, chain-Within, statement-Within}
use comission_mgmt.Invoices.Statements.{
  CreateInvoiceInput, UpdateInvoiceInput, is_numbered, is_invoice, update_row, insert_row,
  or_violation, new_invoice, create_invoice, get_invoice, update_invoice, imported_row, reimported,
  upsert_row, upsert_invoice_by_number, sets_nothing, updated_invoices,
}

abbrev pub NoTwins : List InvoiceRow → Type 0
NoTwins [] = Unit
NoTwins (i ∷ is) = All (λ j. is_numbered i.org_id i.invoice_number j ≡ false) is × NoTwins is

any-false : {A : Type 0} (p : A → Bool) (xs : List A) → any p xs ≡ false → All (λ x. p x ≡ false) xs
any-false p [] h = tt
any-false p (x ∷ xs) h = elim (Bool-cases (p x)) [
  | inl e ↦ absurd (ground (arith, e, h))
  | inr e ↦ (e, any-false p xs (rw e at h))
]

eq_codes_comm : (s t : Text) → eq_codes s t ≡ eq_codes t s
eq_codes_comm [] [] = refl
eq_codes_comm [] (y ∷ t) = refl
eq_codes_comm (x ∷ s) [] = refl
eq_codes_comm (x ∷ s) (y ∷ t) = ground (arith, eq_codes_comm s t)

numbered_comm :
    (i j : InvoiceRow)
    → is_numbered i.org_id i.invoice_number j ≡ false
    → is_numbered j.org_id j.invoice_number i ≡ false
numbered_comm i j h = ground (arith, eq_codes_comm i.invoice_number j.invoice_number)

NoTwins-append :
    (is : List InvoiceRow) (i : InvoiceRow)
    → NoTwins is
    → All (λ x. is_numbered i.org_id i.invoice_number x ≡ false) is
    → NoTwins (is ++ (i ∷ []))
NoTwins-append [] i h new = (tt, tt)
NoTwins-append (j ∷ is) i h new = (
  All-append (λ x. is_numbered j.org_id j.invoice_number x ≡ false) is i h.0
      (numbered_comm i j new.0),
  NoTwins-append is i h.1 new.1,
)

-- An update that keeps organisation and number keeps the numbers apart.
abbrev KeepsKey : (InvoiceRow → InvoiceRow) → Type 0
KeepsKey f =
    (i : InvoiceRow) → ((f i).org_id ≡ i.org_id) × ((f i).invoice_number ≡ i.invoice_number)

apart-update_where :
    (p : InvoiceRow → Bool) (f : InvoiceRow → InvoiceRow) (org_id : Uuid) (number : Text)
    → KeepsKey f
    → (is : List InvoiceRow) → All (λ j. is_numbered org_id number j ≡ false) is
    → All (λ j. is_numbered org_id number j ≡ false) (update_where p f is)
apart-update_where p f org_id number k [] h = tt
apart-update_where p f org_id number k (i ∷ is) h = elim (Bool-cases (p i)) [
  | inl e ↦ rw e (rw ((k i).0, (k i).1) h.0, apart-update_where p f org_id number k is h.1)
  | inr e ↦ rw e (h.0, apart-update_where p f org_id number k is h.1)
]

NoTwins-update_where :
    (p : InvoiceRow → Bool) (f : InvoiceRow → InvoiceRow)
    → KeepsKey f
    → (is : List InvoiceRow) → NoTwins is
    → NoTwins (update_where p f is)
NoTwins-update_where p f k [] h = tt
NoTwins-update_where p f k (i ∷ is) h = elim (Bool-cases (p i)) [
  | inl e ↦ rw e (
    rw ((k i).0, (k i).1) (apart-update_where p f i.org_id i.invoice_number k is h.0),
    NoTwins-update_where p f k is h.1,
  )
  | inr e ↦
      rw e (
        apart-update_where p f i.org_id i.invoice_number k is h.0,
        NoTwins-update_where p f k is h.1,
      )
]

-- A step keeps the numbers of an organisation's invoices distinct.
abbrev pub KeepsNumbers : Tables → Tables → Type 0
KeepsNumbers t u = NoTwins t.invoices → NoTwins u.invoices

pub KeepsNumbers-IsPreorder : IsPreorder KeepsNumbers
KeepsNumbers-IsPreorder = record { unchanged = λ t h. h; chained = λ t u v f g h. g (f h) }

module _ (env : Environment) where
  or_violation-Within : (found : Option InvoiceRow) → Within KeepsNumbers (or_violation found)
  or_violation-Within none w h = h
  or_violation-Within (some i) w h = h

  -- The three statements that write invoices.
  insert-KeepsNumbers :
      (id : Uuid) (input : CreateInvoiceInput) (t : Tables)
      → KeepsNumbers t (insert_row env id input t).1
  insert-KeepsNumbers id input t h =
      elim (Bool-cases (any (is_numbered input.org_id input.invoice_number) t.invoices)) [
        | inl e ↦ rw e h
        | inr e ↦ rw e (elim (Bool-cases (any (λ p. p.id == input.placement_id) t.placements)) [
          | inl k ↦ rw k (NoTwins-append t.invoices (new_invoice env id input) h (any-false _ _ e))
          | inr k ↦ rw k h
        ])
      ]

  upsert-KeepsNumbers :
      (id : Uuid) (input : CreateInvoiceInput) (t : Tables)
      → KeepsNumbers t (upsert_row env id input t).1
  unfolding upsert_row
  upsert-KeepsNumbers id input t h =
      elim (Bool-cases (any (is_numbered input.org_id input.invoice_number) t.invoices)) [
        | inl e ↦
            rw e (NoTwins-update_where _ (reimported env input) (λ i. (refl, refl)) t.invoices h)
        | inr e ↦ rw e (elim (Bool-cases (any (λ p. p.id == input.placement_id) t.placements)) [
          | inl k ↦ rw k (NoTwins-append t.invoices (imported_row env id input) h (any-false _ _ e))
          | inr k ↦ rw k h
        ])
      ]

  row-Within :
      (f : Uuid → Tables → Option InvoiceRow × Tables)
      → ((id : Uuid) (t : Tables) → KeepsNumbers t (f id t).1)
      → Within KeepsNumbers (fresh_uuid env >>= λ id. statement env (f id) >>= or_violation)
  row-Within f h =
      chain-Within KeepsNumbers KeepsNumbers-IsPreorder (fresh_uuid env)
        (λ id. statement env (f id) >>= or_violation) (λ w k. k)
        (λ id.
          chain-Within KeepsNumbers KeepsNumbers-IsPreorder (statement env (f id)) or_violation
            (statement-Within KeepsNumbers KeepsNumbers-IsPreorder env (f id) (h id))
            or_violation-Within)

  pub create_invoice-Within :
      (input : CreateInvoiceInput) → Within KeepsNumbers (create_invoice env input)
  unfolding create_invoice
  create_invoice-Within input =
      row-Within (λ id. insert_row env id input) (λ id. insert-KeepsNumbers id input)

  pub upsert-Within :
      (input : CreateInvoiceInput) → Within KeepsNumbers (upsert_invoice_by_number env input)
  unfolding upsert_invoice_by_number
  upsert-Within input =
      row-Within (λ id. upsert_row env id input) (λ id. upsert-KeepsNumbers id input)

  pub query-Within : {A : Type 0} (f : Tables → A) → Within KeepsNumbers (query env f)
  unfolding query
  query-Within f =
      statement-Within KeepsNumbers KeepsNumbers-IsPreorder env (λ t. (f t, t)) (λ t h. h)

  pub update_invoice-Within :
      (org_id id : Uuid) (input : UpdateInvoiceInput)
      → Within KeepsNumbers (update_invoice env org_id id input)
  unfolding update_invoice get_invoice
  update_invoice-Within org_id id input w = elim (Bool-cases (sets_nothing input)) [
    | inl e ↦ rw e (query-Within (λ t. find (is_invoice org_id id) t.invoices) w)
    | inr e ↦ rw e (
        statement-Within KeepsNumbers KeepsNumbers-IsPreorder env
          (λ t. (
            find (is_invoice org_id id) (updated_invoices env org_id id input t).invoices,
            updated_invoices env org_id id input t,
          ))
          (λ t. NoTwins-update_where _ (update_row env.now input) (λ i. (refl, refl)) t.invoices) w)
  ]
