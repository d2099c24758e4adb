-- ===== src/Invoices/RoundTrip.antt =====
-- The parser of invoice files reads back what is written in their format.
use comission_mgmt.Prelude.{
  ℕ, ◌+◌, ◌≡◌, refl, ap, ◌∙◌, true, false, List, [], ◌∷◌, ◌++◌, ◌==◌, arith, All, All-map, map,
  length, all, ==_iff, if◌then◌else◌,
}
use comission_mgmt.Prelude.Codes.{trim}
use comission_mgmt.Core.Explanation.Text.{Text}
use comission_mgmt.Invoices.Csv.{
  split_on, split_lines, chomp_all, header_name, required_headers, assign, has_header,
  is_header_char, with_headers, failed_parse, missing_column, parsed, add_row, parse_rows,
  parse_from, parse_invoice_csv,
}
use comission_mgmt.Invoices.Lines.{
  join, Lacks, split_on-join, chomp_all-lacking, line-ink, IsCell, IsName, header_name-name,
  char-IsPlain,
}

-- A file: the header's names, and a line for each row.
abbrev pub write_csv : List Text → List (List Text) → Text
write_csv headers rows = join 10 (join b',' headers ∷ map (join b',') rows)

Lacks-append :
    (sep c : ℕ) (t u : Text)
    → Lacks sep t
    → c == sep ≡ false
    → Lacks sep u
    → Lacks sep (t ++ (c ∷ u))
Lacks-append sep c [] u h e k = (e, k)
Lacks-append sep c (x ∷ t) u h e k = (h.0, Lacks-append sep c t u h.1 e k)

Lacks-join :
    (sep : ℕ) (cells : List Text)
    → b',' == sep ≡ false
    → All (Lacks sep) cells
    → Lacks sep (join b',' cells)
Lacks-join sep [] e h = tt
Lacks-join sep (t ∷ []) e h = h.0
Lacks-join sep (t ∷ u ∷ ts) e h =
    Lacks-append sep b',' t (join b',' (u ∷ ts)) h.0 e (Lacks-join sep (u ∷ ts) e h.1)

-- A row has a cell for each header.
abbrev pub IsRow : List Text → List Text → Type 0
IsRow headers r = (length r ≡ length headers) × All IsCell r

cells-trimmed : (r : List Text) → All IsCell r → map trim r ≡ r
cells-trimmed [] h = refl
cells-trimmed (c ∷ cs) h = rw (h.0.3, cells-trimmed cs h.1) refl

names-kept : (hs : List Text) → All IsName hs → map header_name hs ≡ hs
names-kept [] h = refl
names-kept (t ∷ ts) h = rw (header_name-name t h.0, names-kept ts h.1) refl

name-Lacks :
    (sep : ℕ)
    → ((c : ℕ) → is_header_char c ≡ true → c == sep ≡ false)
    → (t : Text) → IsName t
    → Lacks sep t
name-Lacks sep f t h = All-map _ _ f t h

with_headers-required :
    (hs : List Text) (lines : List Text)
    → all (has_header hs) required_headers ≡ true
    → with_headers hs 2 lines ≡ parse_rows hs 2 lines
with_headers-required hs lines e =
    ap (λ b. if b then parse_rows hs 2 lines else failed_parse missing_column) e

module _ (a b : Text) (hs : List Text) where
  abbrev headers : List Text
  headers = a ∷ b ∷ hs

  row-parsed :
      (r : List Text) (n : ℕ) (lines : List Text)
      → IsRow headers r
      → parse_rows headers n (join b',' r ∷ lines)
        ≡ add_row (assign headers r) (parse_rows headers (n + 1) lines)
  unfolding parse_rows
  row-parsed [] n lines h = absurd (omega (arith, h.0))
  row-parsed (x ∷ []) n lines h = absurd (omega (arith, h.0))
  row-parsed (x ∷ y ∷ r) n lines h =
      let cut : split_on b',' (join b',' (x ∷ y ∷ r)) ≡ x ∷ y ∷ r =
        split_on-join b',' x (y ∷ r) (All-map IsCell (Lacks b',') (λ c k. k.0) (x ∷ y ∷ r) h.1) in
      let full : length (x ∷ y ∷ r) == length headers ≡ true = (==_iff _ _).1 h.0 in
      rw (line-ink x y r, cut, full)
        (ap (λ cs. add_row (assign headers cs) (parse_rows headers (n + 1) lines))
          (cells-trimmed (x ∷ y ∷ r) h.1))

  rows-parsed :
      (rows : List (List Text)) (n : ℕ)
      → All (IsRow headers) rows
      → parse_rows headers n (map (join b',') rows) ≡ parsed (map (assign headers) rows)
  unfolding parse_rows
  rows-parsed [] n h = refl
  rows-parsed (r ∷ rows) n h =
      row-parsed r n (map (join b',') rows) h.0
      ∙ ap (add_row (assign headers r)) (rows-parsed rows (n + 1) h.1)

  header-parsed :
      (lines : List Text)
      → All IsName headers
      → all (has_header headers) required_headers ≡ true
      → parse_from 1 (join b',' headers ∷ lines) ≡ parse_rows headers 2 lines
  unfolding parse_from
  header-parsed lines names required =
      let cut : split_on b',' (join b',' headers) ≡ headers = split_on-join b',' a (b ∷ hs) (
        All-map IsName (Lacks b',') (λ t k. name-Lacks b',' (λ c e. (char-IsPlain c e).1) t k)
          headers names) in
      rw (line-ink a b hs, cut)
        (ap (λ k. with_headers k 2 lines) (names-kept headers names)
          ∙ with_headers-required headers lines required)

  line-Lacks :
      (sep : ℕ) (rows : List (List Text))
      → b',' == sep ≡ false
      → ((t : Text) → IsCell t → Lacks sep t)
      → All (IsRow headers) rows
      → All (Lacks sep) (map (join b',') rows)
  line-Lacks sep [] e f h = tt
  line-Lacks sep (r ∷ rows) e f h =
      (Lacks-join sep r e (All-map IsCell (Lacks sep) f r h.0.1), line-Lacks sep rows e f h.1)

  -- Reading back a written file: with the required columns among two or more, names of lower-case
  -- letters, digits and underscores, a cell for each column in every row, and cells with no comma,
  -- no line break and no white space at an end, the parser returns for each row the assignment of
  -- its cells to the columns.
  pub parse_invoice_csv-write_csv :
      (rows : List (List Text))
      → All IsName headers
      → all (has_header headers) required_headers ≡ true
      → All (IsRow headers) rows
      → parse_invoice_csv (write_csv headers rows) ≡ parsed (map (assign headers) rows)
  unfolding parse_invoice_csv
  parse_invoice_csv-write_csv rows names required cells =
      let lines = join b',' headers ∷ map (join b',') rows in
      let no_breaks : All (Lacks 10) lines = (
        Lacks-join 10 headers refl (
            All-map IsName (Lacks 10) (λ t k. name-Lacks 10 (λ c e. (char-IsPlain c e).2) t k)
              headers names),
        line-Lacks 10 rows refl (λ t k. k.1) cells,
      ) in
      let no_returns : All (Lacks 13) lines = (
        Lacks-join 13 headers refl (
            All-map IsName (Lacks 13) (λ t k. name-Lacks 13 (λ c e. (char-IsPlain c e).3) t k)
              headers names),
        line-Lacks 13 rows refl (λ t k. k.2) cells,
      ) in
      let split : split_lines (write_csv headers rows) ≡ lines =
        ap chomp_all (split_on-join 10 (join b',' headers) (map (join b',') rows) no_breaks)
        ∙ chomp_all-lacking lines no_returns in
      ap (parse_from 1) split
      ∙ header-parsed (map (join b',') rows) names required
      ∙ rows-parsed rows 2 cells
