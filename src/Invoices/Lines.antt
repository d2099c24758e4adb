-- ===== src/Invoices/Lines.antt =====
-- Pieces joined by a separator, and what `split`, `trim` and the header's clean-up make of them.
use comission_mgmt.Prelude.{
  ℕ, ◌≡◌, refl, ap, ◌∙◌, true, false, List, [], ◌∷◌, ◌++◌, ◌==◌, arith, All, Any, Bool-cases, map,
  inl, inr,
}
use comission_mgmt.Prelude.Codes.{
  eq_codes, trim, trim_start, trim_end, end_with, is_space, is_blank,
}
use comission_mgmt.Core.Explanation.Text.{Text}
use comission_mgmt.Invoices.Csv.{
  split_on, chomp, chomp_all, is_header_char, header_char, header_name,
}

-- The pieces with a separator between two of them.
abbrev pub join : ℕ → List Text → Text
join sep [] = []
join sep (t ∷ []) = t
join sep (t ∷ u ∷ ts) = t ++ (sep ∷ join sep (u ∷ ts))

abbrev pub Lacks : ℕ → Text → Type 0
Lacks sep = All (λ c. c == sep ≡ false)

split_on-lacking : (sep : ℕ) (t : Text) → Lacks sep t → split_on sep t ≡ t ∷ []
split_on-lacking sep [] h = refl
split_on-lacking sep (c ∷ cs) h = rw (h.0, split_on-lacking sep cs h.1)

split_on-piece :
    (sep : ℕ) (t rest : Text)
    → Lacks sep t
    → split_on sep (t ++ (sep ∷ rest)) ≡ t ∷ split_on sep rest
split_on-piece sep [] rest h = ground arith
split_on-piece sep (c ∷ cs) rest h = rw (h.0, split_on-piece sep cs rest h.1)

pub split_on-join :
    (sep : ℕ) (t : Text) (ts : List Text)
    → All (Lacks sep) (t ∷ ts)
    → split_on sep (join sep (t ∷ ts)) ≡ t ∷ ts
split_on-join sep t [] h = split_on-lacking sep t h.0
split_on-join sep t (u ∷ ts) h =
    split_on-piece sep t (join sep (u ∷ ts)) h.0 ∙ ap (λ r. t ∷ r) (split_on-join sep u ts h.1)

chomp-lacking : (t : Text) → Lacks 13 t → chomp t ≡ t
chomp-lacking [] h = refl
chomp-lacking (c ∷ []) h = rw h.0 refl
chomp-lacking (c ∷ d ∷ cs) h = ap (λ r. c ∷ r) (chomp-lacking (d ∷ cs) h.1)

pub chomp_all-lacking : (ts : List Text) → All (Lacks 13) ts → chomp_all ts ≡ ts
chomp_all-lacking [] h = refl
chomp_all-lacking (t ∷ []) h = refl
chomp_all-lacking (t ∷ u ∷ ts) h = rw (chomp-lacking t h.0, chomp_all-lacking (u ∷ ts) h.1)

-- A text with a character that is no white space is not blank.
abbrev HasInk : Text → Type 0
HasInk = Any (λ c. is_space c ≡ false)

trim_start-HasInk : (t : Text) → HasInk t → HasInk (trim_start t)
trim_start-HasInk [] h = h
trim_start-HasInk (c ∷ cs) h = elim (Bool-cases (is_space c)) [
  | inr e ↦ rw e h
  | inl e ↦ elim h [
    | inl ink ↦ absurd (ground (arith, e, ink))
    | inr later ↦ rw e (trim_start-HasInk cs later)
  ]
]

end_with-ink : (c : ℕ) (r : Text) → is_space c ≡ false → eq_codes (end_with c r) [] ≡ false
end_with-ink c [] h = rw h refl
end_with-ink c (d ∷ ds) h = refl

end_with-ne : (c : ℕ) (r : Text) → eq_codes r [] ≡ false → eq_codes (end_with c r) [] ≡ false
end_with-ne c [] h = absurd (cc)
end_with-ne c (d ∷ ds) h = refl

trim_end-ne : (t : Text) → HasInk t → eq_codes (trim_end t) [] ≡ false
trim_end-ne [] h = elim h [ ]
trim_end-ne (c ∷ cs) (inl h) = end_with-ink c (trim_end cs) h
trim_end-ne (c ∷ cs) (inr h) = end_with-ne c (trim_end cs) (trim_end-ne cs h)

is_blank-ink : (t : Text) → HasInk t → is_blank t ≡ false
is_blank-ink t h = trim_end-ne (trim_start t) (trim_start-HasInk t h)

-- A line of two cells has a comma.
HasInk-middle : (t : Text) (c : ℕ) (u : Text) → is_space c ≡ false → HasInk (t ++ (c ∷ u))
HasInk-middle [] c u h = inl h
HasInk-middle (x ∷ t) c u h = inr (HasInk-middle t c u h)

pub line-ink : (a b : Text) (cells : List Text) → is_blank (join b',' (a ∷ b ∷ cells)) ≡ false
line-ink a b cells = is_blank-ink _ (HasInk-middle a b',' (join b',' (b ∷ cells)) refl)

-- A cell that a line can carry: no comma, no line break, no white space at an end.
abbrev pub IsCell : Text → Type 0
IsCell t = Lacks b',' t × Lacks 10 t × Lacks 13 t × (trim t ≡ t)

-- A name that a header can carry.
abbrev pub IsName : Text → Type 0
IsName = All (λ c. is_header_char c ≡ true)

header_char-kept : (c : ℕ) → is_header_char c ≡ true → header_char c ≡ c
header_char-kept c h = ground arith

pub char-IsPlain :
    (c : ℕ)
    → is_header_char c ≡ true
    → (is_space c ≡ false) × (c == b',' ≡ false) × (c == 10 ≡ false) × (c == 13 ≡ false)
char-IsPlain c h = ground arith

trim_end-name : (t : Text) → IsName t → trim_end t ≡ t
trim_end-name [] h = refl
trim_end-name (c ∷ []) h = rw (char-IsPlain c h.0).0 refl
trim_end-name (c ∷ d ∷ t) h = rw (trim_end-name (d ∷ t) h.1) refl

trim_start-name : (t : Text) → IsName t → trim_start t ≡ t
trim_start-name [] h = refl
trim_start-name (c ∷ cs) h = rw (char-IsPlain c h.0).0 refl

trim-name : (t : Text) → IsName t → trim t ≡ t
trim-name t h = ap trim_end (trim_start-name t h) ∙ trim_end-name t h

header_chars-name : (t : Text) → IsName t → map header_char t ≡ t
header_chars-name [] h = refl
header_chars-name (c ∷ cs) h = rw (header_char-kept c h.0, header_chars-name cs h.1) refl

pub header_name-name : (t : Text) → IsName t → header_name t ≡ t
header_name-name t h = ap (map header_char) (trim-name t h) ∙ header_chars-name t h
