-- ===== src/Core/Explanation/Grouping.antt =====
-- The thousands separators of `formatDollars`.
use comission_mgmt.Prelude.{
  ℕ, suc, ap, ◌+◌, ◌-◌, ◌/◌, ◌%◌, ◌≡◌, refl, ◌∙◌, inl, inr, Bool, true, false, ◌&&◌, [], ◌∷◌,
  if◌then◌else◌, arith, ltb, ◌==◌, length, All, Bool-cases,
}
use comission_mgmt.Core.Explanation.Text.{
  Text, is_digit, is_word, same, leading_digits, at_group, group_from, group_thousands,
}

-- The text with its commas taken out.
abbrev without_commas : Text → Text
without_commas [] = []
without_commas (c ∷ cs) = let rest = without_commas cs in if c == b',' then rest else c ∷ rest

-- The commas are all that `group_from` adds.
without_commas-group_from :
    (previous : Bool) (cs : Text) → without_commas (group_from previous cs) ≡ without_commas cs
unfolding group_from
without_commas-group_from previous [] = refl
without_commas-group_from previous (c ∷ cs) =
    elim (Bool-cases (same previous (is_word c) && at_group (c ∷ cs))) [
      | inl e ↦ rw e (rw (without_commas-group_from (is_word c) cs))
      | inr e ↦ rw e (rw (without_commas-group_from (is_word c) cs))
    ]

abbrev IsDigits : Text → Type 0
IsDigits = All (λ c. is_digit c ≡ true)

leading_digits-IsDigits : (cs : Text) → IsDigits cs → leading_digits cs ≡ length cs
unfolding leading_digits
leading_digits-IsDigits [] h = refl
leading_digits-IsDigits (c ∷ cs) h = rw h.0 (ap suc (leading_digits-IsDigits cs h.1))

is_word_of_digit : (c : ℕ) → is_digit c ≡ true → is_word c ≡ true
is_word_of_digit c h = ground arith

-- One step behind a word character, with the run of digits that begins there.
grouped :
    (cs : Text) (c : ℕ)
    → length (group_from true cs) ≡ length cs + length cs / 3
    → length (
        if ltb 0 (suc (length cs)) && suc (length cs) % 3 == 0
        then b',' ∷ c ∷ group_from true cs
        else c ∷ group_from true cs)
      ≡ suc (length cs) + suc (length cs) / 3
grouped cs c h = ground arith

-- Behind a word character one comma stands before each group of three digits.
length-group_from :
    (cs : Text) → IsDigits cs → length (group_from true cs) ≡ length cs + length cs / 3
unfolding group_from at_group
length-group_from [] h = refl
length-group_from (c ∷ cs) h =
    let word = is_word_of_digit c h.0 in
    let run = leading_digits-IsDigits (c ∷ cs) h in
    let rest = length-group_from cs h.1 in rw (word, run) (grouped cs c rest)

not_comma : (c : ℕ) → is_digit c ≡ true → c == b',' ≡ false
not_comma c h = ground arith

without_commas-IsDigits : (cs : Text) → IsDigits cs → without_commas cs ≡ cs
without_commas-IsDigits [] h = refl
without_commas-IsDigits (c ∷ cs) h =
    rw (not_comma c h.0) (ap (λ rest. c ∷ rest) (without_commas-IsDigits cs h.1))

-- Grouping the n digits of a whole amount adds (n - 1) / 3 commas, one for each group of three but
-- the first group, and changes nothing else: the text without its commas is the amount again.
group_thousands_lem :
    (c : ℕ) (cs : Text)
    → IsDigits (c ∷ cs)
    → (without_commas (group_thousands (c ∷ cs)) ≡ c ∷ cs)
      × (length (group_thousands (c ∷ cs)) ≡ length (c ∷ cs) + (length (c ∷ cs) - 1) / 3)
unfolding group_thousands group_from
group_thousands_lem c cs h = (
  without_commas-group_from false (c ∷ cs) ∙ without_commas-IsDigits (c ∷ cs) h,
  ground (arith, is_word_of_digit c h.0, length-group_from cs h.1),
)
