-- ===== src/Core/Explanation/Text.antt =====
-- Text as code points, the standard library's number formatting, and the formatting helpers.
use Prim.Native.Char.{code}
use Prim.Native.String.{String}
use comission_mgmt.Prelude.{
  ℕ, suc, ◌%◌, Bool, true, false, not, ◌&&◌, ◌||◌, Option, none, some, List, [], ◌∷◌, ◌++◌,
  if◌then◌else◌, leb, ltb, ◌==◌,
}
use comission_mgmt.Core.Number.{Number, ◌⊗◌}

abbrev pub Text : Type 0
Text = List ℕ

abbrev pub codes : String → Text
codes String.[] = []
codes (String.◌∷◌ c s) = code c ∷ codes s

-- `Number.prototype.toFixed`, `parseFloat(s).toString()` on its result, and the constant 100.
pub record Format {ℓ} (A : Type ℓ) : Type ℓ where
  pub to_fixed : A → ℕ → Text
  pub reparse : Text → Text
  pub hundred : A

abbrev pub is_digit : ℕ → Bool
is_digit c = leb b'0' c && leb c b'9'

-- A word character, by which `\B` tells positions apart.
abbrev pub is_word : ℕ → Bool
is_word c = is_digit c || (leb b'a' c && leb c b'z') || (leb b'A' c && leb c b'Z') || c == b'_'

abbrev pub same : Bool → Bool → Bool
same true b = b
same false b = not b

unfoldable pub leading_digits : Text → ℕ
leading_digits [] = 0
leading_digits (c ∷ cs) = let rest = leading_digits cs in if is_digit c then suc rest else 0

-- `(?=(\d{3})+(?!\d))` matches where a run of digits begins whose length is a multiple of three.
unfoldable pub at_group : Text → Bool
unfolding leading_digits
at_group cs = ltb 0 (leading_digits cs) && leading_digits cs % 3 == 0

-- `s.replace(/\B(?=(\d{3})+(?!\d))/g, ',')`, behind a character of the given kind.
unfoldable pub group_from : Bool → Text → Text
unfolding at_group
group_from previous [] = []
group_from previous (c ∷ cs) =
    let rest = group_from (is_word c) cs in
    if same previous (is_word c) && at_group (c ∷ cs) then b',' ∷ c ∷ rest else c ∷ rest

unfoldable pub group_thousands : Text → Text
unfolding group_from
group_thousands = group_from false

-- `const [intPart, decPart] = fixed.split('.')`.
unfoldable pub before_dot : Text → Text
before_dot [] = []
before_dot (c ∷ cs) = let rest = before_dot cs in if c == b'.' then [] else c ∷ rest

unfoldable pub after_dot : Text → Option Text
unfolding before_dot
after_dot [] = none
after_dot (c ∷ cs) = let rest = after_dot cs in if c == b'.' then some (before_dot cs) else rest

-- An undefined part is printed as the word.
abbrev pub or_undefined : Option Text → Text
or_undefined none = codes "undefined"
or_undefined (some t) = t

module _ {ℓ} {A : Type ℓ} ⦃n : Number A⦄ ⦃f : Format A⦄ where
  unfoldable pub format_dollars : A → Text
  unfolding group_thousands before_dot after_dot
  format_dollars amount =
      let fixed = f.to_fixed amount 2 in
      codes "$"
      ++ (group_thousands (before_dot fixed) ++ (codes "." ++ or_undefined (after_dot fixed)))

  unfoldable pub format_rate : A → Text
  format_rate rate = f.reparse (f.to_fixed (rate ⊗ f.hundred) 4) ++ codes "%"

  unfoldable pub format_split : A → Text
  format_split split = f.reparse (f.to_fixed (split ⊗ f.hundred) 4) ++ codes "%"
