-- ===== src/Prelude/Codes.antt =====
-- Texts as lists of code points: equality and `trim`.
use Prim.Native.Nat.{ℕ}
use mathlib.Core.Path.{◌≡◌, refl}
use mathlib.Core.Bool.{Bool, true, false, ◌&&◌, ◌||◌}
use mathlib.Core.List.{List, [], ◌∷◌}
use native.Mathlib.Omega.{arith}
use comission_mgmt.Prelude.Tests.{◌==◌, ltb, if◌then◌else◌}

-- `===` on texts.
abbrev pub eq_codes : List ℕ → List ℕ → Bool
eq_codes [] [] = true
eq_codes (x ∷ xs) (y ∷ ys) = x == y && eq_codes xs ys
eq_codes _ _ = false

pub eq_codes_refl : (xs : List ℕ) → eq_codes xs xs ≡ true
eq_codes_refl [] = refl
eq_codes_refl (x ∷ xs) = ground (arith, eq_codes_refl xs)

pub eq_codes→eq : (xs ys : List ℕ) → eq_codes xs ys ≡ true → xs ≡ ys
eq_codes→eq [] [] h = refl
eq_codes→eq [] (y ∷ ys) h = absurd (cc)
eq_codes→eq (x ∷ xs) [] h = absurd (cc)
eq_codes→eq (x ∷ xs) (y ∷ ys) h = ground (arith, eq_codes→eq xs ys)

-- White space, as `trim` takes it off (the space and the controls of ASCII).
abbrev pub is_space : ℕ → Bool
is_space c = c == 32 || (ltb 8 c && ltb c 14)

abbrev pub trim_start : List ℕ → List ℕ
trim_start [] = []
trim_start (c ∷ cs) = let rest = trim_start cs in if is_space c then rest else c ∷ cs

abbrev pub end_with : ℕ → List ℕ → List ℕ
end_with c [] = if is_space c then [] else c ∷ []
end_with c (d ∷ ds) = c ∷ d ∷ ds

abbrev pub trim_end : List ℕ → List ℕ
trim_end [] = []
trim_end (c ∷ cs) = end_with c (trim_end cs)

abbrev pub trim : List ℕ → List ℕ
trim t = trim_end (trim_start t)

-- `!text || text.trim() === ''`.
abbrev pub is_blank : List ℕ → Bool
is_blank t = eq_codes (trim t) []
