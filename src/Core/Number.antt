-- ===== src/Core/Number.antt =====
-- The JavaScript `number` as the commission rules use it: constants, three operations and one
-- comparison. The laws are those that hold of finite IEEE 754 doubles, rounding included, as long
-- as no operation overflows.
use Prim.Native.Nat.{◌/◌}
use native.Mathlib.Nat.{mul-le-mul_right}
use comission_mgmt.Prelude.{ℕ, ◌+◌, ◌*◌, ◌≤◌, ◌≡◌, refl, ◌⊎◌, Bool, true, not, arith, if◌then◌else◌}
use comission_mgmt.Prelude.Int.{ℤ, pos, negsuc, ◌-ℤ◌, ◌+ℤ◌, leb_ℤ}

pub record Number {ℓ} (A : Type ℓ) : Type ℓ where
  pub nought : A
  pub one : A
  pub add : A → A → A
  pub subtract : A → A → A
  pub multiply : A → A → A
  pub le : A → A → Bool

module _ {ℓ} {A : Type ℓ} ⦃n : Number A⦄ where
  infixl 65 ◌⊕◌ ◌⊖◌
  infixl 70 ◌⊗◌
  infix 50 ◌≼◌
  abbrev pub ◌⊕◌ : A → A → A
  x ⊕ y = n.add x y

  abbrev pub ◌⊖◌ : A → A → A
  x ⊖ y = n.subtract x y

  abbrev pub ◌⊗◌ : A → A → A
  x ⊗ y = n.multiply x y

  -- x <= y holds.
  abbrev pub ◌≼◌ : A → A → Type 0
  x ≼ y = n.le x y ≡ true

  -- x < y, on numbers that are not NaN.
  abbrev pub lt : A → A → Bool
  lt x y = not (n.le y x)

  -- Math.max(x, y) and Math.min(x, y).
  abbrev pub max : A → A → A
  max x y = if n.le y x then x else y

  abbrev pub min : A → A → A
  min x y = if n.le x y then x else y

pub record IsOrdered {ℓ} (A : Type ℓ) ⦃n : Number A⦄ : Type ℓ where
  pub le_refl : (x : A) → x ≼ x
  pub le_trans : (x y z : A) → x ≼ y → y ≼ z → x ≼ z
  pub le_total : (x y : A) → (x ≼ y) ⊎ (y ≼ x)
  pub nought-le-one : n.nought ≼ n.one
  pub subtract_nonneg : (x y : A) → y ≼ x → n.nought ≼ (x ⊖ y)
  pub subtract_pos : (x y : A) → lt y x ≡ true → lt n.nought (x ⊖ y) ≡ true
  pub subtract-le : (x y : A) → n.nought ≼ y → (x ⊖ y) ≼ x
  pub subtract_self : (x : A) → x ⊖ x ≡ n.nought
  pub multiply_nonneg : (x y : A) → n.nought ≼ x → n.nought ≼ y → n.nought ≼ (x ⊗ y)
  pub multiply-le : (x y : A) → n.nought ≼ x → y ≼ n.one → (x ⊗ y) ≼ x
  pub multiply_mono : (x y z : A) → n.nought ≼ z → x ≼ y → (x ⊗ z) ≼ (y ⊗ z)

-- Fixed-point numbers with four decimals, truncated towards zero: `pos 2500` is 0.25.
abbrev pub Fixed : Type 0
Fixed = ℤ

abbrev pub multiply_fixed : ℤ → ℤ → ℤ
multiply_fixed (pos a) (pos b) = pos (a * b / 10_000)
multiply_fixed (pos a) (negsuc b) = pos 0 -ℤ pos (a * (b + 1) / 10_000)
multiply_fixed (negsuc a) (pos b) = pos 0 -ℤ pos ((a + 1) * b / 10_000)
multiply_fixed (negsuc a) (negsuc b) = pos ((a + 1) * (b + 1) / 10_000)

instance abbrev pub fixed_number : Number Fixed
fixed_number = record {
  nought = pos 0;
  one = pos 10_000;
  add = ◌+ℤ◌;
  subtract = ◌-ℤ◌;
  multiply = multiply_fixed;
  le = leb_ℤ;
}

le-mul_div : (a b : ℕ) → b ≤ 10_000 → a * b / 10_000 ≤ a
le-mul_div a b h = grind arith

mul_div_mono : (a b c : ℕ) → a ≤ b → a * c / 10_000 ≤ b * c / 10_000
mul_div_mono a b c h = omega (arith, mul-le-mul_right c h)

fixed_nonneg : (x y : Fixed) → pos 0 ≼ x → pos 0 ≼ y → pos 0 ≼ (x ⊗ y)
fixed_nonneg (pos a) (pos b) p q = ground arith
fixed_nonneg (pos a) (negsuc b) p q = absurd (ground arith)
fixed_nonneg (negsuc a) y p q = absurd (ground arith)

fixed-le : (x y : Fixed) → pos 0 ≼ x → y ≼ pos 10_000 → (x ⊗ y) ≼ x
unfolding ◌-ℤ◌
fixed-le (pos a) (pos b) p q = ground (arith, le-mul_div a b)
fixed-le (pos a) (negsuc b) p q = ground arith
fixed-le (negsuc a) y p q = absurd (ground arith)

fixed_mono : (x y z : Fixed) → pos 0 ≼ z → x ≼ y → (x ⊗ z) ≼ (y ⊗ z)
unfolding ◌-ℤ◌
fixed_mono (pos a) (pos b) (pos c) p q = ground (arith, mul_div_mono a b c)
fixed_mono (negsuc a) (pos b) (pos c) p q = ground arith
fixed_mono (pos a) (negsuc b) (pos c) p q = ground arith
fixed_mono (negsuc a) (negsuc b) (pos c) p q = ground (arith, mul_div_mono (b + 1) (a + 1) c)
fixed_mono x y (negsuc c) p q = absurd (ground arith)

-- The laws can be met.
pub Fixed-IsOrdered : IsOrdered Fixed
unfolding ◌-ℤ◌
Fixed-IsOrdered = record {
  le_refl = λ x. ground arith;
  le_trans = λ x y z p q. ground arith;
  le_total = λ x y. ground arith;
  nought-le-one = refl;
  subtract_nonneg = λ x y p. ground arith;
  subtract_pos = λ x y p. ground arith;
  subtract-le = λ x y p. ground arith;
  subtract_self = λ x. ground arith;
  multiply_nonneg = fixed_nonneg;
  multiply-le = fixed-le;
  multiply_mono = fixed_mono;
}
