-- ===== src/Float64.antt =====
-- Go's `float64`: all that the source does with one, as an interface over a type `F` of values.
-- The code is modelled over any such `F`; `IsIeee` lists what the theorems use of the arithmetic.
pub mod Cents
use cost_risk_aware_gitops_p.Prelude.{◌≡◌, Bool, true, not, ℕ, String, if◌then◌else◌}
use cost_risk_aware_gitops_p.Prelude.Int.{ℤ, pos, leb_ℤ}

pub record Float64 (F : Type 0) : Type 0 where
  pub add : F → F → F
  pub sub : F → F → F
  pub mul : F → F → F
  pub div : F → F → F
  pub lt : F → F → Bool
  pub le : F → F → Bool
  pub eq : F → F → Bool
  -- `float64(n)` and `int(x)`
  pub of_int : ℤ → F
  pub to_int : F → ℤ
  -- `%.Nf`, `%+.Nf` and `%g`
  pub show_fixed : ℕ → F → String
  pub show_signed : ℕ → F → String
  pub show_shortest : F → String

module _ {F : Type 0} ⦃fl : Float64 F⦄ where
  open fl use {lt, of_int}

  abbrev pub zero_f : F
  zero_f = of_int (pos 0)

  -- The builtin `max`.
  abbrev pub max_f : F → F → F
  max_f x y = if lt x y then y else x

-- What IEEE 754 arithmetic satisfies where no value is a NaN and no result overflows, with the two
-- zeros taken as one: rounding is monotone and exact at 0, and gradual underflow keeps the sign of a
-- difference. Addition is not associative, and nothing here says so.
pub record IsIeee (F : Type 0) ⦃fl : Float64 F⦄ : Type 0 where
  pub le_refl : (a : F) → fl.le a a ≡ true
  pub le_trans : (a b c : F) → fl.le a b ≡ true → fl.le b c ≡ true → fl.le a c ≡ true
  pub le_antisymm : (a b : F) → fl.le a b ≡ true → fl.le b a ≡ true → a ≡ b
  pub lt-eq-not-le : (a b : F) → fl.lt a b ≡ not (fl.le b a)
  pub le_of_lt : (a b : F) → fl.lt a b ≡ true → fl.le a b ≡ true
  pub eq_of_eq : (a b : F) → fl.eq a b ≡ true → a ≡ b
  pub eq_refl : (a : F) → fl.eq a a ≡ true
  pub add_comm : (a b : F) → fl.add a b ≡ fl.add b a
  pub zero-add : (a : F) → fl.add (fl.of_int (pos 0)) a ≡ a
  pub add_mono : (a b c : F) → fl.le a b ≡ true → fl.le (fl.add a c) (fl.add b c) ≡ true
  pub mul_comm : (a b : F) → fl.mul a b ≡ fl.mul b a
  pub zero-mul : (a : F) → fl.mul (fl.of_int (pos 0)) a ≡ fl.of_int (pos 0)
  pub mul_mono :
      (a b c : F)
      → fl.le (fl.of_int (pos 0)) c ≡ true
      → fl.le a b ≡ true
      → fl.le (fl.mul a c) (fl.mul b c) ≡ true
  pub sub_pos : (a b : F) → fl.lt (fl.of_int (pos 0)) (fl.sub a b) ≡ fl.lt b a
  pub sub_neg : (a b : F) → fl.lt (fl.sub a b) (fl.of_int (pos 0)) ≡ fl.lt a b
  pub sub_self : (a : F) → fl.sub a a ≡ fl.of_int (pos 0)
  pub of_int_mono : (m n : ℤ) → leb_ℤ m n ≡ true → fl.le (fl.of_int m) (fl.of_int n) ≡ true
