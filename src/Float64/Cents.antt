-- ===== src/Float64/Cents.antt =====
-- The interface of floats and its laws can be met: whole numbers, say of cents, with a division that
-- rounds towards zero. The tests and the instances of theorems run over it.
use native.Mathlib.Nat.{le_refl, mul-le-mul, mul_comm}
use cost_risk_aware_gitops_p.Float64.{Float64, IsIeee}
use cost_risk_aware_gitops_p.Prelude.{
  ℕ, suc, ◌+◌, ◌*◌, ◌/◌, ◌≤◌, ◌≡◌, true, arith, show_int, le→leb, leb→le,
}
use cost_risk_aware_gitops_p.Prelude.Int.{
  ℤ, pos, negsuc, pos_part, neg_part, sub_ℕ, ◌+ℤ◌, ◌-ℤ◌, ◌*ℤ◌, ◌≤ℤ◌, leb_ℤ, ltb_ℤ, eqb_ℤ,
  eq_of_eqb_ℤ,
}

abbrev pub Cents : Type 0
Cents = ℤ

-- A quotient with its sign; division by 0 does not occur in the tests.
abbrev pub div_ℤ : ℤ → ℤ → ℤ
div_ℤ a b =
    sub_ℕ (pos_part a / pos_part b + neg_part a / neg_part b)
      (pos_part a / neg_part b + neg_part a / pos_part b)

pub mul_ℤ_comm : (a b : ℤ) → a *ℤ b ≡ b *ℤ a
unfolding ◌*ℤ◌
mul_ℤ_comm (pos a) (pos b) = ground (arith, mul_comm a b)
mul_ℤ_comm (pos a) (negsuc b) = ground (arith, mul_comm a (suc b))
mul_ℤ_comm (negsuc a) (pos b) = ground (arith, mul_comm (suc a) b)
mul_ℤ_comm (negsuc a) (negsuc b) = ground (arith, mul_comm (suc a) (suc b))

pub mul_ℤ_mono : (a b : ℤ) (c : ℕ) → a ≤ℤ b → a *ℤ pos c ≤ℤ b *ℤ pos c
unfolding ◌*ℤ◌
mul_ℤ_mono (pos a) (pos b) c h =
    let scaled : a * c ≤ b * c = mul-le-mul {n₁ = a} {m₁ = c} {n₂ = b} (omega arith) (le_refl c) in
    ground arith
mul_ℤ_mono (pos a) (negsuc b) c h = absurd (omega arith)
mul_ℤ_mono (negsuc a) (pos b) c h = ground arith
mul_ℤ_mono (negsuc a) (negsuc b) c h =
    let scaled : suc b * c ≤ suc a * c =
      mul-le-mul {n₁ = suc b} {m₁ = c} {n₂ = suc a} (omega arith) (le_refl c) in
    ground arith

instance abbrev pub cents_float : Float64 Cents
cents_float = record {
  add = ◌+ℤ◌;
  sub = ◌-ℤ◌;
  mul = ◌*ℤ◌;
  div = div_ℤ;
  lt = ltb_ℤ;
  le = leb_ℤ;
  eq = eqb_ℤ;
  of_int = λ n. n;
  to_int = λ x. x;
  show_fixed = λ _. show_int;
  show_signed = λ _. show_int;
  show_shortest = show_int;
}

mul_of_pos : (a b c : ℤ) → leb_ℤ (pos 0) c ≡ true → a ≤ℤ b → a *ℤ c ≤ℤ b *ℤ c
mul_of_pos a b (pos c) _ h = mul_ℤ_mono a b c h
mul_of_pos a b (negsuc c) n h = absurd (omega (arith, leb→le (0 + suc c) 0 n))

pub Cents-IsIeee : IsIeee Cents
unfolding ◌+ℤ◌ ◌-ℤ◌ ◌*ℤ◌
Cents-IsIeee = record {
  le_refl = λ a. ground arith;
  le_trans = λ a b c h k. ground arith;
  le_antisymm = λ a b h k. ground arith;
  lt-eq-not-le = λ a b. ground arith;
  le_of_lt = λ a b h. ground arith;
  eq_of_eq = eq_of_eqb_ℤ;
  eq_refl = λ a. ground arith;
  add_comm = λ a b. ground arith;
  zero-add = λ a. ground arith;
  add_mono = λ a b c h. ground arith;
  mul_comm = mul_ℤ_comm;
  zero-mul = λ a. ground arith;
  mul_mono = λ a b c n h. le→leb _ _ (mul_of_pos a b c n (leb→le _ _ h));
  sub_pos = λ a b. ground arith;
  sub_neg = λ a b. ground arith;
  sub_self = λ a. ground arith;
  of_int_mono = λ m n h. h;
}
