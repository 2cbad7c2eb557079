-- ===== src/Prelude/Lexicographic.antt =====
-- A comparison by a text, and by another order where the texts are equal.
use mathlib.Core.Bool.{Bool, true, false, not}
use mathlib.Core.Logic.{inl, inr}
use mathlib.Core.Path.{◌≡◌, sym, ap, ◌∙◌}
use native.Mathlib.Omega.{arith}
use Prim.Native.String.{String}
use text.Mathlib.Text.{◌==◌ as str_eq}
use text.Mathlib.TextEquality.{eq_iff}
use cost_risk_aware_gitops_p.Prelude.Tests.{if◌then◌else◌, Bool-cases}
use cost_risk_aware_gitops_p.Prelude.Texts.{str_lt}
use cost_risk_aware_gitops_p.Prelude.Sorting.{IsWeakOrder}
use cost_risk_aware_gitops_p.Prelude.TextOrder.{str_lt-IsWeakOrder, str_lt_antisymm}

module _ {ℓ} {A : Type ℓ} (text : A → String) where
  pub text_less-IsWeakOrder : IsWeakOrder (λ a b. str_lt (text a) (text b))
  text_less-IsWeakOrder = record {
    asymm = λ a b. str_lt-IsWeakOrder.asymm (text a) (text b);
    neg_trans = λ a b c. str_lt-IsWeakOrder.neg_trans (text a) (text b) (text c);
  }

  module _ (less : A → A → Bool) (weak : IsWeakOrder less) where
    abbrev pub text_then : A → A → Bool
    text_then a b = if not (str_eq (text a) (text b)) then str_lt (text a) (text b) else less a b

    asymm_then : (a b : A) → text_then a b ≡ true → text_then b a ≡ false
    asymm_then a b h =
        let there = eq_iff (text a) (text b) in
        let back = eq_iff (text b) (text a) in
        let texts = str_lt-IsWeakOrder.asymm (text a) (text b) in
        let rest = weak.asymm a b in ground (arith, there, back, texts, rest)

    text_then-eq : (a b : A) → text a ≡ text b → text_then a b ≡ less a b
    text_then-eq a b e = let equal = (eq_iff (text a) (text b)).1 e in ground (arith, equal)

    text_then-ne :
        (a b : A) → str_eq (text a) (text b) ≡ false → text_then a b ≡ str_lt (text a) (text b)
    text_then-ne a b n = ground (arith, n)

    neg_trans_then :
        (a b c : A) → text_then a b ≡ false → text_then b c ≡ false → text_then a c ≡ false
    neg_trans_then a b c h k = elim (Bool-cases (str_eq (text a) (text b))) [
      | inl e ↦
          let ab = (eq_iff (text a) (text b)).0 e in
          elim (Bool-cases (str_eq (text b) (text c))) [
            | inl f ↦
                let bc = (eq_iff (text b) (text c)).0 f in
                text_then-eq a c (ab ∙ bc)
                ∙ weak.neg_trans a b c (sym (text_then-eq a b ab) ∙ h)
                    (sym (text_then-eq b c bc) ∙ k)
            | inr f ↦
                text_then-ne a c (ap (λ t. str_eq t (text c)) ab ∙ f)
                ∙ ap (λ t. str_lt t (text c)) ab
                ∙ sym (text_then-ne b c f)
                ∙ k
          ]
      | inr e ↦
          let below = sym (text_then-ne a b e) ∙ h in
          elim (Bool-cases (str_eq (text b) (text c))) [
            | inl f ↦
                let bc = (eq_iff (text b) (text c)).0 f in
                text_then-ne a c (ap (str_eq (text a)) (sym bc) ∙ e)
                ∙ ap (str_lt (text a)) (sym bc)
                ∙ below
            | inr f ↦
                let above = sym (text_then-ne b c f) ∙ k in
                elim (Bool-cases (str_eq (text a) (text c))) [
                  | inl g ↦
                      let ac = (eq_iff (text a) (text c)).0 g in
                      let ab =
                        str_lt_antisymm (text a) (text b) below (ap (str_lt (text b)) ac ∙ above) in
                      let equal = (eq_iff (text a) (text b)).1 ab in ground (arith, e, equal)
                  | inr g ↦
                      text_then-ne a c g
                      ∙ str_lt-IsWeakOrder.neg_trans (text a) (text b) (text c) below above
                ]
          ]
    ]

    pub text_then-IsWeakOrder : IsWeakOrder text_then
    text_then-IsWeakOrder = record { asymm = asymm_then; neg_trans = neg_trans_then }
