-- ===== src/Prelude/TextOrder.antt =====
-- Go's `<` on strings is a strict weak order, and tells different texts apart.
use Prim.Native.Nat.{Ordering}
use Prim.Native.Char.{Char, code}
use Prim.Native.String.compare
use Prim.Native.String.{String, [], ◌∷◌, compare}
use mathlib.Core.Path.{◌≡◌, ◌∙◌, ap}
use mathlib.Core.Bool.{Bool, true, false, ◌&&◌, ◌||◌}
use native.Mathlib.Omega.{arith}
use text.Mathlib.TextEquality.{path_by_compare}
use cost_risk_aware_gitops_p.Prelude.Tests.{ltb, ◌==◌}
use cost_risk_aware_gitops_p.Prelude.Texts.{str_lt}
use cost_risk_aware_gitops_p.Prelude.Sorting.{IsWeakOrder}

abbrev is_less : Ordering → Bool
is_less o = elim o [ Ordering.lt ↦ true | _ ↦ false ]

str_lt-nil_nil : str_lt [] [] ≡ false
str_lt-nil_nil = ap is_less compare.nil-nil

str_lt-nil_cons : (d : Char) (t : String) → str_lt [] (d ∷ t) ≡ true
str_lt-nil_cons d t = ap is_less (compare.nil-cons d t)

str_lt-cons_nil : (c : Char) (s : String) → str_lt (c ∷ s) [] ≡ false
str_lt-cons_nil c s = ap is_less (compare.cons-nil c s)

str_lt-cons_cons :
    (c d : Char) (s t : String)
    → str_lt (c ∷ s) (d ∷ t) ≡ (ltb (code c) (code d) || ((code c == code d) && str_lt s t))
str_lt-cons_cons c d s t = ap is_less (compare.cons-cons c d s t) ∙ ground arith

str_lt-asymm : (s t : String) → str_lt s t ≡ true → str_lt t s ≡ false
str_lt-asymm [] [] h = str_lt-nil_nil
str_lt-asymm [] (d ∷ t) h = str_lt-cons_nil d t
str_lt-asymm (c ∷ s) [] h = ground (arith, str_lt-cons_nil c s)
str_lt-asymm (c ∷ s) (d ∷ t) h =
    ground (arith, str_lt-cons_cons c d s t, str_lt-cons_cons d c t s, str_lt-asymm s t)

str_lt-neg_trans : (s t u : String) → str_lt s t ≡ false → str_lt t u ≡ false → str_lt s u ≡ false
str_lt-neg_trans [] [] u h k = k
str_lt-neg_trans [] (d ∷ t) u h k = ground (arith, str_lt-nil_cons d t)
str_lt-neg_trans (c ∷ s) t [] h k = str_lt-cons_nil c s
str_lt-neg_trans (c ∷ s) [] (e ∷ u) h k = ground (arith, str_lt-nil_cons e u)
str_lt-neg_trans (c ∷ s) (d ∷ t) (e ∷ u) h k = ground (
  arith,
  str_lt-cons_cons c d s t,
  str_lt-cons_cons d e t u,
  str_lt-cons_cons c e s u,
  str_lt-neg_trans s t u,
)

pub str_lt-IsWeakOrder : IsWeakOrder str_lt
str_lt-IsWeakOrder = record { asymm = str_lt-asymm; neg_trans = str_lt-neg_trans }

compare_of_not-str_lt :
    (s t : String) → str_lt s t ≡ false → str_lt t s ≡ false → compare s t ≡ Ordering.eq
compare_of_not-str_lt [] [] h k = compare.nil-nil
compare_of_not-str_lt [] (d ∷ t) h k = ground (arith, str_lt-nil_cons d t)
compare_of_not-str_lt (c ∷ s) [] h k = ground (arith, str_lt-nil_cons c s)
compare_of_not-str_lt (c ∷ s) (d ∷ t) h k =
    compare.cons-cons c d s t
    ∙ ground (arith, str_lt-cons_cons c d s t, str_lt-cons_cons d c t s, compare_of_not-str_lt s t)

-- Of two different texts one is less.
pub str_lt_antisymm : (s t : String) → str_lt s t ≡ false → str_lt t s ≡ false → s ≡ t
str_lt_antisymm s t h k = path_by_compare s t (compare_of_not-str_lt s t h k)
