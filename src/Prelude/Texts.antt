-- ===== src/Prelude/Texts.antt =====
-- Texts: the byte-wise order of Go's `<`, and the parts of `fmt` and `strings` that the source uses.
use Prim.Native.Nat.{ℕ, zero, suc, ◌/◌, ◌%◌, Ordering}
use Prim.Native.String
use Prim.Native.String.{String, compare}
use mathlib.Core.Bool.{Bool, true, false}
use mathlib.Core.List.{List, [], ◌∷◌}
use cost_risk_aware_gitops_p.Prelude.Tests.{ltb, ◌==◌, if◌then◌else◌}
use cost_risk_aware_gitops_p.Prelude.Int.{ℤ, pos, negsuc}

-- `s < t` on strings.
abbrev pub str_lt : String → String → Bool
str_lt s t = elim (compare s t) [ Ordering.lt ↦ true | _ ↦ false ]

-- The pieces of a format, put together.
unfoldable pub concat : List String → String
concat [] = ""
concat (s ∷ ss) = String.◌++◌ s (concat ss)

-- `strings.Join`.
unfoldable pub join : String → List String → String
join sep [] = ""
join sep (s ∷ []) = s
join sep (s ∷ t ∷ ss) = String.◌++◌ s (String.◌++◌ sep (join sep (t ∷ ss)))

abbrev digit : ℕ → String
digit n =
    if n == 0
    then "0"
    else if n == 1
    then "1"
    else if n == 2
    then "2"
    else if n == 3
    then "3"
    else if n == 4
    then "4"
    else if n == 5
    then "5"
    else if n == 6
    then "6"
    else if n == 7
    then "7"
    else if n == 8
    then "8"
    else "9"

-- Each round takes a digit off, so the number itself is fuel enough.
show_from : ℕ → ℕ → String
show_from zero n = digit n
show_from (suc fuel) n =
    let more = String.◌++◌ (show_from fuel (n / 10)) (digit (n % 10)) in
    if ltb n 10 then digit n else more

-- `%d`.
unfoldable pub show_nat : ℕ → String
unfolding show_from
show_nat n = show_from n n

unfoldable pub show_int : ℤ → String
unfolding show_nat
show_int (pos n) = show_nat n
show_int (negsuc n) = String.◌++◌ "-" (show_nat (suc n))

-- `%q`, for texts that hold no quote, backslash or control character.
unfoldable pub quote : String → String
unfolding concat
quote s = concat ("\"" ∷ s ∷ "\"" ∷ [])
