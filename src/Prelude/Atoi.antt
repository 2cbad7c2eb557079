-- ===== src/Prelude/Atoi.antt =====
-- `strconv.Atoi`, in decimal and 64 bits.
use Prim.Native.Char.{code}
use Prim.Native.Nat.{ℕ, zero, suc, ◌+◌, ◌-◌, ◌*◌, ◌^◌}
use Prim.Native.String.{String}
use mathlib.Core.Bool.{◌&&◌}
use mathlib.Core.List.{List, [], ◌∷◌}
use mathlib.Core.Option.{Option, none, some}
use cost_risk_aware_gitops_p.Prelude.Tests.{leb, ltb, ◌==◌, if◌then◌else◌}
use cost_risk_aware_gitops_p.Prelude.Int.{ℤ, pos, negsuc}

abbrev codes : String → List ℕ
codes String.[] = []
codes (String.◌∷◌ c s) = code c ∷ codes s

unfoldable pub digits_value : (acc : ℕ) → List ℕ → Option ℕ
digits_value acc [] = some acc
digits_value acc (c ∷ cs) =
    let rest = digits_value (acc * 10 + (c - b'0')) cs in
    if leb b'0' c && leb c b'9' then rest else none

-- A number has a digit.
unfoldable pub natural : List ℕ → Option ℕ
unfolding digits_value
natural [] = none
natural (c ∷ cs) = digits_value 0 (c ∷ cs)

abbrev positive : Option ℕ → Option ℤ
positive none = none
positive (some n) = if ltb n (2 ^ 63) then some (pos n) else none

abbrev negated : ℕ → ℤ
negated zero = pos 0
negated (suc n) = negsuc n

abbrev negative : Option ℕ → Option ℤ
negative none = none
negative (some n) = if leb n (2 ^ 63) then some (negated n) else none

unfoldable pub signed : List ℕ → Option ℤ
unfolding natural
signed [] = none
signed (c ∷ cs) =
    if c == b'-'
    then negative (natural cs)
    else if c == b'+'
    then positive (natural cs)
    else positive (natural (c ∷ cs))

-- `none` for its error.
unfoldable pub atoi : String → Option ℤ
unfolding signed
atoi s = signed (codes s)
