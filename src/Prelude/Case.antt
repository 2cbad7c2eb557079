-- ===== src/Prelude/Case.antt =====
-- `strings.ToLower`, as the source uses it.
use Prim.Native.Nat.{◌+◌}
use Prim.Native.Char.{Char, code}
use Prim.Native.String.{String, [], ◌∷◌}
use mathlib.Core.Bool.{Bool, true, false, ◌&&◌, ◌||◌}
use cost_risk_aware_gitops_p.Prelude.Tests.{ltb, ◌==◌}

-- `strings.ToLower(s) == t`, for a text t of the letters a to z but i: the capitals, and the Kelvin
-- sign, are all else that lowers to one of them.
abbrev lowers_to_letter : Char → Char → Bool
lowers_to_letter c d =
    (code c == code d)
    || ((ltb 64 (code c) && ltb (code c) 91 && (code c + 32 == code d))
        || ((code c == 8490) && (code d == 107)))

unfoldable pub lowers_to : String → String → Bool
lowers_to [] [] = true
lowers_to [] (d ∷ t) = false
lowers_to (c ∷ s) [] = false
lowers_to (c ∷ s) (d ∷ t) = lowers_to_letter c d && lowers_to s t
