-- ===== src/Prelude/Dedupe.antt =====
-- The loops of the source over a `seen` map: each text once, where it stands first.
use mathlib.Core.Path.{◌≡◌, refl, sym}
use mathlib.Core.Logic.{inl, inr}
use mathlib.Core.Bool.{Bool, true, false, not, ◌&&◌, ◌||◌}
use mathlib.Core.List.{List, [], ◌∷◌, ◌++◌, Memᴰ}
use native.Mathlib.Omega.{arith}
use Prim.Native.String.{String}
use text.Mathlib.Text.{◌==◌ as str_eq}
use text.Mathlib.TextEquality.{eq_iff}
use cost_risk_aware_gitops_p.Prelude.Tests.{if◌then◌else◌, Bool-cases}

unfoldable pub contains : String → List String → Bool
contains s [] = false
contains s (t ∷ ts) = if str_eq t s then true else contains s ts

-- With what was seen before: `seen[s]`, `out = append(out, s)`.
unfoldable pub dedupe_onto : List String → List String → List String
unfolding contains
dedupe_onto seen [] = []
dedupe_onto seen (s ∷ ss) =
    let new = s ∷ dedupe_onto (s ∷ seen) ss in
    let old = dedupe_onto seen ss in if contains s seen then old else new

-- `dedupe`
unfoldable pub dedupe : List String → List String
unfolding dedupe_onto
dedupe ss = dedupe_onto [] ss

-- No text stands twice in the list.
abbrev pub IsDistinct : List String → Type 0
IsDistinct [] = Unit
IsDistinct (s ∷ ss) = (contains s ss ≡ false) × IsDistinct ss

pub contains-dedupe_onto :
    (s : String) (seen ss : List String)
    → contains s (dedupe_onto seen ss) ≡ (contains s ss && not (contains s seen))
unfolding contains dedupe_onto
contains-dedupe_onto s seen [] = ground arith
contains-dedupe_onto s seen (x ∷ xs) = elim (Bool-cases (str_eq x s)) [
  | inl e ↦
      let same = (eq_iff x s).0 e in
      ground (arith, same, contains-dedupe_onto s seen xs, contains-dedupe_onto s (x ∷ seen) xs)
  | inr e ↦ ground (arith, e, contains-dedupe_onto s seen xs, contains-dedupe_onto s (x ∷ seen) xs)
]

pub dedupe_onto-IsDistinct : (seen ss : List String) → IsDistinct (dedupe_onto seen ss)
unfolding dedupe_onto contains
dedupe_onto-IsDistinct seen [] = tt
dedupe_onto-IsDistinct seen (x ∷ xs) = elim (Bool-cases (contains x seen)) [
  | inl e ↦ rw e (dedupe_onto-IsDistinct seen xs)
  | inr e ↦
      let same = (eq_iff x x).1 refl in
      rw e (
        ground (arith, same, contains-dedupe_onto x (x ∷ seen) xs),
        dedupe_onto-IsDistinct (x ∷ seen) xs,
      )
]

pub contains-nil : (s : String) → contains s [] ≡ false
unfolding contains
contains-nil s = refl

pub contains-append :
    (s : String) (xs ys : List String) → contains s (xs ++ ys) ≡ (contains s xs || contains s ys)
unfolding contains
contains-append s [] ys = refl
contains-append s (x ∷ xs) ys = ground (arith, contains-append s xs ys)

pub contains_of_mem : {s : String} {ss : List String} → Memᴰ s ss → contains s ss ≡ true
unfolding contains
contains_of_mem {s} (Memᴰ.head {x} e) = let same = (eq_iff x s).1 (sym e) in ground arith
contains_of_mem (Memᴰ.tail m) = let later = contains_of_mem m in ground arith

mem_of_contains : (s : String) (ss : List String) → contains s ss ≡ true → Memᴰ s ss
unfolding contains
mem_of_contains s [] h = ground arith
mem_of_contains s (x ∷ xs) h = elim (Bool-cases (str_eq x s)) [
  | inl e ↦ Memᴰ.head (sym ((eq_iff x s).0 e))
  | inr e ↦ Memᴰ.tail (mem_of_contains s xs (ground arith))
]

pub dedupe_mem : {s : String} {ss : List String} → Memᴰ s ss → Memᴰ s (dedupe ss)
unfolding dedupe
dedupe_mem {s} {ss} m =
    let kept = contains-dedupe_onto s [] ss in
    mem_of_contains s (dedupe_onto [] ss) (ground (arith, contains_of_mem m, contains-nil s))
