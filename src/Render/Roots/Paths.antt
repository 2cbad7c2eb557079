-- ===== src/Render/Roots/Paths.antt =====
-- render.go: `filepath.Dir` on the paths of folders below the manifests' directory.
use Prim.Native.String
use Prim.Native.String.append
use text.Mathlib.Text.{starts_with}
use text.Mathlib.TextPositions.{starts_with-append}
use text.Mathlib.TextLemmas.{append-nil, append_assoc, length-append, append-eq-nil_iff}
use cost_risk_aware_gitops_p.Prelude.{
  ◌≡◌, refl, sym, ap, ◌∙◌, subst, inl, inr, ◌<◌, ◌≤◌, true, false, Bool-cases, none, some, String,
  str_eq, eq_iff, List, [], ◌∷◌, arith,
}
use cost_risk_aware_gitops_p.Render.Roots.{before_last, parent_of}

-- The name of an entry holds no separator.
abbrev pub IsName : String → Type 0
IsName s = before_last s ≡ none

-- The path of a folder from the names that lead to it, the innermost first.
unfoldable pub path_of : (top : String) → List String → String
path_of top [] = top
path_of top (s ∷ ss) = String.◌++◌ (path_of top ss) (String.◌++◌ "/" s)

before_last-slash : (s : String) → IsName s → before_last (String.◌++◌ "/" s) ≡ some ""
unfolding before_last
before_last-slash s h = rw (append.cons, append.nil, h) refl

before_last-append :
    (p s : String) → IsName s → before_last (String.◌++◌ p (String.◌++◌ "/" s)) ≡ some p
unfolding before_last
before_last-append String.[] s h = rw (append.nil) (before_last-slash s h)
before_last-append (String.◌∷◌ c p) s h = rw (append.cons c p, before_last-append p s h) refl

count_slash : String.count "/" ≡ 1
count_slash = refl

-- A path is shorter than what is below it, and begins it.
pub below_is_longer :
    (top : String) (s : String) (ss : List String)
    → String.count (path_of top ss) < String.count (path_of top (s ∷ ss))
unfolding path_of
below_is_longer top s ss =
    omega
      (arith, length-append (path_of top ss) (String.◌++◌ "/" s), length-append "/" s, count_slash)

top_is_shortest :
    (top : String) (ss : List String) → String.count top ≤ String.count (path_of top ss)
unfolding path_of
top_is_shortest top [] = omega arith
top_is_shortest top (s ∷ ss) = omega (arith, top_is_shortest top ss, below_is_longer top s ss)

count_ne : (s t : String) → String.count s < String.count t → str_eq t s ≡ false
count_ne s t h = elim (Bool-cases (str_eq t s)) [
  | inl e ↦ let same = ap String.count ((eq_iff t s).0 e) in ground arith
  | inr e ↦ e
]

pub not_top : (top s : String) (ss : List String) → str_eq (path_of top (s ∷ ss)) top ≡ false
not_top top s ss =
    count_ne top (path_of top (s ∷ ss))
      (omega (arith, top_is_shortest top ss, below_is_longer top s ss))

path_of-split :
    (top : String) (ss : List String) → (rest : String) × (path_of top ss ≡ String.◌++◌ top rest)
unfolding path_of
path_of-split top [] = ("", sym (append-nil top))
path_of-split top (s ∷ ss) =
    let (rest, e) = path_of-split top ss in
    let tail = String.◌++◌ "/" s in
    (String.◌++◌ rest tail, ap (λ p. String.◌++◌ p tail) e ∙ append_assoc top rest tail)

pub path_of-starts_with :
    (top : String) (ss : List String) → starts_with (path_of top ss) top ≡ true
path_of-starts_with top ss =
    let (rest, e) = path_of-split top ss in
    subst (λ p. starts_with p top ≡ true) (sym e) (starts_with-append top rest)

pub path_of-given :
    (top : String) (ss : List String) → str_eq top "" ≡ false → str_eq (path_of top ss) "" ≡ false
path_of-given top ss h = elim (Bool-cases (str_eq (path_of top ss) "")) [
  | inl e ↦
      let (rest, split) = path_of-split top ss in
      let none_left = append-eq-nil_iff.0 (sym split ∙ (eq_iff (path_of top ss) "").0 e) in
      let top_is_empty = (eq_iff top "").1 none_left.0 in ground arith
  | inr e ↦ e
]

pub parent_of-path_of :
    (top s : String) (ss : List String)
    → str_eq top "" ≡ false
    → IsName s
    → parent_of (path_of top (s ∷ ss)) ≡ path_of top ss
unfolding parent_of path_of
parent_of-path_of top s ss given name =
    rw (before_last-append (path_of top ss) s name, path_of-given top ss given) refl
