-- ===== src/Render/Roots.antt =====
-- render.go: `Roots`, which maps changed files to the directories that are rendered.
pub mod Paths
pub mod Climbing
pub mod Nearest
pub mod Agreement
use Prim.Native.Char.{Char, code}
use Prim.Native.String
use text.Mathlib.Text.{starts_with}
use cost_risk_aware_gitops_p.Prelude.{
  ℕ, zero, suc, ◌==◌, Bool, true, false, if◌then◌else◌, Option, none, some, String, str_eq, str_lt,
  List, map, sort, dedupe,
}
use cost_risk_aware_gitops_p.Results.{Result, ok}
use cost_risk_aware_gitops_p.Render.Directories.{Tools, has_kustomization}

abbrev is_separator : Char → Bool
is_separator c = code c == 47

abbrev in_front : Char → Option String → Option String
in_front c none = if is_separator c then some "" else none
in_front c (some p) = some (String.◌∷◌ c p)

-- What stands before the last separator.
unfoldable pub before_last : String → Option String
before_last String.[] = none
before_last (String.◌∷◌ c s) = in_front c (before_last s)

abbrev folder_or_root : Option String → String
folder_or_root none = "."
folder_or_root (some p) = if str_eq p "" then "/" else p

-- `filepath.Dir` of a path that `filepath.Clean` has returned.
unfoldable pub parent_of : String → String
unfolding before_last
parent_of path = folder_or_root (before_last path)

module _ {F Built : Type 0} (t : Tools F Built) (manifests_abs : String) where
  -- The loop that walks upward, for `fuel` rounds: "" where it finds no root.
  unfoldable pub climb : (fuel : ℕ) (cur : String) → String
  unfolding parent_of has_kustomization
  climb zero cur = ""
  climb (suc fuel) cur =
      let above = climb fuel (parent_of cur) in
      if starts_with cur manifests_abs
      then if has_kustomization t cur then cur else if str_eq cur manifests_abs then "" else above
      else ""

  abbrev root_or : (root dir : String) → String
  root_or root dir = if str_eq root "" then dir else root

  -- The root of a changed file's directory. A round shortens the path, so its length is fuel enough.
  unfoldable pub root_of : (dir : String) → String
  unfolding climb
  root_of dir = root_or (climb (suc (String.count dir)) dir) dir

module _ {F Built : Type 0} (t : Tools F Built) where
  -- `Roots`; `clean` is `filepath.Clean`.
  unfoldable pub roots :
      (clean : String → String) (tree_dir : String) (changed : List String) (manifests : String)
      → Result (List String)
  unfolding root_of parent_of dedupe sort
  roots clean tree_dir changed manifests =
      let manifests_abs = clean (t.join tree_dir manifests) in
      ok (
        sort str_lt
          (dedupe (map (λ f. root_of t manifests_abs (parent_of (t.join tree_dir f))) changed)))
