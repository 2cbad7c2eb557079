-- ===== src/Render/AllRoots.antt =====
-- render.go: `AllRoots` over what `filepath.WalkDir` finds.
pub mod Complete
use cost_risk_aware_gitops_p.Prelude.{
  Bool, true, false, String, str_lt, Option, none, some, List, [], ◌∷◌, ◌++◌, concat, sort,
}
use cost_risk_aware_gitops_p.Results.{Error, Result, ok, err, wrap, ◌>>=◌, ◌>>◌}
use cost_risk_aware_gitops_p.Render.Directories.{Tools, has_kustomization, contains_yaml}

-- The entries of a directory, in the order that `WalkDir` visits them: of a folder, its path, the
-- entries that could be read, and the error of reading the others.
pub data Entries : Type 0 where
  nothing : Entries
  file : (path : String) (rest : Entries) → Entries
  folder : (path : String) (below : Entries) (failure : Option Error) (rest : Entries) → Entries

-- The first lines of the callback: a missing file is passed over.
abbrev pub pass_over : Error → Result (Unit {0})
pass_over e = elim e.not_exist [ true ↦ ok tt | false ↦ err e ]

abbrev pub check_failure : Option Error → Result (Unit {0})
check_failure none = ok tt
check_failure (some e) = pass_over e

module _ {F Built : Type 0} (t : Tools F Built) where
  -- A folder of plain YAML is a root itself.
  unfoldable pub own_root : (path : String) → List String
  unfolding contains_yaml
  own_root path = elim (contains_yaml t path) [ true ↦ path ∷ [] | false ↦ [] ]

  -- `WalkDir` with the callback, which skips what is below a kustomization.
  unfoldable pub walk : Entries → Result (List String)
  unfolding has_kustomization own_root
  walk nothing = ok []
  walk (file path rest) = walk rest
  walk (folder path below failure rest) = elim (has_kustomization t path) [
    | true ↦ walk rest >>= λ roots. ok (path ∷ roots)
    | false ↦
        check_failure failure
        >> (walk below >>= λ inner. walk rest >>= λ roots. ok (own_root path ++ (inner ++ roots)))
  ]

  -- Of what reading the manifests' directory itself returned.
  unfoldable pub walk_root : Result Entries → Result (List String)
  unfolding walk
  walk_root (err e) = pass_over e >> ok []
  walk_root (ok entries) = walk entries

  -- `read_tree` is what `WalkDir` finds at a path, and `clean` is `filepath.Clean`.
  unfoldable pub all_roots :
      (read_tree : String → Result Entries) (clean : String → String) (tree_dir manifests : String)
      → Result (List String)
  unfolding walk_root sort
  all_roots read_tree clean tree_dir manifests =
      let manifests_abs = clean (t.join tree_dir manifests) in
      wrap (concat ("enumerate manifest roots under " ∷ manifests_abs ∷ []))
        (walk_root (read_tree manifests_abs))
      >>= λ roots. ok (sort str_lt roots)
