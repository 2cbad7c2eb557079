-- ===== src/Render/Roots/Nearest.antt =====
-- render.go: `Roots` returns the nearest kustomization of each changed file.
use mathlib.Core.List.{Perm, map-map}
use cost_risk_aware_gitops_p.Prelude.{
  ◌≡◌, sym, ap, ◌∙◌, subst, inl, inr, false, String, str_eq, str_lt, List, [], ◌∷◌, map, All, arith,
  dedupe, contains, IsDistinct, contains-dedupe_onto, dedupe_onto-IsDistinct, contains-nil, sort,
  sort-perm, IsSorted, sort-IsSorted, str_lt-IsWeakOrder,
}
use cost_risk_aware_gitops_p.Results.{ok}
use cost_risk_aware_gitops_p.Render.Directories.{Tools}
use cost_risk_aware_gitops_p.Render.Roots.{parent_of, root_of, roots}
use cost_risk_aware_gitops_p.Render.Roots.Paths.{IsName, path_of, parent_of-path_of}
use cost_risk_aware_gitops_p.Render.Roots.Climbing.{AreBare, IsNearest, root_of-Climbed, lineage}

-- A changed file below the manifests' directory: its name, and those of the folders that lead to it,
-- the innermost first.
pub record Changed : Type 0 where
  pub name : String
  pub folders : List String

abbrev pub AreNames : Changed → Type 0
AreNames c = IsName c.name × All IsName c.folders

abbrev pub changed_path : (top : String) → Changed → String
changed_path top c = path_of top (c.name ∷ c.folders)

module _ {F Built : Type 0} (t : Tools F Built) (top : String) where
  -- The folder that a change is evaluated in.
  pub data IsRootOf (c : Changed) : (root : String) → Type 0 where
    nearest : {root : String} → IsNearest t top c.folders root → IsRootOf c root
    plain : AreBare t top (lineage top c.folders) → IsRootOf c (path_of top c.folders)

  IsRootOf-root_of :
      (c : Changed)
      → str_eq top "" ≡ false
      → All IsName c.folders
      → IsRootOf c (root_of t top (path_of top c.folders))
  IsRootOf-root_of c given names = elim (root_of-Climbed t top given c.folders names) [
    | inl n ↦ nearest n
    | inr (e, bare) ↦ subst (IsRootOf c) (sym e) (plain bare)
  ]

  -- The folders of the changes, in their order.
  abbrev pub AreEach : List Changed → List String → Type 0
  AreEach [] [] = Unit
  AreEach [] (r ∷ rs) = ⊥
  AreEach (c ∷ cs) [] = ⊥
  AreEach (c ∷ cs) (r ∷ rs) = IsRootOf c r × AreEach cs rs

  -- One root for each of these folders, in the order of their paths.
  pub record AreRootsOf (cs : List Changed) (rs : List String) : Type 0 where
    pub chosen : List String
    pub each : AreEach cs chosen
    pub kept : List String
    pub distinct : IsDistinct kept
    pub covers : (r : String) → contains r kept ≡ contains r chosen
    pub same : Perm rs kept
    pub sorted : IsSorted str_lt rs

  choose-AreEach :
      (cs : List Changed)
      → str_eq top "" ≡ false
      → All AreNames cs
      → AreEach cs (map (λ c. root_of t top (parent_of (changed_path top c))) cs)
  choose-AreEach [] given names = tt
  choose-AreEach (c ∷ cs) given ((name, folders), names) = (
    subst (λ d. IsRootOf c (root_of t top d))
        (sym (parent_of-path_of top c.name c.folders given name))
        (IsRootOf-root_of c given folders),
    choose-AreEach cs given names,
  )

  AreRootsOf-sort :
      (cs : List Changed) (chosen : List String)
      → AreEach cs chosen
      → AreRootsOf cs (sort str_lt (dedupe chosen))
  unfolding dedupe
  AreRootsOf-sort cs chosen each = record {
    chosen = chosen;
    each = each;
    kept = dedupe chosen;
    distinct = dedupe_onto-IsDistinct [] chosen;
    covers = λ r. ground (arith, contains-dedupe_onto r [] chosen, contains-nil r);
    same = sort-perm str_lt (dedupe chosen);
    sorted = sort-IsSorted str_lt str_lt-IsWeakOrder (dedupe chosen);
  }

-- Where the manifests' directory has a path, and the changed files lie below it, `Roots` returns, once
-- each and sorted, the folders of the changes: of each file the nearest folder above it, up to the
-- manifests' directory, that has a kustomization, and where none has, the file's own.
pub roots-AreRootsOf :
    {F Built : Type 0} (t : Tools F Built) (clean : String → String) (tree_dir : String)
    (files : List String) (manifests top : String) (cs : List Changed)
    → clean (t.join tree_dir manifests) ≡ top
    → str_eq top "" ≡ false
    → All AreNames cs
    → map (t.join tree_dir) files ≡ map (changed_path top) cs
    → (rs : List String) × (roots t clean tree_dir files manifests ≡ ok rs) × AreRootsOf t top cs rs
unfolding roots
roots-AreRootsOf t clean tree_dir files manifests top cs top_path given names joined =
    let choose : String → String = λ path. root_of t top (parent_of path) in
    let paths =
      sym (map-map choose (t.join tree_dir) files)
      ∙ ap (map choose) joined
      ∙ map-map choose (changed_path top) cs in
    (
      sort str_lt (dedupe (map (λ c. choose (changed_path top c)) cs)),
      subst
          (λ m.
            ok (sort str_lt (dedupe (map (λ f. root_of t m (parent_of (t.join tree_dir f))) files)))
            ≡ ok (sort str_lt (dedupe (map (λ c. choose (changed_path top c)) cs))))
          (sym top_path) (ap (λ l. ok (sort str_lt (dedupe l))) paths),
      AreRootsOf-sort t top cs _ (choose-AreEach t top cs given names),
    )
