-- ===== src/Render/Roots/Climbing.antt =====
-- render.go: the walk upward from a folder below the manifests' directory.
use Prim.Native.String
use Prim.Native.String.append
use cost_risk_aware_gitops_p.Prelude.{
  ◌≡◌, refl, sym, ap, subst, inl, inr, ℕ, zero, suc, ◌<◌, ◌≤◌, true, false, Bool-cases, String,
  str_eq, eq_iff, ◌⊎◌, List, [], ◌∷◌, ◌++◌, length, All, arith,
}
use cost_risk_aware_gitops_p.Render.Directories.{Tools, has_kustomization}
use cost_risk_aware_gitops_p.Render.Roots.{climb, root_of}
use cost_risk_aware_gitops_p.Render.Roots.Paths.{
  IsName, path_of, below_is_longer, not_top, path_of-starts_with, path_of-given, parent_of-path_of,
}

-- The folder itself and those above it, up to the manifests' directory.
unfoldable pub lineage : (top : String) → List String → List String
unfolding path_of
lineage top [] = top ∷ []
lineage top (s ∷ ss) = path_of top (s ∷ ss) ∷ lineage top ss

module _ {F Built : Type 0} (t : Tools F Built) (top : String) where
  -- No folder of these has a kustomization.
  abbrev pub AreBare : List String → Type 0
  AreBare ds = All (λ d. has_kustomization t d ≡ false) ds

  -- The innermost folder of the lineage that has a kustomization.
  pub record IsNearest (ss : List String) (root : String) : Type 0 where
    pub before : List String
    pub after : List String
    pub split : lineage top ss ≡ before ++ root ∷ after
    pub bare : AreBare before
    pub has : has_kustomization t root ≡ true
    pub given : str_eq root "" ≡ false

  -- What a walk upward finds.
  abbrev Climbed : List String → String → Type 0
  Climbed ss root = IsNearest ss root ⊎ ((root ≡ "") × AreBare (lineage top ss))

  climb-here :
      (ss : List String) (rest : List String)
      → lineage top ss ≡ path_of top ss ∷ rest
      → str_eq (path_of top ss) "" ≡ false
      → has_kustomization t (path_of top ss) ≡ true
      → IsNearest ss (path_of top ss)
  climb-here ss rest e given has = record {
    before = [];
    after = rest;
    split = e;
    bare = tt;
    has = has;
    given = given;
  }

  Climbed-above :
      (s : String) (ss : List String) (root : String)
      → has_kustomization t (path_of top (s ∷ ss)) ≡ false
      → Climbed ss root
      → Climbed (s ∷ ss) root
  unfolding lineage
  Climbed-above s ss root bare (inl n) = inl (record {
    before = path_of top (s ∷ ss) ∷ n.before;
    after = n.after;
    split = ap (λ l. path_of top (s ∷ ss) ∷ l) n.split;
    bare = (bare, n.bare);
    has = n.has;
    given = n.given;
  })
  Climbed-above s ss root bare (inr (e, all_bare)) = inr (e, (bare, all_bare))

  module _ (given : str_eq top "" ≡ false) where
    climb-found :
        (fuel : ℕ) (ss : List String)
        → has_kustomization t (path_of top ss) ≡ true
        → climb t top (suc fuel) (path_of top ss) ≡ path_of top ss
    unfolding climb
    climb-found fuel ss has = rw (path_of-starts_with top ss, has) refl

    climb-top : (fuel : ℕ) → has_kustomization t top ≡ false → climb t top (suc fuel) top ≡ ""
    unfolding climb path_of
    climb-top fuel bare =
        let same = (eq_iff top top).1 refl in rw (path_of-starts_with top [], bare, same) refl

    climb-above :
        (fuel : ℕ) (s : String) (ss : List String)
        → IsName s
        → has_kustomization t (path_of top (s ∷ ss)) ≡ false
        → climb t top (suc fuel) (path_of top (s ∷ ss)) ≡ climb t top fuel (path_of top ss)
    unfolding climb
    climb-above fuel s ss name bare =
        rw
          (
            path_of-starts_with top (s ∷ ss),
            bare,
            not_top top s ss,
            parent_of-path_of top s ss given name,
          )
          refl

    climb-Climbed :
        (fuel : ℕ) (ss : List String)
        → All IsName ss
        → length ss < fuel
        → Climbed ss (climb t top fuel (path_of top ss))
    unfolding lineage path_of
    climb-Climbed zero ss names h = ground arith
    climb-Climbed (suc fuel) [] names h = elim (Bool-cases (has_kustomization t top)) [
      | inl e ↦
          subst (Climbed []) (sym (climb-found fuel [] e)) (inl (climb-here [] [] refl given e))
      | inr e ↦ subst (Climbed []) (sym (climb-top fuel e)) (inr (refl, (e, tt)))
    ]
    climb-Climbed (suc fuel) (s ∷ ss) (name, names) h =
        let cur = path_of top (s ∷ ss) in
        elim (Bool-cases (has_kustomization t cur)) [
          | inl e ↦
              subst (Climbed (s ∷ ss)) (sym (climb-found fuel (s ∷ ss) e)) (
                inl
                  (climb-here (s ∷ ss) (lineage top ss) refl (path_of-given top (s ∷ ss) given) e))
          | inr e ↦
              subst (Climbed (s ∷ ss)) (sym (climb-above fuel s ss name e))
                (Climbed-above s ss _ e (climb-Climbed fuel ss names (ground arith)))
        ]

    folders_le_count : (ss : List String) → length ss ≤ String.count (path_of top ss)
    unfolding path_of
    folders_le_count [] = omega arith
    folders_le_count (s ∷ ss) = omega (arith, folders_le_count ss, below_is_longer top s ss)

    -- What a folder is rendered as: the nearest folder with a kustomization, or else itself.
    pub root_of-Climbed :
        (ss : List String)
        → All IsName ss
        → IsNearest ss (root_of t top (path_of top ss))
          ⊎ ((root_of t top (path_of top ss) ≡ path_of top ss) × AreBare (lineage top ss))
    unfolding root_of
    root_of-Climbed ss names =
        let cur = path_of top ss in
        let root = climb t top (suc (String.count cur)) cur in
        elim (climb-Climbed (suc (String.count cur)) ss names
          (omega (arith, folders_le_count ss))) [
            | inl n ↦ inl (rw (n.given) n)
            | inr (e, bare) ↦ inr ((rw e refl), bare)
          ]
