-- ===== src/Render/Roots/Agreement.antt =====
-- render.go: where `Roots` and `AllRoots` agree.
use mathlib.Core.List.{Memᴰ, head-eq_of_cons-eq, tail-eq_of_cons-eq}
use cost_risk_aware_gitops_p.Prelude.{
  ◌≡◌, refl, ap, ◌∙◌, subst, inl, inr, ◌||◌, true, false, Bool-cases, String, str_eq, str_lt, List,
  [], ◌∷◌, ◌++◌, any, sort, insert_sorted, contains, contains_of_mem, keep_mem, is_empty,
  is_empty-append_cons, arith,
}
use cost_risk_aware_gitops_p.Results.{Result, ok}
use cost_risk_aware_gitops_p.Cost.Autoscaling.{Object}
use cost_risk_aware_gitops_p.Render.Directories.{Tools, has_kustomization, contains_yaml, dir}
use cost_risk_aware_gitops_p.Render.Directories.Plain.{dir-IsRoot}
use cost_risk_aware_gitops_p.Render.AllRoots.{Entries, all_roots}
use cost_risk_aware_gitops_p.Render.AllRoots.Complete.{
  Place, places, is_wanted, wanted_paths, paths_of, all_roots_lem,
}
use cost_risk_aware_gitops_p.Render.Roots.Paths.{path_of}
use cost_risk_aware_gitops_p.Render.Roots.Climbing.{AreBare, lineage}
use cost_risk_aware_gitops_p.Render.Roots.Nearest.{Changed, IsRootOf, nearest, plain}

-- The tree holds the folder and those above it, as they lie.
abbrev pub Holds : (top : String) (entries : Entries) → List String → Type 0
Holds top entries [] = Memᴰ (record { above = []; path = top }) (places [] entries)
Holds top entries (s ∷ ss) =
    Memᴰ (record { above = lineage top ss; path = path_of top (s ∷ ss) }) (places [] entries)
    × Holds top entries ss

contains-insert_sorted :
    (r x : String) (xs : List String)
    → contains r (insert_sorted str_lt x xs) ≡ (str_eq x r || contains r xs)
unfolding insert_sorted contains
contains-insert_sorted r x [] = ground arith
contains-insert_sorted r x (y ∷ ys) =
    let rest = contains-insert_sorted r x ys in
    elim (Bool-cases (str_lt y x)) [ inl e ↦ rw e (ground arith) | inr e ↦ rw e (ground arith) ]

contains-sort : (r : String) (xs : List String) → contains r (sort str_lt xs) ≡ contains r xs
unfolding sort contains
contains-sort r [] = refl
contains-sort r (x ∷ xs) =
    contains-insert_sorted r x (sort str_lt xs) ∙ (let rest = contains-sort r xs in ground arith)

module _ {F Built : Type 0} (t : Tools F Built) (top : String) (entries : Entries) where
  path_mem : {p : Place} {ps : List Place} → Memᴰ p ps → Memᴰ p.path (paths_of t ps)
  path_mem (Memᴰ.head e) = Memᴰ.head (ap (λ q. q.path) e)
  path_mem (Memᴰ.tail m) = Memᴰ.tail (path_mem m)

  any-bare : (ds : List String) → AreBare t top ds → any (has_kustomization t) ds ≡ false
  any-bare [] b = refl
  any-bare (d ∷ ds) (b, bs) = let rest = any-bare ds bs in ground arith

  held :
      {root : String} {above : List String} (path : String) (after : List String)
      → path ∷ above ≡ root ∷ after
      → Memᴰ (record { above = above; path = path }) (places [] entries)
      → Memᴰ (record { above = after; path = root }) (places [] entries)
  held path after e h =
      subst (λ p. Memᴰ (record { above = after; path = p }) (places [] entries))
        (head-eq_of_cons-eq e)
        (subst (λ a. Memᴰ (record { above = a; path = path }) (places [] entries))
          (tail-eq_of_cons-eq e) h)

  held_split :
      (ss : List String) (before : List String) (root : String) (after : List String)
      → lineage top ss ≡ before ++ root ∷ after
      → Holds top entries ss
      → Memᴰ (record { above = after; path = root }) (places [] entries)
  unfolding lineage
  held_split [] [] root after e h = held top after e h
  held_split [] (x ∷ before) root after e h =
      let none_left = ap is_empty (tail-eq_of_cons-eq e) in
      ground (arith, is_empty-append_cons before root after)
  held_split (s ∷ ss) [] root after e (h, hs) = held (path_of top (s ∷ ss)) after e h
  held_split (s ∷ ss) (x ∷ before) root after e (h, hs) =
      held_split ss before root after (tail-eq_of_cons-eq e) hs

  lineage_first :
      (ss : List String) → (above : List String) × (lineage top ss ≡ path_of top ss ∷ above)
  unfolding lineage path_of
  lineage_first [] = ([], refl)
  lineage_first (s ∷ ss) = (lineage top ss, refl)

  -- Above a folder with a kustomization, up to the manifests' directory, there is no other.
  abbrev pub IsUnnested : List String → Type 0
  IsUnnested ss =
      (before : List String) (d : String) (after : List String)
      → lineage top ss ≡ before ++ d ∷ after
      → has_kustomization t d ≡ true
      → AreBare t top after

  bare_from :
      (before : List String) (ds : List String) → AreBare t top (before ++ ds) → AreBare t top ds
  bare_from [] ds b = b
  bare_from (x ∷ before) ds (_, b) = bare_from before ds b

  -- Where there is no kustomization, none is nested.
  pub bare-IsUnnested : (ss : List String) → AreBare t top (lineage top ss) → IsUnnested ss
  bare-IsUnnested ss bare before d after split has =
      (bare_from before (d ∷ after) (subst (AreBare t top) split bare)).1

  wanted_mem :
      (above : List String) (root : String)
      → Memᴰ (record { above = above; path = root }) (places [] entries)
      → AreBare t top above
      → (has_kustomization t root || contains_yaml t root) ≡ true
      → Memᴰ root (wanted_paths t [] entries)
  wanted_mem above root m bare found =
      let none_above = any-bare above bare in path_mem (keep_mem (is_wanted t) m (ground arith))

  IsRootOf-wanted :
      (c : Changed) (root : String) (o : Object F) (objects : List (Object F))
      → IsRootOf t top c root
      → Holds top entries c.folders
      → IsUnnested c.folders
      → dir t root ≡ ok (o ∷ objects)
      → Memᴰ root (wanted_paths t [] entries)
  IsRootOf-wanted c root o objects (nearest n) held unnested h =
      wanted_mem n.after root (held_split c.folders n.before root n.after n.split held)
        (unnested n.before root n.after n.split n.has) (let has = n.has in ground arith)
  IsRootOf-wanted c root o objects (plain bare) held unnested h =
      let (above, e) = lineage_first c.folders in
      let own = path_of top c.folders in
      wanted_mem above own (held_split c.folders [] own above e held)
        (subst (AreBare t top) e bare).1
        (elim (dir-IsRoot t own o objects h) [ inl k ↦ ground arith | inr y ↦ ground arith ])

  -- What a change is evaluated in is also evaluated when everything is: where `AllRoots` succeeds on a
  -- tree that holds the folders of a changed file, and no kustomization stands above another on the
  -- way to it, the root that `Roots` maps the file to is one that `AllRoots` returns, once it renders
  -- to an object at all.
  pub all_roots-contains :
      (read_tree : String → Result Entries) (clean : String → String) (tree_dir manifests : String)
      (rs : List String) (c : Changed) (root : String) (o : Object F) (objects : List (Object F))
      → read_tree (clean (t.join tree_dir manifests)) ≡ ok entries
      → all_roots t read_tree clean tree_dir manifests ≡ ok rs
      → IsRootOf t top c root
      → Holds top entries c.folders
      → IsUnnested c.folders
      → dir t root ≡ ok (o ∷ objects)
      → contains root rs ≡ true
  all_roots-contains read_tree clean tree_dir manifests rs c root o objects found all_found is_root
        held unnested h =
      let wanted = IsRootOf-wanted c root o objects is_root held unnested h in
      ap (contains root)
        (all_roots_lem t read_tree clean tree_dir manifests entries rs found all_found)
      ∙ contains-sort root (wanted_paths t [] entries)
      ∙ contains_of_mem wanted
