-- ===== src/Render/AllRoots/Complete.antt =====
-- render.go: the directories that `AllRoots` returns.
use cost_risk_aware_gitops_p.Prelude.{
  ◌≡◌, refl, inl, inr, sym, ◌∙◌, ap, Bool, true, false, Bool-cases, if◌then◌else◌, not, ◌&&◌, ◌||◌,
  String, str_lt, Option, List, [], ◌∷◌, ◌++◌, any, keep, concat, sort,
}
use cost_risk_aware_gitops_p.Results.{
  Error, Result, ok, wrap, bind_ok, then_ok, wrap_ok, ok_inj, ◌>>=◌, ◌>>◌,
}
use cost_risk_aware_gitops_p.Render.Directories.{Tools, has_kustomization, contains_yaml}
use cost_risk_aware_gitops_p.Render.AllRoots.{
  Entries, nothing, file, folder, check_failure, own_root, walk, walk_root, all_roots,
}

-- A folder, below the folders that are above it.
pub record Place : Type 0 where
  pub above : List String
  pub path : String

-- Every folder of a tree, whatever it holds.
unfoldable pub places : (above : List String) → Entries → List Place
places above nothing = []
places above (file path rest) = places above rest
places above (folder path below failure rest) =
    record { above = above; path = path } ∷ places (path ∷ above) below ++ places above rest

module _ {ℓ} {A : Type ℓ} (p : A → Bool) where
  keep-cons :
      (x : A) (xs : List A) (b : Bool)
      → p x ≡ b
      → keep p (x ∷ xs) ≡ (if b then x ∷ keep p xs else keep p xs)
  keep-cons x xs true h = ap (λ b. elim b [ true ↦ x ∷ keep p xs | false ↦ keep p xs ]) h
  keep-cons x xs false h = ap (λ b. elim b [ true ↦ x ∷ keep p xs | false ↦ keep p xs ]) h

  keep-append : (xs ys : List A) → keep p (xs ++ ys) ≡ keep p xs ++ keep p ys
  keep-append [] ys = refl
  keep-append (x ∷ xs) ys = elim (Bool-cases (p x)) [
    | inl h ↦
        keep-cons x (xs ++ ys) true h
        ∙ ap (λ r. x ∷ r) (keep-append xs ys)
        ∙ ap (λ r. r ++ keep p ys) (sym (keep-cons x xs true h))
    | inr h ↦
        keep-cons x (xs ++ ys) false h
        ∙ keep-append xs ys
        ∙ ap (λ r. r ++ keep p ys) (sym (keep-cons x xs false h))
  ]

-- Each folder could be read, or what is missing of it does not exist.
abbrev pub AreReadable : Entries → Type 0
AreReadable nothing = Unit
AreReadable (file path rest) = AreReadable rest
AreReadable (folder path below failure rest) =
    (check_failure failure ≡ ok tt) × AreReadable below × AreReadable rest

module _ {F Built : Type 0} (t : Tools F Built) where
  -- A folder that has a kustomization or a manifest, and is below no kustomization.
  abbrev pub is_wanted : Place → Bool
  is_wanted p =
      not (any (has_kustomization t) p.above)
      && (has_kustomization t p.path || contains_yaml t p.path)

  abbrev pub wanted : (above : List String) → Entries → List Place
  wanted above entries = keep is_wanted (places above entries)

  abbrev pub paths_of : List Place → List String
  paths_of [] = []
  paths_of (p ∷ ps) = p.path ∷ paths_of ps

  paths_of-append : (xs ys : List Place) → paths_of (xs ++ ys) ≡ paths_of xs ++ paths_of ys
  paths_of-append [] ys = refl
  paths_of-append (x ∷ xs) ys = ap (λ r. x.path ∷ r) (paths_of-append xs ys)

  abbrev pub wanted_paths : (above : List String) → Entries → List String
  wanted_paths above entries = paths_of (wanted above entries)

  wanted_paths-folder :
      (above : List String) (path : String) (below rest : Entries) (failure : Option Error)
      → wanted_paths above (folder path below failure rest)
        ≡ paths_of (keep is_wanted (record { above = above; path = path } ∷ []))
          ++ (wanted_paths (path ∷ above) below ++ wanted_paths above rest)
  unfolding places
  wanted_paths-folder above path below rest failure =
      let one : List Place = record { above = above; path = path } ∷ [] in
      let inner = places (path ∷ above) below in
      let others = places above rest in
      ap paths_of (keep-append is_wanted one (inner ++ others))
      ∙ paths_of-append (keep is_wanted one) (keep is_wanted (inner ++ others))
      ∙ ap (λ r. paths_of (keep is_wanted one) ++ r)
          (ap paths_of (keep-append is_wanted inner others)
            ∙ paths_of-append (keep is_wanted inner) (keep is_wanted others))

  or_true : (b c : Bool) → c ≡ true → b || c ≡ true
  or_true true c h = refl
  or_true false c h = h

  not_wanted :
      (above : List String) (path : String)
      → any (has_kustomization t) above ≡ true
      → paths_of (keep is_wanted (record { above = above; path = path } ∷ [])) ≡ []
  not_wanted above path h = ap paths_of (
      keep-cons is_wanted (record { above = above; path = path }) [] false
        (ap (λ b. not b && (has_kustomization t path || contains_yaml t path)) h))

  wanted_paths-below :
      (above : List String) (entries : Entries)
      → any (has_kustomization t) above ≡ true
      → wanted_paths above entries ≡ []
  unfolding places
  wanted_paths-below above nothing h = refl
  wanted_paths-below above (file path rest) h = wanted_paths-below above rest h
  wanted_paths-below above (folder path below failure rest) h =
      wanted_paths-folder above path below rest failure
      ∙ ap (λ r. r ++ (wanted_paths (path ∷ above) below ++ wanted_paths above rest))
          (not_wanted above path h)
      ∙ ap (λ r. r ++ wanted_paths above rest)
          (wanted_paths-below (path ∷ above) below (or_true (has_kustomization t path) _ h))
      ∙ wanted_paths-below above rest h

  -- The root that the walk finds in the folder itself.
  own_root-kustomized :
      (above : List String) (path : String)
      → any (has_kustomization t) above ≡ false
      → has_kustomization t path ≡ true
      → paths_of (keep is_wanted (record { above = above; path = path } ∷ [])) ≡ path ∷ []
  own_root-kustomized above path n k = ap paths_of (
      keep-cons is_wanted (record { above = above; path = path }) [] true
        (ap (λ b. not b && (has_kustomization t path || contains_yaml t path)) n
          ∙ ap (λ b. b || contains_yaml t path) k))

  own_root-plain :
      (above : List String) (path : String) (c : Bool)
      → any (has_kustomization t) above ≡ false
      → has_kustomization t path ≡ false
      → contains_yaml t path ≡ c
      → own_root t path ≡ paths_of (keep is_wanted (record { above = above; path = path } ∷ []))
  unfolding own_root
  own_root-plain above path true n k y =
      ap (λ b. elim b [ true ↦ path ∷ [] | false ↦ [] ]) y
      ∙ sym (
          ap paths_of (
            keep-cons is_wanted (record { above = above; path = path }) [] true
              (ap (λ b. not b && (has_kustomization t path || contains_yaml t path)) n
                ∙ ap (λ b. b || contains_yaml t path) k
                ∙ y)))
  own_root-plain above path false n k y =
      ap (λ b. elim b [ true ↦ path ∷ [] | false ↦ [] ]) y
      ∙ sym (
          ap paths_of (
            keep-cons is_wanted (record { above = above; path = path }) [] false
              (ap (λ b. not b && (has_kustomization t path || contains_yaml t path)) n
                ∙ ap (λ b. b || contains_yaml t path) k
                ∙ y)))

  or_false : (b c : Bool) → b ≡ false → c ≡ false → b || c ≡ false
  or_false b c h k = ap (λ x. x || c) h ∙ k

  walk-folder :
      (path : String) (below rest : Entries) (failure : Option Error) (k : Bool)
      → has_kustomization t path ≡ k
      → walk t (folder path below failure rest) ≡ (elim k [
        | true ↦ walk t rest >>= λ roots. ok (path ∷ roots)
        | false ↦
            check_failure failure
            >> (walk t below >>= λ inner.
                walk t rest >>= λ roots. ok (own_root t path ++ (inner ++ roots)))
      ])
  unfolding walk
  walk-folder path below rest failure k e =
      ap
        (λ k. elim k [
          | true ↦ walk t rest >>= λ roots. ok (path ∷ roots)
          | false ↦
              check_failure failure
              >> (walk t below >>= λ inner.
                  walk t rest >>= λ roots. ok (own_root t path ++ (inner ++ roots)))
        ])
        e

  -- The walk, below folders that have no kustomization.
  walk_lem :
      (above : List String) (entries : Entries) (roots : List String)
      → any (has_kustomization t) above ≡ false
      → walk t entries ≡ ok roots
      → roots ≡ wanted_paths above entries
  unfolding walk places
  walk_lem above nothing roots n h = ok_inj roots [] (sym h)
  walk_lem above (file path rest) roots n h = walk_lem above rest roots n h
  walk_lem above (folder path below failure rest) roots n h =
      elim (Bool-cases (has_kustomization t path)) [
        | inl k ↦
            let add : List String → Result (List String) = λ r. ok (path ∷ r) in
            let (r, w, e) =
              bind_ok (walk t rest) add roots
                (sym (walk-folder path below rest failure true k) ∙ h) in
            ok_inj roots (path ∷ r) (sym e)
            ∙ ap (λ r. path ∷ r) (walk_lem above rest r n w)
            ∙ sym (
                wanted_paths-folder above path below rest failure
                ∙ ap (λ r. r ++ (wanted_paths (path ∷ above) below ++ wanted_paths above rest))
                    (own_root-kustomized above path n k)
                ∙ ap (λ r. path ∷ (r ++ wanted_paths above rest))
                    (wanted_paths-below (path ∷ above) below
                      (ap (λ b. b || any (has_kustomization t) above) k)))
        | inr k ↦
            let join : List String → List String → Result (List String) =
              λ inner r. ok (own_root t path ++ (inner ++ r)) in
            let both : List String → Result (List String) = λ inner. walk t rest >>= join inner in
            let (passed, m) =
              then_ok (check_failure failure) (walk t below >>= both) roots
                (sym (walk-folder path below rest failure false k) ∙ h) in
            let (inner, wi, m2) = bind_ok (walk t below) both roots m in
            let (r, wr, e) = bind_ok (walk t rest) (join inner) roots m2 in
            let own = paths_of (keep is_wanted (record { above = above; path = path } ∷ [])) in
            ok_inj roots (own_root t path ++ (inner ++ r)) (sym e)
            ∙ ap (λ o. o ++ (inner ++ r))
                (own_root-plain above path (contains_yaml t path) n k refl)
            ∙ ap (λ i. own ++ (i ++ r))
                (walk_lem (path ∷ above) below inner (or_false (has_kustomization t path) _ k n) wi)
            ∙ ap (λ r. own ++ (wanted_paths (path ∷ above) below ++ r)) (walk_lem above rest r n wr)
            ∙ sym (wanted_paths-folder above path below rest failure)
      ]

  -- Where `AllRoots` succeeds and the manifests' directory could be read, it returns, sorted, the
  -- paths of the folders that have a kustomization or a manifest and lie below no folder that has a
  -- kustomization: none is missed, and none is rendered within another.
  pub all_roots_lem :
      (read_tree : String → Result Entries) (clean : String → String) (tree_dir manifests : String)
      (entries : Entries) (roots : List String)
      → read_tree (clean (t.join tree_dir manifests)) ≡ ok entries
      → all_roots t read_tree clean tree_dir manifests ≡ ok roots
      → roots ≡ sort str_lt (wanted_paths [] entries)
  unfolding all_roots walk_root
  all_roots_lem read_tree clean tree_dir manifests entries roots found h =
      let top = clean (t.join tree_dir manifests) in
      let prefix = concat ("enumerate manifest roots under " ∷ top ∷ []) in
      let sorted : List String → Result (List String) = λ r. ok (sort str_lt r) in
      let (r, w, e) = bind_ok (wrap prefix (walk_root t (read_tree top))) sorted roots h in
      let walked = wrap_ok prefix (walk_root t (read_tree top)) r w in
      ok_inj roots (sort str_lt r) (sym e)
      ∙ ap (sort str_lt) (walk_lem [] entries r refl (ap (walk_root t) (sym found) ∙ walked))

  walk-readable :
      (entries : Entries)
      → AreReadable entries
      → (roots : List String) × (walk t entries ≡ ok roots)
  unfolding walk
  walk-readable nothing r = ([], refl)
  walk-readable (file path rest) r = walk-readable rest r
  walk-readable (folder path below failure rest) (f, b, r) =
      let (inner, wi) = walk-readable below b in
      let (others, wr) = walk-readable rest r in
      elim (Bool-cases (has_kustomization t path)) [
        | inl k ↦ (path ∷ others, walk-folder path below rest failure true k ∙ rw wr refl)
        | inr k ↦ (
          own_root t path ++ (inner ++ others),
          walk-folder path below rest failure false k ∙ rw (f, wi, wr) refl,
        )
      ]

  -- Where the manifests' directory could be read, and so could each folder in it, but for what does
  -- not exist, `AllRoots` succeeds and returns, sorted, the paths of the folders that have a
  -- kustomization or a manifest and lie below no folder that has a kustomization.
  pub all_roots-readable :
      (read_tree : String → Result Entries) (clean : String → String) (tree_dir manifests : String)
      (entries : Entries)
      → read_tree (clean (t.join tree_dir manifests)) ≡ ok entries
      → AreReadable entries
      → all_roots t read_tree clean tree_dir manifests ≡ ok (sort str_lt (wanted_paths [] entries))
  unfolding all_roots walk_root
  all_roots-readable read_tree clean tree_dir manifests entries found readable =
      let (roots, w) = walk-readable entries readable in
      rw (found, w) (ap (λ r. ok (sort str_lt r)) (walk_lem [] entries roots refl w))
