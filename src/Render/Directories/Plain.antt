-- ===== src/Render/Directories/Plain.antt =====
-- render.go: which directories have objects, against what `AllRoots` looks for in a directory.
use cost_risk_aware_gitops_p.Prelude.{
  ◌≡◌, refl, ◌∙◌, ap, ◌⊎◌, inl, inr, Bool, true, false, Bool-cases, String, List, [], ◌∷◌, any,
  concat, arith,
}
use cost_risk_aware_gitops_p.Results.{Result, ok, err, wrap, bind_ok, wrap_ok}
use cost_risk_aware_gitops_p.Cost.Autoscaling.{Object}
use cost_risk_aware_gitops_p.Render.Directories.{
  Entry, Tools, is_manifest, any_manifest, has_kustomization, contains_yaml, render_entries,
  render_plain_yaml, render_existing, dir_of, dir,
}

module _ {F Built : Type 0} (t : Tools F Built) where
  render_entries-none :
      (path : String) (entries : List Entry) (objects : List (Object F))
      → any (is_manifest t) entries ≡ false
      → render_entries t path entries objects ≡ ok objects
  unfolding render_entries
  render_entries-none path [] objects h = refl
  render_entries-none path (e ∷ entries) objects h =
      let rest = render_entries-none path entries objects in ground arith

  -- An object of a directory of plain YAML stands in a manifest of it.
  render_plain_yaml-contains :
      (path : String) (o : Object F) (objects : List (Object F))
      → render_plain_yaml t path ≡ ok (o ∷ objects)
      → contains_yaml t path ≡ true
  unfolding render_plain_yaml contains_yaml
  render_plain_yaml-contains path o objects h =
      let prefix = concat ("read " ∷ path ∷ []) in
      let rest : List Entry → Result (List (Object F)) =
        λ entries. render_entries t path entries [] in
      let (entries, w, k) = bind_ok (wrap prefix (t.read_dir path)) rest (o ∷ objects) h in
      let r = wrap_ok prefix (t.read_dir path) entries w in
      ap (any_manifest t) r ∙ elim (Bool-cases (any (is_manifest t) entries)) [
        | inl b ↦ b
        | inr b ↦ let n = render_entries-none path entries [] b in ground arith
      ]

  render_existing-IsRoot :
      (path : String) (kustomized : Bool) (o : Object F) (objects : List (Object F))
      → has_kustomization t path ≡ kustomized
      → render_existing t path ≡ ok (o ∷ objects)
      → (has_kustomization t path ≡ true) ⊎ (contains_yaml t path ≡ true)
  unfolding render_existing
  render_existing-IsRoot path true o objects b h = inl b
  render_existing-IsRoot path false o objects b h =
      let plain = render_plain_yaml-contains path o objects in ground arith

  dir_of-existing :
      (path : String) (stat : Result Bool) (o : Object F) (objects : List (Object F))
      → dir_of t path stat ≡ ok (o ∷ objects)
      → render_existing t path ≡ ok (o ∷ objects)
  unfolding dir_of
  dir_of-existing path (err e) o objects h = ground arith
  dir_of-existing path (ok true) o objects h = h
  dir_of-existing path (ok false) o objects h = ground arith

  -- A directory for which `Dir` returns at least one object has a kustomization or, in the directory
  -- itself, a manifest: it passes one of the two tests by which `AllRoots` takes a directory.
  pub dir-IsRoot :
      (path : String) (o : Object F) (objects : List (Object F))
      → dir t path ≡ ok (o ∷ objects)
      → (has_kustomization t path ≡ true) ⊎ (contains_yaml t path ≡ true)
  unfolding dir
  dir-IsRoot path o objects h =
      render_existing-IsRoot path (has_kustomization t path) o objects refl
        (dir_of-existing path (t.stat path) o objects h)
