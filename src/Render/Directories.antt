-- ===== src/Render/Directories.antt =====
-- render.go: `Dir` and the two ways to render a directory.
pub mod Plain
use Prim.Native.String
use cost_risk_aware_gitops_p.Prelude.{
  Bool, true, false, not, ◌&&◌, ◌||◌, String, Option, List, [], ◌∷◌, ◌++◌, any, concat,
}
use cost_risk_aware_gitops_p.Results.{Error, Result, ok, err, errorf, wrap, ◌>>=◌}
use cost_risk_aware_gitops_p.Cost.Autoscaling.{Object}
use cost_risk_aware_gitops_p.Render.Documents.{Text, decode_documents}

-- `os.DirEntry`
pub record Entry : Type 0 where
  pub name : String
  pub entry_is_dir : Bool

-- The file system, `filepath.Join`, `strings.HasSuffix`, kustomize and `yaml.Unmarshal`. `stat`
-- says whether the file is a directory.
pub record Tools (F Built : Type 0) : Type 0 where
  pub stat : String → Result Bool
  pub read_dir : String → Result (List Entry)
  pub read_file : String → Result Text
  pub join : String → String → String
  pub has_suffix : String → String → Bool
  pub run_kustomize : String → Result Built
  pub as_yaml : Built → Result Text
  pub unmarshal : Text → Result (Option (Object F))

abbrev pub kustomization_names : List String
kustomization_names = "kustomization.yaml" ∷ "kustomization.yml" ∷ "Kustomization" ∷ []

-- `err == nil`
abbrev pub is_ok {ℓ} : {A : Type ℓ} → Result A → Bool
is_ok (ok a) = true
is_ok (err e) = false

module _ {F Built : Type 0} (t : Tools F Built) where
  unfoldable pub has_kustomization : (dir : String) → Bool
  has_kustomization dir = any (λ name. is_ok (t.stat (t.join dir name))) kustomization_names

  -- An entry that is rendered: a file with the suffix of a manifest.
  abbrev pub is_manifest : Entry → Bool
  is_manifest e = not e.entry_is_dir && (t.has_suffix e.name ".yaml" || t.has_suffix e.name ".yml")

  abbrev pub any_manifest : Result (List Entry) → Bool
  any_manifest (err e) = false
  any_manifest (ok entries) = any is_manifest entries

  unfoldable pub contains_yaml : (dir : String) → Bool
  contains_yaml dir = any_manifest (t.read_dir dir)

  unfoldable pub render_file : (path : String) → Result (List (Object F))
  unfolding decode_documents
  render_file path = wrap (concat ("read " ∷ path ∷ [])) (t.read_file path) >>= λ raw.
      decode_documents t.unmarshal path raw

  -- The loop of `renderPlainYAML`.
  unfoldable pub render_entries :
      (dir : String) (entries : List Entry) (objects : List (Object F)) → Result (List (Object F))
  unfolding render_file
  render_entries dir [] objects = ok objects
  render_entries dir (e ∷ entries) objects = elim (is_manifest e) [
    | false ↦ render_entries dir entries objects
    | true ↦
        render_file (t.join dir e.name) >>= λ objs. render_entries dir entries (objects ++ objs)
  ]

  unfoldable pub render_plain_yaml : (dir : String) → Result (List (Object F))
  unfolding render_entries
  render_plain_yaml dir = wrap (concat ("read " ∷ dir ∷ [])) (t.read_dir dir) >>= λ entries.
      render_entries dir entries []

  unfoldable pub render_kustomize : (dir : String) → Result (List (Object F))
  unfolding decode_documents
  render_kustomize dir =
      wrap (concat ("kustomize build " ∷ dir ∷ [])) (t.run_kustomize dir) >>= λ built.
      wrap (concat ("serialise kustomize output for " ∷ dir ∷ [])) (t.as_yaml built) >>= λ out.
      decode_documents t.unmarshal dir out

  unfoldable pub render_existing : (dir : String) → Result (List (Object F))
  unfolding has_kustomization render_kustomize render_plain_yaml
  render_existing dir = elim (has_kustomization dir) [
    | true ↦ render_kustomize dir
    | false ↦ render_plain_yaml dir
  ]

  -- Of what `os.Stat` returned. A directory that does not exist has no objects.
  unfoldable pub dir_of : (dir : String) → Result Bool → Result (List (Object F))
  unfolding render_existing
  dir_of dir (err e) = elim e.not_exist [
    | true ↦ ok []
    | false ↦ wrap (concat ("stat " ∷ dir ∷ [])) (err e)
  ]
  dir_of dir (ok true) = render_existing dir
  dir_of dir (ok false) = err (errorf (concat (dir ∷ " is not a directory" ∷ [])))

  unfoldable pub dir : (dir : String) → Result (List (Object F))
  unfolding dir_of
  dir path = dir_of path (t.stat path)
