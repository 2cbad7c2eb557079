-- ===== src/Examples/Renders.antt =====
-- A stream of two documents, over a decoder that knows one object.
use cost_risk_aware_gitops_p.Prelude.{
  dedupe, dedupe_onto, contains, ◌≡◌, ◌↔◌, refl, Bool, true, false, String, str_eq, concat, Option,
  none, some, str_lt, sort, insert_sorted, List, [], ◌∷◌, map,
}
use cost_risk_aware_gitops_p.Float64.Cents.{Cents}
use cost_risk_aware_gitops_p.Results.{Result, ok, err}
use cost_risk_aware_gitops_p.Json.{text, end, field, lookup}
use cost_risk_aware_gitops_p.Cost.Autoscaling.{Object}
use cost_risk_aware_gitops_p.Render.Documents.{
  Text, split_lines, join_lines, trim_right, is_document_separator, split_from,
  split_yaml_documents, trim_left, is_space, trim_space, check_object, decode_document, decode_from,
  decode_documents,
}
use cost_risk_aware_gitops_p.Render.Directories.{
  Tools, has_kustomization, contains_yaml, render_file, render_entries, render_plain_yaml,
  render_existing, dir_of, dir,
}
use cost_risk_aware_gitops_p.Render.AllRoots.{
  Entries, nothing, file, folder, own_root, walk, walk_root, all_roots,
}
use cost_risk_aware_gitops_p.Render.AllRoots.Complete.{places, wanted_paths, all_roots-readable}
use cost_risk_aware_gitops_p.Render.Roots.{before_last, parent_of, climb, root_of, roots}
use cost_risk_aware_gitops_p.Render.Roots.Paths.{path_of}
use cost_risk_aware_gitops_p.Render.Roots.Nearest.{
  Changed, AreRootsOf, IsRootOf, plain, roots-AreRootsOf,
}
use cost_risk_aware_gitops_p.Render.Roots.Climbing.{AreBare, lineage}
use cost_risk_aware_gitops_p.Render.Roots.Agreement.{Holds, bare-IsUnnested, all_roots-contains}
use mathlib.Core.List.Memᴰ
use cost_risk_aware_gitops_p.Render.Documents.Splitting.{
  Section, stream, split_yaml_documents-stream,
}
use cost_risk_aware_gitops_p.Render.Documents.Decoding.{AreOf, decode_documents_iff}

-- "a: 1", "---  " and "b".
abbrev first_lines : List Text
first_lines = (97 ∷ 58 ∷ 32 ∷ 49 ∷ []) ∷ []

abbrev more_sections : List Section
more_sections = record { separator = 45 ∷ 45 ∷ 45 ∷ 32 ∷ 32 ∷ []; lines = (98 ∷ []) ∷ [] } ∷ []

split_yaml_documents-stream_example :
    split_yaml_documents (join_lines (stream first_lines more_sections))
    ≡ join_lines first_lines ∷ map (λ s. join_lines s.lines) more_sections
unfolding is_document_separator trim_right
split_yaml_documents-stream_example =
    split_yaml_documents-stream first_lines more_sections
      (((refl, (refl, (refl, (refl, tt)))), refl), tt)
      (((refl, (refl, (refl, (refl, (refl, tt))))), refl, (((refl, tt), refl), tt)), tt)

abbrev job : Object Cents
job = field "kind" (text "Job") end

abbrev read_job : Text → Result (Option (Object Cents))
read_job t = ok (some job)

abbrev written : Text
written = 97 ∷ 10 ∷ 45 ∷ 45 ∷ 45 ∷ 10 ∷ 32 ∷ 10 ∷ 45 ∷ 45 ∷ 45 ∷ 10 ∷ 98 ∷ []

decode_documents_iff_example :
    (decode_documents read_job "shop.yaml" written ≡ ok (job ∷ job ∷ []))
    ↔ AreOf read_job "shop.yaml" (split_yaml_documents written) (job ∷ job ∷ [])
decode_documents_iff_example = decode_documents_iff read_job "shop.yaml" written (job ∷ job ∷ [])

-- A directory with one file, which holds the stream above.
abbrev not_found {ℓ} : {A : Type ℓ} → Result A
not_found = err (record { message = "no such file"; not_exist = true })

abbrev shop_stat : String → Result Bool
shop_stat path = elim (str_eq path "manifests/shop") [ true ↦ ok true | false ↦ not_found ]

abbrev shop_tools : Tools Cents String
shop_tools = record {
  stat = shop_stat;
  read_dir = λ path. ok (record { name = "shop.yaml"; entry_is_dir = false } ∷ []);
  read_file = λ path. ok written;
  join = λ a b. concat (a ∷ "/" ∷ b ∷ []);
  has_suffix = λ name suffix. str_eq name (concat ("shop" ∷ suffix ∷ []));
  run_kustomize = λ path. not_found;
  as_yaml = λ built. not_found;
  unmarshal = read_job;
}

shop_rendered : dir shop_tools "manifests/shop" ≡ ok (job ∷ job ∷ [])
unfolding dir dir_of render_existing has_kustomization render_plain_yaml render_entries render_file
    decode_documents decode_from decode_document check_object trim_space trim_left trim_right
    is_space split_yaml_documents split_from split_lines join_lines is_document_separator concat
    lookup
shop_rendered = refl

-- The directory of the manifests, in which every folder holds a file.
abbrev shop_tree : Entries
shop_tree =
    folder "manifests"
      (folder "manifests/shop" (file "manifests/shop/shop.yaml" nothing) none nothing) none nothing

abbrev read_shop_tree : String → Result Entries
read_shop_tree path = ok shop_tree

abbrev same_path : String → String
same_path path = path

all_roots-readable_example :
    all_roots shop_tools read_shop_tree same_path "tree" "manifests"
    ≡ ok (sort str_lt (wanted_paths shop_tools [] shop_tree))
all_roots-readable_example =
    all_roots-readable shop_tools read_shop_tree same_path "tree" "manifests" shop_tree refl
      (refl, (refl, tt, tt), tt)

shop_roots :
    all_roots shop_tools read_shop_tree same_path "tree" "manifests"
    ≡ ok ("manifests" ∷ "manifests/shop" ∷ [])
unfolding all_roots walk_root walk own_root has_kustomization contains_yaml sort insert_sorted
    concat
shop_roots = refl

-- Two files change: one below a kustomization, and one that has none above it.
abbrev tree_stat : String → Result Bool
tree_stat path = elim (str_eq path "tree/manifests/shop/kustomization.yaml") [
  | true ↦ ok false
  | false ↦ not_found
]

abbrev tree_tools : Tools Cents String
tree_tools = record shop_tools { stat = tree_stat }

abbrev changes : List Changed
changes =
    record { name = "web.yaml"; folders = "base" ∷ "shop" ∷ [] }
    ∷ record { name = "job.yaml"; folders = "jobs" ∷ [] }
    ∷ []

abbrev changed_files : List String
changed_files = "manifests/shop/base/web.yaml" ∷ "manifests/jobs/job.yaml" ∷ []

roots-AreRootsOf_example :
    (rs : List String) × (roots tree_tools same_path "tree" changed_files "manifests" ≡ ok rs)
    × AreRootsOf tree_tools "tree/manifests" changes rs
unfolding before_last path_of concat
roots-AreRootsOf_example =
    roots-AreRootsOf tree_tools same_path "tree" changed_files "manifests" "tree/manifests" changes
      refl refl ((refl, (refl, (refl, tt))), ((refl, (refl, tt)), tt)) refl

found_roots :
    roots tree_tools same_path "tree" changed_files "manifests"
    ≡ ok ("tree/manifests/jobs" ∷ "tree/manifests/shop" ∷ [])
unfolding roots root_of climb parent_of before_last has_kustomization dedupe dedupe_onto contains
    sort insert_sorted concat
found_roots = refl

-- A name that Git has quoted leads to a folder that does not exist, which renders to nothing.
quoted_root :
    roots tree_tools same_path "tree" ("\"manifests/shop/caf\\303\\251.yaml\"" ∷ []) "manifests"
    ≡ ok ("tree/\"manifests/shop" ∷ [])
unfolding roots root_of climb parent_of before_last has_kustomization dedupe dedupe_onto contains
    sort insert_sorted concat
quoted_root = refl

quoted_objects : dir tree_tools "tree/\"manifests/shop" ≡ ok []
unfolding dir dir_of render_existing
quoted_objects = refl

-- A file of plain YAML: its folder is among those that `AllRoots` finds.
abbrev shop_file : Changed
shop_file = record { name = "shop.yaml"; folders = "shop" ∷ [] }

shop_is_bare : AreBare shop_tools "manifests" (lineage "manifests" shop_file.folders)
unfolding lineage path_of has_kustomization concat
shop_is_bare = (refl, (refl, tt))

shop_root : IsRootOf shop_tools "manifests" shop_file "manifests/shop"
unfolding path_of
shop_root = plain shop_is_bare

shop_held : Holds "manifests" shop_tree shop_file.folders
unfolding places lineage path_of
shop_held = (Memᴰ.tail (Memᴰ.head refl), Memᴰ.head refl)

all_roots-contains_example : contains "manifests/shop" ("manifests" ∷ "manifests/shop" ∷ []) ≡ true
all_roots-contains_example =
    all_roots-contains shop_tools "manifests" shop_tree read_shop_tree same_path "tree" "manifests"
      ("manifests" ∷ "manifests/shop" ∷ []) shop_file "manifests/shop" job (job ∷ []) refl
      shop_roots shop_root shop_held
      (bare-IsUnnested shop_tools "manifests" shop_tree shop_file.folders shop_is_bare)
      shop_rendered
