-- ===== src/Gate/Roots.antt =====
-- main.go: the loop of `run` over the manifest roots, and `priceEstate`.
pub mod Complete
pub mod Skipping
use cost_risk_aware_gitops_p.Prelude.{String, List, [], ◌∷◌, ◌++◌, concat}
use cost_risk_aware_gitops_p.Float64.{Float64, zero_f}
use cost_risk_aware_gitops_p.Results.{Error, Result, ok, err, ◌>>=◌}
use cost_risk_aware_gitops_p.Cost.Types.{Estimate}
use cost_risk_aware_gitops_p.Cost.Quantity.{Quantities}
use cost_risk_aware_gitops_p.Cost.Autoscaling.{Object}
use cost_risk_aware_gitops_p.Cost.Kinds.{Calculator}
use cost_risk_aware_gitops_p.Cost.Estimating.{no_estimate, merge_estimates, estimate}

-- What the gate asks of the package that renders a tree: `Dir`, `Roots` and `AllRoots`.
pub record Renderer (F : Type 0) : Type 0 where
  pub dir : (root : String) → Result (List (Object F))
  pub roots : (tree : String) (changed : List String) (manifests : String) → Result (List String)
  pub all_roots : (tree manifests : String) → Result (List String)

-- `filepath.Join` of two parts and `filepath.Rel`.
pub record Paths : Type 0 where
  pub join : String → String → String
  pub rel : (base target : String) → Result String

-- The variables of the loop.
pub record Tally (F : Type 0) : Type 0 where
  pub head_objects : List (Object F)
  pub base_estimate : Estimate F
  pub head_estimate : Estimate F
  pub cost_errors : List String

module _ {F : Type 0} where
  -- The message of a step that failed, after which the loop goes on with the next root.
  abbrev pub note_error : (doing rel side : String) → Error → Tally F → Tally F
  note_error doing rel side e t = record t {
    cost_errors =
        t.cost_errors ++ concat (doing ∷ " " ∷ rel ∷ " at " ∷ side ∷ ": " ∷ e.message ∷ []) ∷ [];
  }

module _ {F : Type 0} ⦃fl : Float64 F⦄ where
  open fl use {add}

  abbrev pub no_tally : Tally F
  no_tally = record {
    head_objects = [];
    base_estimate = no_estimate;
    head_estimate = no_estimate;
    cost_errors = [];
  }

  abbrev pub merge_base : String → Tally F → Result (Estimate F) → Tally F
  merge_base rel t (err e) = note_error "pricing" rel "base" e t
  merge_base rel t (ok be) = record t { base_estimate = merge_estimates t.base_estimate be }

  abbrev pub merge_head : Tally F → Estimate F → Tally F
  merge_head t he = record t { head_estimate = merge_estimates t.head_estimate he }

  abbrev pub keep_objects : Tally F → List (Object F) → Tally F
  keep_objects t objects = record t { head_objects = t.head_objects ++ objects }

  module _ ⦃qs : Quantities⦄ (base_calc head_calc : Calculator F) where
    unfoldable pub render_base : (rel : String) → Tally F → Result (List (Object F)) → Tally F
    render_base rel t (err e) = note_error "rendering" rel "base" e t
    render_base rel t (ok objects) = merge_base rel t (estimate base_calc objects)

    unfoldable pub price_head :
        (rel : String) (base : Result (List (Object F))) → Tally F → Result (Estimate F) → Tally F
    unfolding render_base
    price_head rel base t (err e) = note_error "pricing" rel "head" e t
    price_head rel base t (ok he) = render_base rel (merge_head t he) base

    -- One root, rendered at head and at base.
    unfoldable pub evaluate_root :
        (rel : String) (head base : Result (List (Object F))) → Tally F → Tally F
    unfolding price_head
    evaluate_root rel (err e) base t = note_error "rendering" rel "head" e t
    evaluate_root rel (ok objects) base t =
        price_head rel base (keep_objects t objects) (estimate head_calc objects)

    -- The loop over the roots.
    unfoldable pub evaluate_roots :
        Renderer F
        → Paths
        → (base_tree head_tree : String) → Tally F
        → List String
        → Result (Tally F)
    evaluate_roots renderer paths base_tree head_tree t [] = ok t
    evaluate_roots renderer paths base_tree head_tree t (root ∷ roots) = do
      rel ← paths.rel head_tree root
      evaluate_roots renderer paths base_tree head_tree
          (evaluate_root rel (renderer.dir root) (renderer.dir (paths.join base_tree rel)) t) roots

  module _ ⦃qs : Quantities⦄ (calc : Calculator F) where
    unfoldable pub add_estimate : F → Result (Estimate F) → F
    add_estimate total (err e) = total
    add_estimate total (ok est) = add total est.monthly_usd

    unfoldable pub add_root : F → Result (List (Object F)) → F
    unfolding add_estimate
    add_root total (err e) = total
    add_root total (ok objects) = add_estimate total (estimate calc objects)

    unfoldable pub add_roots : Renderer F → F → List String → F
    unfolding add_root
    add_roots renderer total [] = total
    add_roots renderer total (root ∷ roots) =
        add_roots renderer (add_root total (renderer.dir root)) roots

    -- `priceEstate`: a root that cannot be rendered or priced is skipped.
    unfoldable pub price_estate : Renderer F → (tree manifests : String) → Result F
    unfolding add_roots
    price_estate renderer tree manifests = do
      roots ← renderer.all_roots tree manifests
      ok (add_roots renderer zero_f roots)
