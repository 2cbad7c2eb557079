-- ===== src/Gate/Roots/Skipping.antt =====
-- `priceEstate`, one root at a time.
use cost_risk_aware_gitops_p.Prelude.{◌≡◌, refl, String, List, [], ◌∷◌}
use cost_risk_aware_gitops_p.Float64.{Float64, zero_f}
use cost_risk_aware_gitops_p.Results.{ok}
use cost_risk_aware_gitops_p.Cost.Types.{Estimate}
use cost_risk_aware_gitops_p.Cost.Quantity.{Quantities}
use cost_risk_aware_gitops_p.Cost.Autoscaling.{Object}
use cost_risk_aware_gitops_p.Cost.Kinds.{Calculator}
use cost_risk_aware_gitops_p.Cost.Estimating.{estimate}
use cost_risk_aware_gitops_p.Gate.Roots.{Renderer, add_roots, add_root, add_estimate, price_estate}

module _ {F : Type 0} ⦃fl : Float64 F⦄ ⦃qs : Quantities⦄ (calc : Calculator F)
    (renderer : Renderer F) where
  open fl use {add}

  pub add_roots-nil : (total : F) → add_roots calc renderer total [] ≡ total
  unfolding add_roots
  add_roots-nil total = refl

  pub add_roots-cons :
      (total : F) (root : String) (roots : List String) (objects : List (Object F))
      (est : Estimate F)
      → renderer.dir root ≡ ok objects
      → estimate calc objects ≡ ok est
      → add_roots calc renderer total (root ∷ roots)
        ≡ add_roots calc renderer (add total est.monthly_usd) roots
  unfolding add_roots add_root add_estimate
  add_roots-cons total root roots objects est rendered priced = rw (rendered, priced) refl

  pub price_estate_lem :
      (tree manifests : String) (roots : List String)
      → renderer.all_roots tree manifests ≡ ok roots
      → price_estate calc renderer tree manifests ≡ ok (add_roots calc renderer zero_f roots)
  unfolding price_estate
  price_estate_lem tree manifests roots found = rw found refl
