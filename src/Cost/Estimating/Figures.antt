-- ===== src/Cost/Estimating/Figures.antt =====
-- What a set of objects costs depends on the figures of the rate table alone.
use cost_risk_aware_gitops_p.Prelude.{◌≡◌, refl, List, [], ◌∷◌}
use cost_risk_aware_gitops_p.Float64.{Float64}
use cost_risk_aware_gitops_p.Results.{bind_same}
use cost_risk_aware_gitops_p.Pricing.Figures.{Title}
use cost_risk_aware_gitops_p.Cost.Types.{Estimate}
use cost_risk_aware_gitops_p.Cost.Quantity.{Quantities}
use cost_risk_aware_gitops_p.Cost.Autoscaling.{Object, collect_autoscalers}
use cost_risk_aware_gitops_p.Cost.Kinds.{Calculator}
use cost_risk_aware_gitops_p.Cost.Kinds.Figures.{with_title}
use cost_risk_aware_gitops_p.Cost.Price.{price}
use cost_risk_aware_gitops_p.Cost.Price.Figures.{price-with_title}
use cost_risk_aware_gitops_p.Cost.Estimating.{no_estimate, add_workload, price_objects, estimate}

module _ {F : Type 0} ⦃fl : Float64 F⦄ ⦃qs : Quantities⦄ where
  price_objects-with_title :
      (c : Calculator F) (title : Title F) (est : Estimate F) (objects : List (Object F))
      → price_objects (with_title c title) est objects ≡ price_objects c est objects
  unfolding price_objects
  price_objects-with_title c title est [] = refl
  price_objects-with_title c title est (object ∷ objects) = rw (price-with_title c title object) (
      bind_same (price c object)
        (λ priced. price_objects-with_title c title (add_workload est priced) objects))

  -- The estimate of a set of objects is the same under every title of the rate table.
  pub estimate-with_title :
      (c : Calculator F) (title : Title F) (objects : List (Object F))
      → estimate (with_title c title) objects ≡ estimate c objects
  unfolding estimate
  estimate-with_title c title objects =
      let c' = record c { autoscalers = collect_autoscalers objects } in
      rw (price_objects-with_title c' title no_estimate objects) refl
