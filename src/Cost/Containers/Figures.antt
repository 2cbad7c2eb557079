-- ===== src/Cost/Containers/Figures.antt =====
-- What a container requests depends on the figures of the rate table alone.
use cost_risk_aware_gitops_p.Prelude.{◌≡◌, refl, Option, none, some}
use cost_risk_aware_gitops_p.Float64.{Float64}
use cost_risk_aware_gitops_p.Json.{Value, Fields, as_map?}
use cost_risk_aware_gitops_p.Pricing.{Table}
use cost_risk_aware_gitops_p.Pricing.Figures.{Title, retitled}
use cost_risk_aware_gitops_p.Cost.Quantity.{Quantities}
use cost_risk_aware_gitops_p.Cost.Containers.{
  container_requests, container_from, container_resources,
}

module _ {F : Type 0} ⦃fl : Float64 F⦄ ⦃qs : Quantities⦄ (t : Table F) (title : Title F) where
  container_from-retitled :
      (c : Option (Fields F)) → container_from (retitled t title) c ≡ container_from t c
  unfolding container_from container_requests
  container_from-retitled none = refl
  container_from-retitled (some c) = refl

  pub container_resources-retitled :
      (c : Value F) → container_resources (retitled t title) c ≡ container_resources t c
  unfolding container_resources
  container_resources-retitled c = container_from-retitled (as_map? c)
