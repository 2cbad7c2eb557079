-- ===== src/Cost/Price/Figures.antt =====
-- What an object costs depends on the figures of the rate table alone.
use cost_risk_aware_gitops_p.Prelude.{◌≡◌, refl, ap, ◌∙◌, Option, none, some}
use cost_risk_aware_gitops_p.Float64.{Float64}
use cost_risk_aware_gitops_p.Results.{ok, bind_same}
use cost_risk_aware_gitops_p.Pricing.Figures.{Title, retitled, monthly_usd-retitled}
use cost_risk_aware_gitops_p.Cost.Types.{Workload}
use cost_risk_aware_gitops_p.Cost.Quantity.{Quantities}
use cost_risk_aware_gitops_p.Cost.Autoscaling.{Object, AutoscaleBounds, bounds_of}
use cost_risk_aware_gitops_p.Cost.Kinds.{
  Calculator, Switched, unpriced, finished, requested, named, switch_kind,
}
use cost_risk_aware_gitops_p.Cost.Kinds.Figures.{with_title, switch_kind-with_title}
use cost_risk_aware_gitops_p.Cost.Price.Commitment.{own_target}
use cost_risk_aware_gitops_p.Cost.Price.{apply_bounds, total_up, finish_price, conclude, price}

module _ {F : Type 0} ⦃fl : Float64 F⦄ (c : Calculator F) (title : Title F) where
  total_up-retitled : (w : Workload F) → total_up (retitled c.table title) w ≡ total_up c.table w
  unfolding total_up
  total_up-retitled w = simp (monthly_usd-retitled c.table title)

  apply_bounds-retitled :
      (w : Workload F) (b : Option AutoscaleBounds)
      → apply_bounds (retitled c.table title) w b ≡ apply_bounds c.table w b
  unfolding apply_bounds
  apply_bounds-retitled w none = refl
  apply_bounds-retitled w (some b) = simp (monthly_usd-retitled c.table title)

  conclude-with_title : (s : Switched F) → conclude (with_title c title) s ≡ conclude c s
  unfolding conclude finish_price
  conclude-with_title unpriced = refl
  conclude-with_title (finished w) = refl
  conclude-with_title (requested w) =
      let found = bounds_of (own_target w) c.autoscalers in
      ap some (
        total_up-retitled (apply_bounds (retitled c.table title) w found)
        ∙ ap (total_up c.table) (apply_bounds-retitled w found))

  pub price-with_title :
      ⦃qs : Quantities⦄ → (object : Object F) → price (with_title c title) object ≡ price c object
  unfolding price
  price-with_title object =
      rw (switch_kind-with_title c title (named object) object)
        (bind_same (switch_kind c object (named object)) (λ s. ap ok (conclude-with_title s)))
