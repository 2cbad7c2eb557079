-- ===== src/Examples/Costs.antt =====
-- Prices and estimates of the sample manifests.
use cost_risk_aware_gitops_p.Prelude.{
  ◌≡◌, refl, true, false, String, List, [], ◌∷◌, some, All, arith,
}
use cost_risk_aware_gitops_p.Prelude.Int.{pos, ◌+ℤ◌, ◌-ℤ◌, ◌*ℤ◌}
use cost_risk_aware_gitops_p.Float64.Cents.{Cents, cents_float, Cents-IsIeee}
use cost_risk_aware_gitops_p.Results.{ok, ◌>>=◌}
use cost_risk_aware_gitops_p.Json.{index, as_list, obj}
use cost_risk_aware_gitops_p.Cost.Types.{Workload, Estimate, ref_of}
use cost_risk_aware_gitops_p.Cost.Pods.Formula.{price_all, formula, pod_resources_lem}
use cost_risk_aware_gitops_p.Cost.Estimating.{estimate, price_objects}
use cost_risk_aware_gitops_p.Cost.Price.{price, conclude, finish_price, apply_bounds, total_up}
use cost_risk_aware_gitops_p.Cost.Kinds.{
  switch_kind, controller, claim, pod, daemon_set, claimed_storage,
}
use cost_risk_aware_gitops_p.Cost.Pods.{
  pod_resources, pod_from, add_containers, add_init_containers, is_sidecar, pod_spec_from,
}
use cost_risk_aware_gitops_p.Cost.Containers.{
  container_resources, container_from, container_requests, priced_request, ephemeral_storage,
}
use cost_risk_aware_gitops_p.Cost.Autoscaling.{
  collect_autoscalers, collect_from, autoscaler_of, autoscaler_bounds, target_of, bounds_of,
}
use cost_risk_aware_gitops_p.Cost.Quantity.{parse_quantity, int_or_default}
use cost_risk_aware_gitops_p.Json.{lookup, as_string, as_map, as_map?}
use cost_risk_aware_gitops_p.Pricing.{monthly_usd, hourly_usd}
use cost_risk_aware_gitops_p.Prelude.{sort, insert_sorted, concat, show_int}
use cost_risk_aware_gitops_p.Pricing.Validity.{IsValid}
use cost_risk_aware_gitops_p.Cost.Price.Floor.{IsOrdered, IsNonnegative}
use cost_risk_aware_gitops_p.Cost.Estimating.Committed.{committed_le_monthly}
use cost_risk_aware_gitops_p.Cost.Estimating.Totals.{
  priced_each, with_autoscalers, IsEstimateOf, estimate-IsEstimateOf,
}
use cost_risk_aware_gitops_p.Cost.Price.Commitment.{IsCharged, price-IsCharged}
use cost_risk_aware_gitops_p.Cost.Autoscaling.Authorised.{Answer, collect_autoscalers-Answer}
use cost_risk_aware_gitops_p.Cost.Delta.{compare_estimates, delta_of}
use cost_risk_aware_gitops_p.Cost.Delta.Rows.{AreRowsOf, compare_estimates-AreRowsOf}
use cost_risk_aware_gitops_p.Cost.Delta.Changes.{Means, delta_of-Means}
use cost_risk_aware_gitops_p.Pricing.{Table, load}
use cost_risk_aware_gitops_p.Pricing.Tariff.{IsTariff, load-IsTariff}
use cost_risk_aware_gitops_p.Gate.Rates.{rates_changed}
use cost_risk_aware_gitops_p.Gate.Rates.Same.{rates_unchanged_estimate}
use cost_risk_aware_gitops_p.Examples.Data.{
  spelled, rates, pod_fields, calculator, web, shop, shop_estimate, web_workload, web_target,
}

shop_priced : estimate calculator shop ≡ ok shop_estimate
unfolding ◌+ℤ◌ ◌-ℤ◌ ◌*ℤ◌ estimate price_objects collect_autoscalers collect_from autoscaler_of
    autoscaler_bounds target_of price conclude finish_price apply_bounds total_up switch_kind
    controller claim pod daemon_set claimed_storage pod_resources pod_from add_containers
    add_init_containers is_sidecar pod_spec_from container_resources container_from
    container_requests priced_request ephemeral_storage parse_quantity int_or_default lookup index
    as_string as_map as_map? as_list bounds_of monthly_usd hourly_usd sort insert_sorted ref_of
    concat show_int
shop_priced = refl

rates-IsValid : IsValid rates
rates-IsValid = record {
  hours_pos = refl;
  cpu_nonneg = refl;
  memory_nonneg = refl;
  storage_nonneg = refl;
  currency_set = refl;
}

shop-IsOrdered : IsOrdered (collect_autoscalers shop)
unfolding collect_autoscalers collect_from autoscaler_of autoscaler_bounds target_of lookup index
    as_string as_map as_map? int_or_default bounds_of
shop-IsOrdered t b h = ground arith

shop_estimate-nonneg : All (λ w. IsNonnegative w.per_replica) shop_estimate.workloads
shop_estimate-nonneg = (
  record { cpu = refl; memory = refl; storage = refl },
  (record { cpu = refl; memory = refl; storage = refl }, tt),
)

pod_resources_lem_example : pod_resources rates (obj pod_fields) ≡ (
    price_all rates (as_list (index pod_fields "containers")) >>= λ apps.
    price_all rates (as_list (index pod_fields "initContainers")) >>= λ inits.
    ok (formula apps inits))
pod_resources_lem_example = pod_resources_lem rates pod_fields

committed_le_monthly_example :
    cents_float.le shop_estimate.committed_monthly_usd shop_estimate.monthly_usd ≡ true
committed_le_monthly_example =
    committed_le_monthly Cents-IsIeee calculator shop shop_estimate rates-IsValid shop-IsOrdered
      shop_estimate-nonneg shop_priced

estimate-IsEstimateOf_example :
    (ws : List (Workload Cents)) × (priced_each (with_autoscalers calculator shop) shop ≡ ok ws)
    × IsEstimateOf shop_estimate ws
estimate-IsEstimateOf_example = estimate-IsEstimateOf calculator shop shop_estimate shop_priced

web_priced : price (with_autoscalers calculator shop) web ≡ ok (some web_workload)
unfolding ◌+ℤ◌ ◌-ℤ◌ ◌*ℤ◌ collect_autoscalers collect_from autoscaler_of autoscaler_bounds target_of
    price conclude finish_price apply_bounds total_up switch_kind controller claim pod daemon_set
    claimed_storage pod_resources pod_from add_containers add_init_containers is_sidecar
    pod_spec_from container_resources container_from container_requests priced_request
    ephemeral_storage parse_quantity int_or_default lookup index as_string as_map as_map? as_list
    bounds_of monthly_usd hourly_usd concat show_int
web_priced = refl

price-IsCharged_example : IsCharged (with_autoscalers calculator shop) web_workload
price-IsCharged_example =
    price-IsCharged (with_autoscalers calculator shop) web web_workload web_priced

collect_autoscalers-Answer_example :
    Answer web_target shop (bounds_of web_target (collect_autoscalers shop))
collect_autoscalers-Answer_example = collect_autoscalers-Answer web_target shop

-- The same rates in a later document.
abbrev later_rates : Table Cents
later_rates = record rates {
  metadata = record rates.metadata { version = pos 2; source = "a later price list" };
}

later_rates-unchanged : rates_changed rates later_rates ≡ false
unfolding rates_changed
later_rates-unchanged = refl

rates_unchanged_estimate_example :
    estimate (record { table = rates; assumed_node_count = pos 3; autoscalers = [] }) shop
    ≡ estimate (record { table = later_rates; assumed_node_count = pos 3; autoscalers = [] }) shop
rates_unchanged_estimate_example =
    rates_unchanged_estimate Cents-IsIeee rates later_rates later_rates-unchanged (pos 3) [] shop

-- The web workload was cheaper before, and the Job is new.
abbrev before_estimate : Estimate Cents
before_estimate = record shop_estimate {
  workloads = record web_workload { monthly_usd = pos 2100; replicas = pos 1 } ∷ [];
  monthly_usd = pos 2100;
}

compare_estimates-AreRowsOf_example :
    (refs : List String) × AreRowsOf
      (compare_estimates before_estimate shop_estimate (pos 10000)).workloads
      before_estimate
      shop_estimate
      refs
compare_estimates-AreRowsOf_example =
    compare_estimates-AreRowsOf Cents-IsIeee before_estimate shop_estimate (pos 10000)

delta_of-Means_example :
    Means
      (some web_workload)
      (some web_workload)
      (delta_of "Deployment/shop/web" (some web_workload) (some web_workload)).change
delta_of-Means_example =
    delta_of-Means Cents-IsIeee "Deployment/shop/web" (some web_workload) (some web_workload)

-- The rates as `Load` reads them.
rates_loaded : load (λ path. ok "kind: PricingTable") (λ raw. ok rates) "rates.yaml" ≡ ok rates
unfolding load
rates_loaded = refl

load-IsTariff_example : IsTariff rates
load-IsTariff_example =
    load-IsTariff Cents-IsIeee rates (λ path. ok "kind: PricingTable") (λ raw. ok rates)
      "rates.yaml" rates_loaded
