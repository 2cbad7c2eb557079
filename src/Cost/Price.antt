-- ===== src/Cost/Price.antt =====
-- cost.go: `price`, the cost of one object, and what an autoscaler makes of it.
pub mod Commitment
pub mod Floor
pub mod Figures
use cost_risk_aware_gitops_p.Prelude.{
  String, Bool, true, false, not, ◌||◌, List, [], ◌∷◌, ◌++◌, Option, none, some, concat, show_int,
  str_eq, if◌then◌else◌,
}
use cost_risk_aware_gitops_p.Prelude.Int.{ℤ, pos}
use cost_risk_aware_gitops_p.Float64.{Float64, zero_f}
use cost_risk_aware_gitops_p.Results.{Result, ok, err, ◌>>=◌, wrap}
use cost_risk_aware_gitops_p.Json.{Value, Fields, null, index, as_string, as_map}
use cost_risk_aware_gitops_p.Pricing.{Table, monthly_usd}
use cost_risk_aware_gitops_p.Cost.Types.{Resources, Workload, no_resources, scale}
use cost_risk_aware_gitops_p.Cost.Quantity.{Quantities, int_or_default}
use cost_risk_aware_gitops_p.Cost.Pods.{
  pod_resources, pod_spec_from, storage_request, volume_claim_storage,
}
use cost_risk_aware_gitops_p.Cost.Kinds.{
  Calculator, Switched, unpriced, finished, requested, switch_kind, named,
}
use cost_risk_aware_gitops_p.Cost.Autoscaling.{
  Object, ScaleTarget, AutoscaleBounds, Autoscalers, bounds_of,
}

module _ {F : Type 0} ⦃fl : Float64 F⦄ where
  open fl use {of_int, show_fixed}

  abbrev month_of : Table F → Resources F → F
  month_of table r = monthly_usd table r.cpu_cores r.memory_gib r.storage_gib

  abbrev scaled_flag : AutoscaleBounds → F → String
  scaled_flag bounds floor = concat (
      "scaled by a "
      ∷ bounds.source
      ∷ " between "
      ∷ show_int bounds.min
      ∷ " and "
      ∷ show_int bounds.max
      ∷ " replicas; priced at the maximum because that is the spend this change authorises. At the minimum it costs $"
      ∷ show_fixed 2 floor
      ∷ "/month"
      ∷ [])

  -- An autoscaler overrides the replica count by its maximum.
  unfoldable pub apply_bounds : Table F → Workload F → Option AutoscaleBounds → Workload F
  apply_bounds table w none = w
  apply_bounds table w (some bounds) =
      let floor = month_of table (scale w.per_replica (of_int bounds.min)) in
      record w {
        autoscaled = true;
        min_replicas = bounds.min;
        max_replicas = bounds.max;
        replicas = bounds.max;
        floor_monthly_usd = floor;
        flags = (w.flags ++ bounds.flags) ++ (scaled_flag bounds floor ∷ []);
      }

  -- The total, its price, and the floor of what no autoscaler moves.
  unfoldable pub total_up : Table F → Workload F → Workload F
  total_up table w =
      let total = scale w.per_replica (of_int w.replicas) in
      let month = month_of table total in
      record w {
        total = total;
        monthly_usd = month;
        floor_monthly_usd = if w.autoscaled then w.floor_monthly_usd else month;
      }

  -- The part of `price` below its `switch`.
  unfoldable pub finish_price : Calculator F → Workload F → Workload F
  unfolding apply_bounds total_up
  finish_price c w =
      let target : ScaleTarget = record { namespace = w.namespace; kind = w.kind; name = w.name } in
      total_up c.table (apply_bounds c.table w (bounds_of target c.autoscalers))

  unfoldable pub conclude : Calculator F → Switched F → Option (Workload F)
  conclude c unpriced = none
  conclude c (finished w) = some w
  conclude c (requested w) = some (finish_price c w)

  -- `price`: `none` where the object is not priceable.
  unfoldable pub price : ⦃qs : Quantities⦄ → Calculator F → Object F → Result (Option (Workload F))
  unfolding conclude
  price c object = do switched ← switch_kind c object (named object); ok (conclude c switched)
