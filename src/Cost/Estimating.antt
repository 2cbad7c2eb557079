-- ===== src/Cost/Estimating.antt =====
-- cost.go: `Estimate`, and gate/cmd/gate/main.go: `mergeEstimates`.
pub mod Totals
pub mod Committed
pub mod Figures
use cost_risk_aware_gitops_p.Prelude.{List, [], ◌∷◌, ◌++◌, Option, none, some, sort, str_lt, Bool}
use cost_risk_aware_gitops_p.Float64.{Float64, zero_f}
use cost_risk_aware_gitops_p.Results.{Result, ok, err, ◌>>=◌}
use cost_risk_aware_gitops_p.Cost.Types.{Workload, Estimate, ref, no_resources, add_resources}
use cost_risk_aware_gitops_p.Cost.Quantity.{Quantities}
use cost_risk_aware_gitops_p.Cost.Autoscaling.{Object, collect_autoscalers}
use cost_risk_aware_gitops_p.Cost.Kinds.{Calculator}
use cost_risk_aware_gitops_p.Cost.Price.{price}

module _ {F : Type 0} ⦃fl : Float64 F⦄ where
  open fl use {add}

  abbrev pub no_estimate : Estimate F
  no_estimate = record {
    workloads = [];
    monthly_usd = zero_f;
    committed_monthly_usd = zero_f;
    total = no_resources;
    flags = [];
  }

  -- One round of the loop, for an object that is priced.
  abbrev pub add_workload : Estimate F → Option (Workload F) → Estimate F
  add_workload est none = est
  add_workload est (some w) = record est {
    workloads = est.workloads ++ w ∷ [];
    total = add_resources est.total w.total;
    monthly_usd = add est.monthly_usd w.monthly_usd;
    committed_monthly_usd = add est.committed_monthly_usd w.floor_monthly_usd;
  }

  abbrev pub ref_less : Workload F → Workload F → Bool
  ref_less a b = str_lt (ref a) (ref b)

  -- `mergeEstimates`
  unfoldable pub merge_estimates : Estimate F → Estimate F → Estimate F
  merge_estimates a b = record {
    workloads = a.workloads ++ b.workloads;
    monthly_usd = add a.monthly_usd b.monthly_usd;
    committed_monthly_usd = add a.committed_monthly_usd b.committed_monthly_usd;
    flags = a.flags ++ b.flags;
    total = add_resources a.total b.total;
  }

  module _ ⦃qs : Quantities⦄ where
    unfoldable pub price_objects : Calculator F → Estimate F → List (Object F) → Result (Estimate F)
    price_objects c est [] = ok est
    price_objects c est (object ∷ objects) = do
      priced ← price c object
      price_objects c (add_workload est priced) objects

    -- `Calculator.Estimate`: the autoscalers come from the objects that are priced, whatever an
    -- earlier call left.
    unfoldable pub estimate : Calculator F → List (Object F) → Result (Estimate F)
    unfolding price_objects
    estimate c objects = do
      est ←
          price_objects (record c { autoscalers = collect_autoscalers objects }) no_estimate objects
      ok (record est { workloads = sort ref_less est.workloads })
