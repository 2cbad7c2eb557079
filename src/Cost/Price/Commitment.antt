-- ===== src/Cost/Price/Commitment.antt =====
-- What `price` charges a workload for: its replicas, or what its autoscaler authorises and commits to.
use cost_risk_aware_gitops_p.Prelude.{
  ◌≡◌, refl, subst, true, false, ◌||◌, str_eq, Option, none, some, some_inj, arith,
}
use cost_risk_aware_gitops_p.Prelude.Int.{ℤ}
use cost_risk_aware_gitops_p.Float64.{Float64, zero_f}
use cost_risk_aware_gitops_p.Results.{ok, bind_ok, ok_inj}
use cost_risk_aware_gitops_p.Pricing.{Table}
use cost_risk_aware_gitops_p.Cost.Types.{Resources, Workload, scale}
use cost_risk_aware_gitops_p.Cost.Quantity.{Quantities}
use cost_risk_aware_gitops_p.Cost.Kinds.{
  Calculator, Switched, unpriced, finished, requested, switch_kind, named,
}
use cost_risk_aware_gitops_p.Cost.Autoscaling.{Object, ScaleTarget, AutoscaleBounds, bounds_of}
use cost_risk_aware_gitops_p.Cost.Kinds.Fresh.{
  IsFresh, finished_fresh, requested_fresh, switch_kind-IsFresh,
}
use cost_risk_aware_gitops_p.Cost.Price.{
  month_of, apply_bounds, total_up, finish_price, conclude, price,
}

module _ {F : Type 0} ⦃fl : Float64 F⦄ where
  open fl use {of_int}

  -- What `n` replicas of these resources cost for a month.
  abbrev pub cost_at : Table F → Resources F → ℤ → F
  cost_at table r n = month_of table (scale r (of_int n))

  abbrev pub own_target : Workload F → ScaleTarget
  own_target w = record { namespace = w.namespace; kind = w.kind; name = w.name }

  -- A workload is charged at its own replicas, at the range of the autoscaler that targets it, or, for
  -- a Job, at nothing.
  pub data IsCharged (c : Calculator F) (w : Workload F) : Type 0 where
    static :
        bounds_of (own_target w) c.autoscalers ≡ none
        → w.autoscaled ≡ false
        → w.monthly_usd ≡ cost_at c.table w.per_replica w.replicas
        → w.floor_monthly_usd ≡ w.monthly_usd
        → IsCharged c w
    scaled :
        (b : AutoscaleBounds)
        → bounds_of (own_target w) c.autoscalers ≡ some b
        → w.autoscaled ≡ true
        → w.replicas ≡ b.max
        → w.monthly_usd ≡ cost_at c.table w.per_replica b.max
        → w.floor_monthly_usd ≡ cost_at c.table w.per_replica b.min
        → IsCharged c w
    unscheduled :
        (str_eq w.kind "Job" || str_eq w.kind "CronJob") ≡ true
        → w.monthly_usd ≡ zero_f
        → w.floor_monthly_usd ≡ zero_f
        → IsCharged c w

  charged :
      (c : Calculator F) (w : Workload F) (found : Option AutoscaleBounds)
      → bounds_of (own_target w) c.autoscalers ≡ found
      → w.autoscaled ≡ false
      → IsCharged c (total_up c.table (apply_bounds c.table w found))
  unfolding apply_bounds total_up
  charged c w none e fresh = static e fresh refl (rw fresh refl)
  charged c w (some b) e fresh = scaled b e refl refl refl refl

  finish_price-IsCharged :
      (c : Calculator F) (w : Workload F) → w.autoscaled ≡ false → IsCharged c (finish_price c w)
  unfolding finish_price
  finish_price-IsCharged c w fresh = charged c w (bounds_of (own_target w) c.autoscalers) refl fresh

  conclude-IsCharged :
      (c : Calculator F) (v : Workload F) (s : Switched F)
      → IsFresh s
      → conclude c s ≡ some v
      → IsCharged c v
  unfolding conclude
  conclude-IsCharged c v unpriced fresh e = ground arith
  conclude-IsCharged c v (finished w) (finished_fresh w' job month floor) e =
      subst (IsCharged c) (some_inj w' v e) (unscheduled job month floor)
  conclude-IsCharged c v (requested w) (requested_fresh w' fresh) e =
      subst (IsCharged c) (some_inj (finish_price c w') v e) (finish_price-IsCharged c w' fresh)

  -- Whatever object is priced, the workload is charged as `IsCharged` says.
  pub price-IsCharged :
      ⦃qs : Quantities⦄
      → (c : Calculator F) (object : Object F) (w : Workload F) → price c object ≡ ok (some w)
      → IsCharged c w
  unfolding price
  price-IsCharged c object w e =
      let (s, switched, concluded) =
        bind_ok (switch_kind c object (named object)) (λ s. ok (conclude c s)) (some w) e in
      conclude-IsCharged c w s (switch_kind-IsFresh c object s switched)
        (ok_inj (conclude c s) (some w) concluded)
