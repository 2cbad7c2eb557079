-- ===== src/Cost/Kinds/Figures.antt =====
-- What the `switch` of `price` leaves depends on the figures of the rate table alone.
use cost_risk_aware_gitops_p.Prelude.{◌≡◌, refl}
use cost_risk_aware_gitops_p.Float64.{Float64}
use cost_risk_aware_gitops_p.Json.{Value, Fields, as_map, index}
use cost_risk_aware_gitops_p.Pricing.Figures.{Title, retitled}
use cost_risk_aware_gitops_p.Cost.Types.{Workload}
use cost_risk_aware_gitops_p.Cost.Quantity.{Quantities}
use cost_risk_aware_gitops_p.Cost.Pods.{pod_spec_from}
use cost_risk_aware_gitops_p.Cost.Pods.Figures.{pod_resources-retitled}
use cost_risk_aware_gitops_p.Cost.Autoscaling.{Object}
use cost_risk_aware_gitops_p.Cost.Kinds.{Calculator, controller, daemon_set, pod, switch_kind}

module _ {F : Type 0} ⦃fl : Float64 F⦄ where
  -- A calculator with the same figures under another title.
  abbrev pub with_title : Calculator F → Title F → Calculator F
  with_title c title = record c { table = retitled c.table title }

  module _ ⦃qs : Quantities⦄ (c : Calculator F) (title : Title F) (w : Workload F) where
    controller-with_title :
        (spec : Fields F) → controller (with_title c title) w spec ≡ controller c w spec
    unfolding controller
    controller-with_title spec = rw (pod_resources-retitled c.table title (pod_spec_from spec)) refl

    daemon_set-with_title :
        (spec : Fields F) → daemon_set (with_title c title) w spec ≡ daemon_set c w spec
    unfolding daemon_set
    daemon_set-with_title spec = rw (pod_resources-retitled c.table title (pod_spec_from spec)) refl

    pod-with_title : (spec : Value F) → pod (with_title c title) w spec ≡ pod c w spec
    unfolding pod
    pod-with_title spec = rw (pod_resources-retitled c.table title spec) refl

    pub switch_kind-with_title :
        (object : Object F) → switch_kind (with_title c title) object w ≡ switch_kind c object w
    unfolding switch_kind
    switch_kind-with_title object =
        let spec = as_map (index object "spec") in
        simp (
          controller-with_title spec,
          daemon_set-with_title spec,
          pod-with_title (index object "spec"),
        )
