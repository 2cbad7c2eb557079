-- ===== src/Cost/Pods/Figures.antt =====
-- What a pod requests depends on the figures of the rate table alone.
use cost_risk_aware_gitops_p.Prelude.{◌≡◌, refl, String, List, [], ◌∷◌, ◌++◌, Option, none, some}
use cost_risk_aware_gitops_p.Float64.{Float64}
use cost_risk_aware_gitops_p.Results.{bind_same}
use cost_risk_aware_gitops_p.Json.{Value, Fields, as_map?, as_list, index}
use cost_risk_aware_gitops_p.Pricing.{Table}
use cost_risk_aware_gitops_p.Pricing.Figures.{Title, retitled}
use cost_risk_aware_gitops_p.Cost.Types.{Resources, no_resources, add_resources}
use cost_risk_aware_gitops_p.Cost.Quantity.{Quantities}
use cost_risk_aware_gitops_p.Cost.Containers.{container_resources}
use cost_risk_aware_gitops_p.Cost.Containers.Figures.{container_resources-retitled}
use cost_risk_aware_gitops_p.Cost.Pods.{
  Pod, is_sidecar, add_init, add_containers, add_init_containers, pod_from, pod_resources,
}

module _ {F : Type 0} ⦃fl : Float64 F⦄ ⦃qs : Quantities⦄ (t : Table F) (title : Title F) where
  add_containers-retitled :
      (r : Resources F) (f : List String) (cs : List (Value F))
      → add_containers (retitled t title) r f cs ≡ add_containers t r f cs
  unfolding add_containers
  add_containers-retitled r f [] = refl
  add_containers-retitled r f (c ∷ cs) = rw (container_resources-retitled t title c) (
      bind_same (container_resources t c)
        (λ (q, g). add_containers-retitled (add_resources r q) (f ++ g) cs))

  add_init_containers-retitled :
      (p : Pod F) (cs : List (Value F))
      → add_init_containers (retitled t title) p cs ≡ add_init_containers t p cs
  unfolding add_init_containers
  add_init_containers-retitled p [] = refl
  add_init_containers-retitled p (c ∷ cs) = rw (container_resources-retitled t title c) (
      bind_same (container_resources t c)
        (λ (q, g). add_init_containers-retitled (add_init p (is_sidecar c) q g) cs))

  pod_from-retitled :
      (spec : Option (Fields F)) → pod_from (retitled t title) spec ≡ pod_from t spec
  unfolding pod_from
  pod_from-retitled none = refl
  pod_from-retitled (some spec) =
      rw (add_containers-retitled no_resources [] (as_list (index spec "containers"))) (
        bind_same (add_containers t no_resources [] (as_list (index spec "containers")))
          (λ (running, flags).
            rw
              (add_init_containers-retitled
                (record { running = running; max_init = no_resources; flags = flags })
                (as_list (index spec "initContainers")))
              refl))

  pub pod_resources-retitled :
      (spec : Value F) → pod_resources (retitled t title) spec ≡ pod_resources t spec
  unfolding pod_resources
  pod_resources-retitled spec = pod_from-retitled (as_map? spec)
