-- ===== src/Cost/Pods.antt =====
-- cost.go: what a pod and its volume claims request, after the scheduler's formula.
pub mod Formula
pub mod Figures
use cost_risk_aware_gitops_p.Prelude.{
  String, Bool, List, [], ◌∷◌, ◌++◌, Option, none, some, str_eq, if◌then◌else◌,
}
use cost_risk_aware_gitops_p.Float64.{Float64, zero_f, max_f}
use cost_risk_aware_gitops_p.Results.{Result, ok, ◌>>=◌, wrap}
use cost_risk_aware_gitops_p.Json.{
  Value, Fields, null, lookup, index, as_string, as_map?, as_map, as_list,
}
use cost_risk_aware_gitops_p.Pricing.{Table}
use cost_risk_aware_gitops_p.Cost.Types.{Resources, no_resources, add_resources}
use cost_risk_aware_gitops_p.Cost.Quantity.{Quantities, parse_quantity}
use cost_risk_aware_gitops_p.Cost.Containers.{Flagged, gib, container_resources}

-- The variables of `podResources`: app containers and sidecars are held together, ordinary init
-- containers one at a time.
pub record Pod (F : Type 0) : Type 0 where
  pub running : Resources F
  pub max_init : Resources F
  pub flags : List String

module _ {F : Type 0} where
  -- A native sidecar runs beside the app containers; its restart policy says so.
  unfoldable pub is_sidecar : Value F → Bool
  is_sidecar c2 = str_eq (as_string (index (as_map c2) "restartPolicy")) "Always"

  abbrev template_spec : Option (Fields F) → Value F
  template_spec none = null
  template_spec (some template) = index template "spec"

  -- `podSpecFrom`
  unfoldable pub pod_spec_from : Fields F → Value F
  pod_spec_from spec = template_spec (as_map? (index spec "template"))

module _ {F : Type 0} ⦃fl : Float64 F⦄ where
  open fl use {add}

  abbrev pub max_resources : Resources F → Resources F → Resources F
  max_resources a r = record {
    cpu_cores = max_f a.cpu_cores r.cpu_cores;
    memory_gib = max_f a.memory_gib r.memory_gib;
    storage_gib = max_f a.storage_gib r.storage_gib;
  }

  -- One round: the flags of an ordinary init container are not kept.
  abbrev pub add_init : Pod F → Bool → Resources F → List String → Pod F
  add_init p sidecar r f =
      if sidecar
      then record p { running = add_resources p.running r; flags = p.flags ++ f }
      else record p { max_init = max_resources p.max_init r }

  -- What the code takes the pod to reserve.
  abbrev pub effective : Pod F → Resources F
  effective p = record {
    cpu_cores = max_f p.running.cpu_cores p.max_init.cpu_cores;
    memory_gib = max_f p.running.memory_gib p.max_init.memory_gib;
    storage_gib = add p.running.storage_gib p.max_init.storage_gib;
  }

module _ {F : Type 0} ⦃fl : Float64 F⦄ ⦃qs : Quantities⦄ where
  open fl use {add}

  -- The loop over the app containers, from what was added so far.
  unfoldable pub add_containers :
      Table F → Resources F → List String → List (Value F) → Result (Flagged (Resources F))
  add_containers table running flags [] = ok (running, flags)
  add_containers table running flags (c2 ∷ rest) = do
    (r, f) ← container_resources table c2
    add_containers table (add_resources running r) (flags ++ f) rest

  unfoldable pub add_init_containers : Table F → Pod F → List (Value F) → Result (Pod F)
  add_init_containers table p [] = ok p
  add_init_containers table p (c2 ∷ rest) = do
    (r, f) ← container_resources table c2
    add_init_containers table (add_init p (is_sidecar c2) r f) rest

  unfoldable pub pod_from : Table F → Option (Fields F) → Result (Flagged (Resources F))
  pod_from table none = ok (no_resources, [])
  pod_from table (some pod_spec) = do
    (running, flags) ← add_containers table no_resources [] (as_list (index pod_spec "containers"))
    p ←
        add_init_containers table
          (record { running = running; max_init = no_resources; flags = flags })
          (as_list (index pod_spec "initContainers"))
    ok (effective p, p.flags)

  -- `podResources`
  unfoldable pub pod_resources : Table F → Value F → Result (Flagged (Resources F))
  unfolding pod_from
  pod_resources table pod_spec = pod_from table (as_map? pod_spec)

  unfoldable pub storage_from : Option (Value F) → Result F
  storage_from none = ok zero_f
  storage_from (some raw) = do q ← wrap "storage request" (parse_quantity raw); ok (gib q)

  -- `storageRequest`: a nil map has no key, so both early returns are one.
  unfoldable pub storage_request : Fields F → Result F
  unfolding storage_from
  storage_request spec =
      storage_from (lookup "storage" (as_map (index (as_map (index spec "resources")) "requests")))

  add_claims : F → List (Value F) → Result F
  add_claims total [] = ok total
  add_claims total (t ∷ templates) = do
    s ← storage_request (as_map (index (as_map t) "spec"))
    add_claims (add total s) templates

  -- `volumeClaimStorage`
  pub volume_claim_storage : Fields F → Result F
  unfolding add_claims
  volume_claim_storage spec = add_claims zero_f (as_list (index spec "volumeClaimTemplates"))
