-- ===== src/Cost/Kinds.antt =====
-- cost.go: the `switch` of `price` on the kind of an object.
pub mod Fresh
pub mod Figures
use cost_risk_aware_gitops_p.Prelude.{
  String, Bool, true, false, not, ◌||◌, List, [], ◌∷◌, ◌++◌, Option, none, some, concat, show_int,
  str_eq, if◌then◌else◌,
}
use cost_risk_aware_gitops_p.Prelude.Int.{ℤ, pos}
use cost_risk_aware_gitops_p.Float64.{Float64, zero_f}
use cost_risk_aware_gitops_p.Results.{Result, ok, err, ◌>>=◌, wrap}
use cost_risk_aware_gitops_p.Json.{Value, Fields, null, index, as_string, as_map}
use cost_risk_aware_gitops_p.Pricing.{Table, monthly_usd}
use cost_risk_aware_gitops_p.Cost.Types.{Resources, Workload, no_resources, scale}
use cost_risk_aware_gitops_p.Cost.Quantity.{Quantities, int_or_default}
use cost_risk_aware_gitops_p.Cost.Pods.{
  pod_resources, pod_spec_from, storage_request, volume_claim_storage,
}
use cost_risk_aware_gitops_p.Cost.Autoscaling.{
  Object, ScaleTarget, AutoscaleBounds, Autoscalers, bounds_of,
}

pub record Calculator (F : Type 0) : Type 0 where
  pub table : Table F
  pub assumed_node_count : ℤ
  pub autoscalers : Autoscalers

abbrev pub is_controller : String → Bool
is_controller kind =
    str_eq kind "Deployment"
    || (str_eq kind "StatefulSet"
        || (str_eq kind "ReplicaSet" || str_eq kind "ReplicationController"))

abbrev pub is_null : {F : Type 0} → Value F → Bool
is_null null = true
is_null v = false

-- What the `switch` on the kind leaves: no workload, one that is returned as it stands, or one whose
-- cost is still to be worked out.
pub data Switched (F : Type 0) : Type 0 where
  unpriced : Switched F
  finished : Workload F → Switched F
  requested : Workload F → Switched F

abbrev node_flag : ℤ → String
node_flag count = concat (
    "replica count assumed to be "
    ∷ show_int count
    ∷ " (one per node); the gate does not read live cluster state"
    ∷ [])

abbrev pub job_flag : String
job_flag =
    "not priced: cost depends on runtime duration and schedule, which the manifest does not specify"

-- `kind namespace/name`, in front of an error.
abbrev pub labelled : {F : Type 0} → String → Workload F → String
labelled kind w = concat (kind ∷ " " ∷ w.namespace ∷ "/" ∷ w.name ∷ [])

module _ {F : Type 0} ⦃fl : Float64 F⦄ where
  open fl use {add}

  -- `Workload{Kind: kind, Name: name, Namespace: namespace}`
  abbrev pub new_workload : (kind namespace name : String) → Workload F
  new_workload kind namespace name = record {
    kind = kind;
    namespace = namespace;
    name = name;
    replicas = pos 0;
    per_replica = no_resources;
    total = no_resources;
    monthly_usd = zero_f;
    autoscaled = false;
    min_replicas = pos 0;
    max_replicas = pos 0;
    floor_monthly_usd = zero_f;
    flags = [];
  }

  -- The workload that `price` starts from.
  abbrev pub named : Object F → Workload F
  named object =
      let meta = as_map (index object "metadata") in
      new_workload (as_string (index object "kind")) (as_string (index meta "namespace"))
        (as_string (index meta "name"))

  module _ ⦃qs : Quantities⦄ where
    -- A StatefulSet's claims are provisioned once per replica.
    unfoldable pub claimed_storage : (kind : String) → Fields F → Resources F → Result (Resources F)
    claimed_storage kind spec per =
        if str_eq kind "StatefulSet"
        then (do
          storage ← volume_claim_storage spec
          ok (record per { storage_gib = add per.storage_gib storage }))
        else ok per

    unfoldable pub controller : Calculator F → Workload F → Fields F → Result (Switched F)
    unfolding claimed_storage
    controller c w spec =
        let pod_spec = pod_spec_from spec in
        if is_null pod_spec then ok unpriced else (do
          (per, flags) ← wrap (labelled w.kind w) (pod_resources c.table pod_spec)
          per_replica ← wrap (labelled w.kind w) (claimed_storage w.kind spec per)
          ok (
              requested (record w {
                replicas = int_or_default (index spec "replicas") (pos 1);
                per_replica = per_replica;
                flags = flags;
              })))

    unfoldable pub daemon_set : Calculator F → Workload F → Fields F → Result (Switched F)
    daemon_set c w spec =
        let pod_spec = pod_spec_from spec in
        if is_null pod_spec then ok unpriced else (do
          (per, flags) ← wrap (labelled "DaemonSet" w) (pod_resources c.table pod_spec)
          ok (
              requested (record w {
                per_replica = per;
                replicas = c.assumed_node_count;
                flags = flags ++ (node_flag c.assumed_node_count ∷ []);
              })))

    unfoldable pub pod : Calculator F → Workload F → Value F → Result (Switched F)
    pod c w spec = do
      (per, flags) ← wrap (labelled "Pod" w) (pod_resources c.table spec)
      ok (requested (record w { per_replica = per; replicas = pos 1; flags = flags }))

    unfoldable pub claim : Workload F → Fields F → Result (Switched F)
    claim w spec = do
      storage ← wrap (labelled "PVC" w) (storage_request spec)
      ok (
          requested (record w {
            per_replica = record { cpu_cores = zero_f; memory_gib = zero_f; storage_gib = storage };
            replicas = pos 1;
          }))

    -- The `switch` on the kind.
    unfoldable pub switch_kind : Calculator F → Object F → Workload F → Result (Switched F)
    unfolding controller daemon_set pod claim
    switch_kind c object w =
        let spec = as_map (index object "spec") in
        if is_controller w.kind
        then controller c w spec
        else if str_eq w.kind "DaemonSet"
        then daemon_set c w spec
        else if str_eq w.kind "Pod"
        then pod c w (index object "spec")
        else if str_eq w.kind "PersistentVolumeClaim"
        then claim w spec
        else if str_eq w.kind "Job" || str_eq w.kind "CronJob"
        then ok (finished (record w { flags = job_flag ∷ [] }))
        else ok unpriced
