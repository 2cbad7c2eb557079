-- ===== src/Cost/Types.antt =====
-- cost.go: the types `Resources`, `Workload` and `Estimate`, and the operations on resources.
use cost_risk_aware_gitops_p.Prelude.{String, Bool, List, [], ◌∷◌, concat, str_eq, if◌then◌else◌}
use cost_risk_aware_gitops_p.Prelude.Int.{ℤ}
use cost_risk_aware_gitops_p.Float64.{Float64, zero_f}

pub record Resources (F : Type 0) : Type 0 where
  pub cpu_cores : F
  pub memory_gib : F
  pub storage_gib : F

pub record Workload (F : Type 0) : Type 0 where
  pub kind : String
  pub namespace : String
  pub name : String
  pub replicas : ℤ
  pub per_replica : Resources F
  pub total : Resources F
  pub monthly_usd : F
  pub autoscaled : Bool
  pub min_replicas : ℤ
  pub max_replicas : ℤ
  pub floor_monthly_usd : F
  pub flags : List String

pub record Estimate (F : Type 0) : Type 0 where
  pub workloads : List (Workload F)
  pub monthly_usd : F
  pub committed_monthly_usd : F
  pub total : Resources F
  pub flags : List String

-- `kind/name`, or `kind/namespace/name`.
unfoldable pub ref_of : (kind namespace name : String) → String
ref_of kind namespace name =
    if str_eq namespace ""
    then concat (kind ∷ "/" ∷ name ∷ [])
    else concat (kind ∷ "/" ∷ namespace ∷ "/" ∷ name ∷ [])

-- `Workload.Ref`
abbrev pub ref : {F : Type 0} → Workload F → String
ref w = ref_of w.kind w.namespace w.name

module _ {F : Type 0} ⦃fl : Float64 F⦄ where
  open fl use {add, mul}

  -- The zero value of the struct.
  abbrev pub no_resources : Resources F
  no_resources = record { cpu_cores = zero_f; memory_gib = zero_f; storage_gib = zero_f }

  -- `Resources.add`
  abbrev pub add_resources : Resources F → Resources F → Resources F
  add_resources r o = record {
    cpu_cores = add r.cpu_cores o.cpu_cores;
    memory_gib = add r.memory_gib o.memory_gib;
    storage_gib = add r.storage_gib o.storage_gib;
  }

  -- `Resources.scale`
  abbrev pub scale : Resources F → F → Resources F
  scale r n = record {
    cpu_cores = mul r.cpu_cores n;
    memory_gib = mul r.memory_gib n;
    storage_gib = mul r.storage_gib n;
  }
