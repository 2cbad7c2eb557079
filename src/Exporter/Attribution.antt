-- ===== src/Exporter/Attribution.antt =====
-- exporter/internal/attribution/attribution.go: the cost of each workload, reserved and consumed.
pub mod Entries
pub mod Footprint
pub mod Costs
pub mod Outcome
use cost_risk_aware_gitops_p.Prelude.{
  ◌≡◌, Bool, true, false, not, ◌&&◌, str_eq, str_lt, is_empty, if◌then◌else◌, ◌||◌, String, Option,
  none, some, List, [], ◌∷◌, ◌++◌, map, concat, sort, ◌*◌,
}
use cost_risk_aware_gitops_p.Prelude.Int.{ℤ, pos}
use cost_risk_aware_gitops_p.Float64.{Float64, zero_f}
use cost_risk_aware_gitops_p.Results.{Error, Result, ok, err, wrap, ◌>>=◌}
use cost_risk_aware_gitops_p.Pricing.{Table, hourly_usd}
use cost_risk_aware_gitops_p.Exporter.Prometheus.{Sample, label}

-- `Basis`, a string type, and its text.
pub data Basis : Type 0 where
  requested : Basis
  actual : Basis

abbrev pub basis_text : Basis → String
basis_text requested = "requested"
basis_text actual = "actual"

abbrev pub basis_eq : Basis → Basis → Bool
basis_eq requested requested = true
basis_eq actual actual = true
basis_eq _ _ = false

pub data Resource : Type 0 where
  cpu : Resource
  memory : Resource

abbrev pub resource_text : Resource → String
resource_text cpu = "cpu"
resource_text memory = "memory"

pub record Key : Type 0 where
  pub namespace : String
  pub workload : String
  pub basis : Basis

unfoldable pub key_eq : Key → Key → Bool
key_eq a b =
    str_eq a.namespace b.namespace && str_eq a.workload b.workload && basis_eq a.basis b.basis

pub record Usage (F : Type 0) : Type 0 where
  pub namespace : String
  pub workload : String
  pub basis : Basis
  pub cpu_cores : F
  pub memory_gib : F

pub record Cost (F : Type 0) : Type 0 where
  pub usage : Usage F
  pub hourly_usd : F
  pub monthly_usd : F

-- An entry of the map that `queries` returns.
pub record Query : Type 0 where
  pub text : String
  pub basis : Basis
  pub resource : Resource

-- What a failed query's error begins with.
abbrev pub asking : Query → String
asking q = concat ("query " ∷ basis_text q.basis ∷ "/" ∷ resource_text q.resource ∷ [])

abbrev pub workload_mapping : String
workload_mapping = concat (
    "(\n  label_replace(kube_pod_owner{owner_kind=\"ReplicaSet\"}, \"workload\", \"$1\", \"owner_name\", \"^(.+)-[^-]+$\")\n"
    ∷ "  or\n"
    ∷ "  label_replace(kube_pod_owner{owner_kind=~\"StatefulSet|DaemonSet|Job\"}, \"workload\", \"$1\", \"owner_name\", \"^(.+)$\")\n)"
    ∷ [])

-- `fmt.Sprintf` of a sum over the series, joined with the mapping.
abbrev pub summed : (series : String) → String
summed series = concat (
    "sum by (namespace, workload) (\n  " ∷ series
    ∷ "\n  * on (namespace, pod) group_left(workload) " ∷ workload_mapping ∷ "\n)" ∷ [])

-- `queries`: the source's map, in the order in which it writes the entries.
unfoldable pub queries : (window : String) → List Query
queries window =
    record {
      text = summed (
          concat (
            "rate(container_cpu_usage_seconds_total{container!=\"\", container!=\"POD\"}[" ∷ window
            ∷ "])" ∷ []));
      basis = actual;
      resource = cpu;
    }
    ∷ record {
      text = summed "container_memory_working_set_bytes{container!=\"\", container!=\"POD\"}";
      basis = actual;
      resource = memory;
    }
    ∷ record {
      text = summed "kube_pod_container_resource_requests{resource=\"cpu\"}";
      basis = requested;
      resource = cpu;
    }
    ∷ record {
      text = summed "kube_pod_container_resource_requests{resource=\"memory\"}";
      basis = requested;
      resource = memory;
    }
    ∷ []

-- A sample with no namespace or no workload is left out.
abbrev pub is_unlabelled : Key → Bool
is_unlabelled k = str_eq k.namespace "" || str_eq k.workload ""

-- The order of the result.
unfoldable pub key_less : Key → Key → Bool
key_less a b =
    if not (str_eq a.namespace b.namespace)
    then str_lt a.namespace b.namespace
    else if not (str_eq a.workload b.workload)
    then str_lt a.workload b.workload
    else str_lt (basis_text a.basis) (basis_text b.basis)

module _ {F : Type 0} where
  abbrev pub key_of : Usage F → Key
  key_of u = record { namespace = u.namespace; workload = u.workload; basis = u.basis }

abbrev pub bytes_per_gib : ℤ
bytes_per_gib = pos (1024 * 1024 * 1024)

module _ {F : Type 0} ⦃fl : Float64 F⦄ where
  open fl use {mul, div, of_int}

  abbrev pub fresh_usage : Key → Usage F
  fresh_usage k = record {
    namespace = k.namespace;
    workload = k.workload;
    basis = k.basis;
    cpu_cores = zero_f;
    memory_gib = zero_f;
  }

  -- The switch on the resource.
  unfoldable pub set_figure : Resource → (value : F) → Usage F → Usage F
  set_figure cpu value u = record u { cpu_cores = value }
  set_figure memory value u = record u { memory_gib = div value (of_int bytes_per_gib) }

  -- `usage[k]`, made where it is missing, and changed. The map is a list of its values, which hold
  -- their keys.
  unfoldable pub update : Key → (Usage F → Usage F) → List (Usage F) → List (Usage F)
  update k f [] = f (fresh_usage k) ∷ []
  update k f (u ∷ us) = if key_eq k (key_of u) then f u ∷ us else u ∷ update k f us

  abbrev pub sample_key : Query → Sample F → Key
  sample_key q s = record {
    namespace = label "namespace" s.labels;
    workload = label "workload" s.labels;
    basis = q.basis;
  }

  unfoldable pub add_sample : Query → List (Usage F) → Sample F → List (Usage F)
  unfolding update set_figure label
  add_sample q usage s =
      if is_unlabelled (sample_key q s)
      then usage
      else update (sample_key q s) (set_figure q.resource s.value) usage

  unfoldable pub add_samples : Query → List (Usage F) → List (Sample F) → List (Usage F)
  unfolding add_sample
  add_samples q usage [] = usage
  add_samples q usage (s ∷ ss) = add_samples q (add_sample q usage s) ss

  module _ (prom : (text : String) → Result (List (Sample F))) where
    -- The loop over the queries, in an order that Go leaves open.
    unfoldable pub collect_usage :
        (order : List Query) (usage : List (Usage F)) → Result (List (Usage F))
    unfolding add_samples
    collect_usage [] usage = ok usage
    collect_usage (q ∷ qs) usage =
        wrap (asking q) (prom q.text) >>= λ samples. collect_usage qs (add_samples q usage samples)

  unfoldable pub cost_of : Table F → Usage F → Cost F
  unfolding hourly_usd
  cost_of table u =
      let hourly = hourly_usd table u.cpu_cores u.memory_gib zero_f in
      record { usage = u; hourly_usd = hourly; monthly_usd = mul hourly table.spec.hours_per_month }

  abbrev pub cost_less : Cost F → Cost F → Bool
  cost_less a b = key_less (key_of a.usage) (key_of b.usage)

  -- `Collect`, over the order in which the map of queries is ranged over.
  unfoldable pub collect :
      (prom : (text : String) → Result (List (Sample F))) (table : Table F) (order : List Query)
      → Result (List (Cost F))
  unfolding collect_usage cost_of sort
  collect prom table order =
      collect_usage prom order [] >>= λ usage. ok (sort cost_less (map (cost_of table) usage))
