-- ===== src/Examples/Data.antt =====
-- Rates, a configuration and manifests, small enough to price by hand.
use cost_risk_aware_gitops_p.Prelude.{String, true, false, List, [], ◌∷◌, str_eq, if◌then◌else◌}
use cost_risk_aware_gitops_p.Prelude.Int.{ℤ, pos}
use cost_risk_aware_gitops_p.Float64.Cents.{Cents}
use cost_risk_aware_gitops_p.Results.{ok, err, errorf}
use cost_risk_aware_gitops_p.Json.{Value, Fields, text, int, obj, arr, nil, cons, end, field}
use cost_risk_aware_gitops_p.Pricing.{Rate, Table}
use cost_risk_aware_gitops_p.Config.{Config, CostConfig, PolicyConfig}
use cost_risk_aware_gitops_p.Cost.Types.{Workload, Estimate}
use cost_risk_aware_gitops_p.Cost.Quantity.{Quantities}
use cost_risk_aware_gitops_p.Cost.Autoscaling.{Object, ScaleTarget}
use cost_risk_aware_gitops_p.Cost.Kinds.{Calculator}
use cost_risk_aware_gitops_p.Cost.Delta.{Delta, modified}
use cost_risk_aware_gitops_p.Policy.{Violation}

-- Quantities of a few spellings.
instance abbrev pub spelled : Quantities
spelled = record {
  parse = λ s.
      if str_eq s "2"
      then ok (record { milli_value = pos 2000; value = pos 2 })
      else if str_eq s "1Gi"
      then ok (record { milli_value = pos 1073741824000; value = pos 1073741824 })
      else err (errorf "quantities must match the regular expression");
  of_int = λ n. record { milli_value = n; value = n };
}

abbrev rate : ℤ → Rate Cents
rate price = record { unit = "hour"; price = price; flag = false }

-- Three cents for a core and an hour, one for a GiB of memory or of storage.
abbrev pub rates : Table Cents
rates = record {
  api_version = "gitops.platform/v1";
  kind = "PricingTable";
  metadata = record {
    name = "rates";
    version = pos 1;
    source = "a price list";
    retrieved_at = "2025-01-01";
  };
  spec = record {
    currency = "USD";
    hours_per_month = pos 100;
    rates = record { cpu = rate (pos 3); memory = rate (pos 1); storage = rate (pos 1) };
    defaults = record { unknown_resource = rate (pos 0) };
    missing_requests = record { cpu = "2"; memory = "1Gi"; flag = true };
  };
}

abbrev pub cost_config : CostConfig Cents
cost_config = record {
  mode = "both";
  block = record { max_monthly_delta_usd = pos 1000; max_percent_increase = pos 50 };
  warn = record { max_monthly_delta_usd = pos 500; max_percent_increase = pos 20 };
  allow_unbounded_decrease = true;
  assumed_node_count = pos 3;
  baseline = "base";
  autoscaling = record {
    max_ceiling_delta_usd = pos 5000;
    warn_ceiling_delta_usd = pos 2000;
    max_burst_ratio = pos 10;
  };
}

abbrev pub policy_config : PolicyConfig
policy_config = record {
  engine = "opa";
  fail_on_severity = "critical" ∷ "high" ∷ [];
  severity_overrides = ("no-probes", "low") ∷ [];
  treat_error_as_blocking = true;
}

abbrev pub gate_config : Config Cents
gate_config = record {
  api_version = "gitops.platform/v1";
  kind = "GateConfig";
  metadata = record { name = "gate" };
  spec = record {
    paths = record { manifests = "manifests"; policies = "policies"; pricing = "rates.yaml" };
    cost = cost_config;
    policy = policy_config;
    report = record { status_check_name = "gate"; comment_strategy = "update" };
    explain = record { enabled = false; timeout_seconds = pos 30; model = ""; endpoint = "" };
  };
}

abbrev requests : (cpu memory : String) → Value Cents
requests cpu memory =
    obj (field "requests" (obj (field "cpu" (text cpu) (field "memory" (text memory) end))) end)

abbrev container : String → Value Cents
container name = obj (field "name" (text name) (field "resources" (requests "2" "1Gi") end))

-- Two app containers, a sidecar and an ordinary init container that requests nothing.
abbrev pub pod_fields : Fields Cents
pod_fields = field "containers" (arr (cons (container "web") (cons (container "log") nil))) (
    field "initContainers"
      (arr (
        cons
          (obj (
            field "name" (text "proxy")
              (field "restartPolicy" (text "Always") (field "resources" (requests "2" "1Gi") end))))
          (cons (obj (field "name" (text "migrate") end)) nil)))
      end)

abbrev named : String → Value Cents
named name = obj (field "name" (text name) (field "namespace" (text "shop") end))

-- A Deployment, the ScaledObject of KEDA that scales it, and a Job.
abbrev pub web : Object Cents
web = field "kind" (text "Deployment") (
    field "metadata" (named "web") (
      field "spec"
        (obj (
          field "replicas" (int (pos 2))
            (field "template" (obj (field "spec" (obj pod_fields) end)) end)))
        end))

abbrev pub scaler : Object Cents
scaler = field "kind" (text "ScaledObject") (
    field "metadata" (named "web-scaler") (
      field "spec"
        (obj (
          field "scaleTargetRef" (obj (field "name" (text "web") end))
            (field "minReplicaCount" (int (pos 1)) (field "maxReplicaCount" (int (pos 4)) end))))
        end))

abbrev pub job : Object Cents
job = field "kind" (text "Job") (field "metadata" (named "report") end)

abbrev pub shop : List (Object Cents)
shop = web ∷ scaler ∷ job ∷ []

abbrev pub calculator : Calculator Cents
calculator = record { table = rates; assumed_node_count = pos 3; autoscalers = [] }

abbrev pub violation : (rule severity : String) → Violation
violation rule severity = record {
  rule = rule;
  severity = severity;
  message = "see the rule";
  kind = "Deployment";
  namespace = "shop";
  name = "web";
  remediation = "";
}

-- A change that commits to 400 cents more and may burst by another 1600.
abbrev pub change : Delta Cents
change = record {
  baseline_monthly_usd = pos 1000;
  projected_monthly_usd = pos 3000;
  delta_monthly_usd = pos 2000;
  percent_increase = pos 20;
  has_percent_basis = true;
  estate_baseline_monthly_usd = pos 10000;
  committed_baseline_usd = pos 1000;
  committed_projected_usd = pos 1400;
  committed_delta_usd = pos 400;
  committed_percent = pos 4;
  has_committed_basis = true;
  workloads =
      record {
        ref = "Deployment/shop/web";
        change = modified;
        before_usd = pos 1000;
        after_usd = pos 3000;
        delta_usd = pos 2000;
        before_reps = pos 2;
        after_reps = pos 4;
        flags = [];
        autoscaled = true;
        min_replicas = pos 1;
        max_replicas = pos 4;
        floor_usd = pos 1400;
      }
      ∷ [];
  flags = [];
}

abbrev pub web_workload : Workload Cents
web_workload = record {
  kind = "Deployment";
  namespace = "shop";
  name = "web";
  replicas = pos 4;
  per_replica = record { cpu_cores = pos 6; memory_gib = pos 3; storage_gib = pos 0 };
  total = record { cpu_cores = pos 24; memory_gib = pos 12; storage_gib = pos 0 };
  monthly_usd = pos 8400;
  autoscaled = true;
  min_replicas = pos 1;
  max_replicas = pos 4;
  floor_monthly_usd = pos 2100;
  flags =
      "scaled by a KEDA ScaledObject between 1 and 4 replicas; priced at the maximum because that is the spend this change authorises. At the minimum it costs $2100/month"
      ∷ [];
}

abbrev pub job_workload : Workload Cents
job_workload = record {
  kind = "Job";
  namespace = "shop";
  name = "report";
  replicas = pos 0;
  per_replica = record { cpu_cores = pos 0; memory_gib = pos 0; storage_gib = pos 0 };
  total = record { cpu_cores = pos 0; memory_gib = pos 0; storage_gib = pos 0 };
  monthly_usd = pos 0;
  autoscaled = false;
  min_replicas = pos 0;
  max_replicas = pos 0;
  floor_monthly_usd = pos 0;
  flags =
      "not priced: cost depends on runtime duration and schedule, which the manifest does not specify"
      ∷ [];
}

abbrev pub shop_estimate : Estimate Cents
shop_estimate = record {
  workloads = web_workload ∷ job_workload ∷ [];
  monthly_usd = pos 8400;
  committed_monthly_usd = pos 2100;
  total = record { cpu_cores = pos 24; memory_gib = pos 12; storage_gib = pos 0 };
  flags = [];
}

abbrev pub web_target : ScaleTarget
web_target = record { namespace = "shop"; kind = "Deployment"; name = "web" }

-- A volume claim of one GiB.
abbrev pub disk : Object Cents
disk = field "kind" (text "PersistentVolumeClaim") (
    field "metadata" (named "disk") (
      field "spec"
        (obj (
          field "resources" (obj (field "requests" (obj (field "storage" (text "1Gi") end)) end))
            end))
        end))
