-- ===== src/Dashboard/Status.antt =====
-- dashboard/main.go: `handleStatus`, and the reads of kube.go and demo.go behind its tiles.
pub mod Sources
pub mod Honesty
use cost_risk_aware_gitops_p.Prelude.{
  not, ◌||◌, is_empty, str_eq, if◌then◌else◌, Option, none, some, String, List, [], ◌∷◌,
}
use cost_risk_aware_gitops_p.Prelude.Int.{ℤ, pos}
use cost_risk_aware_gitops_p.Float64.{Float64, zero_f}
use cost_risk_aware_gitops_p.Results.{Error, Result, ok, err, errorf, ◌>>=◌, ◌>>◌, refuse_if}
use cost_risk_aware_gitops_p.Dashboard.Demo.{
  demo_ns, worker_deploy, Deployment, ScaledObject, Range, bounds,
}
use cost_risk_aware_gitops_p.Dashboard.Api.{Reply, queue_depth}
use cost_risk_aware_gitops_p.Dashboard.Server.{Server}

-- A value that may be unavailable: its zero value is absence.
pub record Metric (F : Type 0) : Type 0 where
  pub value : Option F
  pub error : String

abbrev pub measured : {F : Type 0} → F → Metric F
measured v = record { value = some v; error = "" }

abbrev pub unknown : {F : Type 0} → Error → Metric F
unknown e = record { value = none; error = e.message }

pub record ArgoApp : Type 0 where
  pub name : String
  pub sync : String
  pub health : String

pub record StatusResponse (F : Type 0) : Type 0 where
  pub apps : List ArgoApp
  pub apps_error : String
  pub replicas : Metric F
  pub min_r : Metric F
  pub max_r : Metric F
  pub queue : Metric F
  pub reserved : Metric F
  pub actual : Metric F
  pub waste : Metric F
  pub utilisation : Metric F
  pub cost_age_secs : Metric F
  pub running : String

-- A response of Prometheus: its status, and the values of its results as strings.
pub record PromReply : Type 0 where
  pub status : String
  pub values : List (Result String)

module _ {F : Type 0} where
  -- `fmt.Sscanf` with "%g" is a parameter.
  abbrev first_value : (scan : String → Result F) → List (Result String) → Result F
  first_value scan [] = err (errorf "no data")
  first_value scan (v ∷ vs) = v >>= scan

  -- `prom`
  unfoldable pub prom : (scan : String → Result F) → Result PromReply → Result F
  prom scan read = do
    parsed ← read
    refuse_if (not (str_eq parsed.status "success") || is_empty parsed.values) "no data"
    first_value scan parsed.values

-- What the handler reads, in its order.
pub record StatusReads (F : Type 0) : Type 0 where
  pub apps : Result (List ArgoApp)
  pub deployment : Result Deployment
  pub scaled_object : Result ScaledObject
  pub depth : Result Reply
  pub reserved : Result PromReply
  pub actual : Result PromReply
  pub cost_age : Result PromReply
  pub scan : String → Result F

abbrev pub replicas_of : Result Deployment → Result ℤ
replicas_of (ok dep) = ok dep.replicas
replicas_of (err e) = err e

abbrev pub min_of : Result Range → Result ℤ
min_of (ok r) = ok r.min_r
min_of (err e) = err e

abbrev pub max_of : Result Range → Result ℤ
max_of (ok r) = ok r.max_r
max_of (err e) = err e

abbrev pub apps_of : Result (List ArgoApp) → List ArgoApp
apps_of (ok apps) = apps
apps_of (err e) = []

abbrev pub apps_error_of : Result (List ArgoApp) → String
apps_error_of (ok apps) = ""
apps_error_of (err e) = e.message

module _ {F : Type 0} ⦃fl : Float64 F⦄ where
  open fl use {sub, mul, div, lt, of_int}

  abbrev pub tile : Result F → Metric F
  tile (ok v) = measured v
  tile (err e) = unknown e

  abbrev pub int_tile : Result ℤ → Metric F
  int_tile (ok n) = measured (of_int n)
  int_tile (err e) = unknown e

  -- What is reserved and not used, and the share that is.
  abbrev pub waste_of : (reserved actual : Result F) → Metric F
  waste_of (ok r) (ok a) = measured (sub r a)
  waste_of (ok r) (err e) = unknown (errorf "cost data incomplete")
  waste_of (err e) a = unknown (errorf "cost data incomplete")

  abbrev pub utilisation_of : (reserved actual : Result F) → Metric F
  utilisation_of (ok r) (ok a) =
      if lt zero_f r
      then measured (mul (div a r) (of_int (pos 100)))
      else unknown (errorf "nothing reserved")
  utilisation_of (ok r) (err e) = unknown (errorf "cost data incomplete")
  utilisation_of (err e) a = unknown (errorf "cost data incomplete")

  -- `handleStatus`
  unfoldable pub handle_status : StatusReads F → Server → StatusResponse F
  unfolding bounds queue_depth prom
  handle_status x srv =
      let range = bounds demo_ns worker_deploy x.scaled_object in
      let reserved = prom x.scan x.reserved in
      let actual = prom x.scan x.actual in
      record {
        apps = apps_of x.apps;
        apps_error = apps_error_of x.apps;
        replicas = int_tile (replicas_of x.deployment);
        min_r = int_tile (min_of range);
        max_r = int_tile (max_of range);
        queue = int_tile (queue_depth x.depth);
        reserved = tile reserved;
        actual = tile actual;
        waste = waste_of reserved actual;
        utilisation = utilisation_of reserved actual;
        cost_age_secs = tile (prom x.scan x.cost_age);
        running = srv.running;
      }
