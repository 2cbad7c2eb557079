-- ===== src/Dashboard/Demo.antt =====
-- dashboard/demo.go: events, and what is read of the cluster.
use cost_risk_aware_gitops_p.Prelude.{
  ℕ, zero, suc, ◌+◌, ◌*◌, ◌/◌, Bool, true, false, str_eq, if◌then◌else◌, Option, none, some, String,
  List, [], ◌∷◌, concat,
}
use cost_risk_aware_gitops_p.Prelude.Int.{ℤ, pos, negsuc, eqb_ℤ}
use cost_risk_aware_gitops_p.Results.{Result, ok, err, errorf, ◌>>=◌}

abbrev pub demo_ns : String
demo_ns = "demo"

abbrev pub api_deployment : String
api_deployment = "demo-api"

abbrev pub api_container : String
api_container = "api"

abbrev pub worker_deploy : String
worker_deploy = "demo-worker"

abbrev pub drifted_memory : String
drifted_memory = "999Mi"

-- `time.Duration`, in nanoseconds, and `int(d.Seconds())`, exact for durations of the program's size.
abbrev pub Duration : Type 0
Duration = ℤ

abbrev pub seconds : ℕ → Duration
seconds n = pos (n * 1000000000)

abbrev pub whole_seconds : Duration → ℤ
whole_seconds (pos n) = pos (n / 1000000000)
whole_seconds (negsuc n) =
    let s : ℕ = suc n / 1000000000 in elim s [ zero ↦ pos 0 | suc m ↦ negsuc m ]

abbrev pub scale_timeout : Duration
scale_timeout = seconds 180

abbrev pub drain_timeout : Duration
drain_timeout = seconds 420

abbrev pub drift_timeout : Duration
drift_timeout = seconds 180

-- The texts "info", "pass" and "fail".
pub data Level : Type 0 where
  info_level : Level
  pass_level : Level
  fail_level : Level

-- A value of `map[string]any`.
pub data Figure : Type 0 where
  number : ℤ → Figure
  word : String → Figure
  null : Figure

pub record Event : Type 0 where
  pub phase : String
  pub message : String
  pub level : Level
  pub metrics : List (String × Figure)

-- What has been emitted, in order.
abbrev pub Events : Type 0
Events = List Event

abbrev pub info : (phase message : String) → Event
info phase message = record { phase = phase; message = message; level = info_level; metrics = [] }

pub record Container : Type 0 where
  pub name : String
  pub limits : List (String × String)

pub record Deployment : Type 0 where
  pub containers : List Container
  pub replicas : ℤ
  pub ready_replicas : ℤ

-- A lookup in a map of strings.
unfoldable pub limit_of : String → List (String × String) → Option String
limit_of k [] = none
limit_of k ((j, v) ∷ m) = if str_eq j k then some v else limit_of k m

-- `value, index, ok` of `memoryLimit`: the value is "" where there is none.
pub record MemoryLimit : Type 0 where
  pub value : String
  pub index : ℕ
  pub found : Bool

abbrev limit_at : ℕ → Option String → MemoryLimit
limit_at i none = record { value = ""; index = i; found = false }
limit_at i (some v) = record { value = v; index = i; found = true }

unfoldable pub memory_limit_from : String → ℕ → List Container → MemoryLimit
unfolding limit_of
memory_limit_from name i [] = record { value = ""; index = 0; found = false }
memory_limit_from name i (c ∷ cs) =
    if str_eq c.name name
    then limit_at i (limit_of "memory" c.limits)
    else memory_limit_from name (i + 1) cs

unfoldable pub memory_limit : Deployment → String → MemoryLimit
unfolding memory_limit_from
memory_limit d container = memory_limit_from container 0 d.containers

-- `minReplicaCount` and `maxReplicaCount` of a ScaledObject, where they are set.
pub record ScaledObject : Type 0 where
  pub min_replica_count : Option ℤ
  pub max_replica_count : Option ℤ

pub record Range : Type 0 where
  pub min_r : ℤ
  pub max_r : ℤ

abbrev int_or : ℤ → Option ℤ → ℤ
int_or d none = d
int_or d (some n) = n

-- `bounds`, of the ScaledObject that was read.
unfoldable pub bounds : (ns name : String) → Result ScaledObject → Result Range
bounds ns name read = do
  s ← read
  if eqb_ℤ (int_or (pos 0) s.max_replica_count) (pos 0)
      then err (
          errorf
            (concat ("no ScaledObject bounds for " ∷ ns ∷ "/" ∷ name ∷ ", is M5 deployed?" ∷ [])))
      else ok (record {
        min_r = int_or (pos 1) s.min_replica_count;
        max_r = int_or (pos 0) s.max_replica_count;
      })
