-- ===== src/Exporter/Gauges.antt =====
-- exporter/cmd/costexporter/main.go: `collect`, and the gauges that it publishes.
pub mod Cycles
use cost_risk_aware_gitops_p.Prelude.{
  ◌≡◌, ℕ, ◌+◌, Bool, true, false, if◌then◌else◌, Option, none, some, String, List, [], ◌∷◌,
}
use cost_risk_aware_gitops_p.Prelude.Int.{ℤ}
use cost_risk_aware_gitops_p.Results.{Error, Result, ok, err}
use cost_risk_aware_gitops_p.App.Queue.{Time}
use cost_risk_aware_gitops_p.Exporter.Attribution.{Key, key_eq, Cost, key_of}

-- A `GaugeVec` by namespace, workload and basis.
abbrev pub Gauge : Type 0 → Type 0
Gauge F = List (Key × F)

-- What a scrape reads of a label set.
unfoldable pub read : {F : Type 0} → Key → Gauge F → Option F
read k [] = none
read k ((j, v) ∷ g) = if key_eq k j then some v else read k g

-- `With(labels).Set(v)`
unfoldable pub set : {F : Type 0} → Key → F → Gauge F → Gauge F
set k v [] = (k, v) ∷ []
set k v ((j, w) ∷ g) = if key_eq k j then (j, v) ∷ g else (j, w) ∷ set k v g

pub record Gauges (F : Type 0) : Type 0 where
  pub cost_hourly : Gauge F
  pub cost_monthly : Gauge F
  pub cpu_cores : Gauge F
  pub memory_gib : Gauge F
  pub collection_errors : ℕ
  pub last_success : Option Time

-- A cycle: what `Collect` returned, and the time when it has been published.
pub record Cycle (F : Type 0) : Type 0 where
  pub collected : Result (List (Cost F))
  pub published : Time

module _ {F : Type 0} where
  abbrev pub new_gauges : Gauges F
  new_gauges = record {
    cost_hourly = [];
    cost_monthly = [];
    cpu_cores = [];
    memory_gib = [];
    collection_errors = 0;
    last_success = none;
  }

  -- The four calls of `Reset`.
  abbrev pub reset : Gauges F → Gauges F
  reset g = record g { cost_hourly = []; cost_monthly = []; cpu_cores = []; memory_gib = [] }

  unfoldable pub set_cost : Cost F → Gauges F → Gauges F
  unfolding set
  set_cost c g =
      let k = key_of c.usage in
      record g {
        cost_hourly = set k c.hourly_usd g.cost_hourly;
        cost_monthly = set k c.monthly_usd g.cost_monthly;
        cpu_cores = set k c.usage.cpu_cores g.cpu_cores;
        memory_gib = set k c.usage.memory_gib g.memory_gib;
      }

  unfoldable pub set_costs : List (Cost F) → Gauges F → Gauges F
  unfolding set_cost
  set_costs [] g = g
  set_costs (c ∷ cs) g = set_costs cs (set_cost c g)

  unfoldable pub publish :
      (collected : Result (List (Cost F))) (published : Time) → Gauges F → Gauges F
  unfolding set_costs
  publish (err e) published g = record g { collection_errors = g.collection_errors + 1 }
  publish (ok costs) published g = record (set_costs costs (reset g)) {
    last_success = some published;
  }

  -- The loop, over the cycles that it makes before the context is done.
  unfoldable pub collect_cycles : List (Cycle F) → Gauges F → Gauges F
  unfolding publish
  collect_cycles [] g = g
  collect_cycles (c ∷ cs) g = collect_cycles cs (publish c.collected c.published g)
