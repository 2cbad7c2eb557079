-- ===== src/Examples/Exports.antt =====
-- A Prometheus that knows one workload, and the cycles of an exporter.
use cost_risk_aware_gitops_p.Prelude.{◌≡◌, ◌⊎◌, refl, some, String, List, [], ◌∷◌}
use cost_risk_aware_gitops_p.Prelude.Int.{pos}
use cost_risk_aware_gitops_p.Float64.Cents.{Cents, cents_float}
use cost_risk_aware_gitops_p.Results.{Error, Result, ok, err, errorf}
use cost_risk_aware_gitops_p.Exporter.Prometheus.{Sample}
use cost_risk_aware_gitops_p.Exporter.Attribution.{
  actual, Key, Cost, Usage, queries, cost_of, collect, key_eq,
}
use cost_risk_aware_gitops_p.Exporter.Attribution.Footprint.{Read}
use cost_risk_aware_gitops_p.Exporter.Attribution.Costs.{AreAttributed}
use cost_risk_aware_gitops_p.Exporter.Attribution.Outcome.{Answered, Fails, collect_lem}
use cost_risk_aware_gitops_p.Exporter.Gauges.{Cycle, new_gauges, read, collect_cycles}
use cost_risk_aware_gitops_p.Exporter.Gauges.Cycles.{Scraped, collect_cycles-Scraped}
use cost_risk_aware_gitops_p.Examples.Data.{rates}

-- Each query finds two cores, or two bytes, of one workload.
abbrev prometheus : (text : String) → Result (List (Sample Cents))
prometheus text =
    ok (record { labels = ("namespace", "shop") ∷ ("workload", "web") ∷ []; value = pos 2 } ∷ [])

collect_lem_example :
    ((xs : List (Read Cents)) × Answered rates prometheus (queries "5m") xs
      × ((cs : List (Cost Cents)) × (collect prometheus rates (queries "5m") ≡ ok cs)
          × AreAttributed rates xs cs))
    ⊎ (Fails rates prometheus (queries "5m")
        × ((e : Error) × (collect prometheus rates (queries "5m") ≡ err e)))
collect_lem_example = collect_lem rates prometheus (queries "5m")

-- A cycle that succeeds, and one that fails.
abbrev web_usage : Usage Cents
web_usage = record {
  namespace = "shop";
  workload = "web";
  basis = actual;
  cpu_cores = pos 2;
  memory_gib = pos 1;
}

abbrev web_key : Key
web_key = record { namespace = "shop"; workload = "web"; basis = actual }

abbrev cycles : List (Cycle Cents)
cycles =
    record { collected = ok (cost_of rates web_usage ∷ []); published = pos 100 }
    ∷ record { collected = err (errorf "timeout"); published = pos 130 }
    ∷ []

collect_cycles-Scraped_example : Scraped cycles (collect_cycles cycles new_gauges)
collect_cycles-Scraped_example = collect_cycles-Scraped cycles

web_read : read web_key (collect_cycles cycles new_gauges).cpu_cores ≡ some (pos 2)
unfolding collect_cycles read key_eq cost_of
web_read = refl
