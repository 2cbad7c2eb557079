-- ===== src/Examples/Dashboards.antt =====
-- A load and a drift demonstration that pass, and a second request that meets a running one.
use cost_risk_aware_gitops_p.Prelude.{◌≡◌, refl, none, some, String, [], ◌∷◌}
use cost_risk_aware_gitops_p.Prelude.Int.{ℤ, pos}
use cost_risk_aware_gitops_p.Results.{Result, ok, err, errorf}
use cost_risk_aware_gitops_p.Dashboard.Demo.{
  Deployment, bounds, memory_limit, memory_limit_from, limit_of, seconds,
}
use cost_risk_aware_gitops_p.Dashboard.Api.{enqueue}
use cost_risk_aware_gitops_p.Dashboard.Load.{
  Reading, LoadRun, done_with, assert_bounds, poll, run_load,
}
use cost_risk_aware_gitops_p.Dashboard.Load.Passing
use cost_risk_aware_gitops_p.Dashboard.Drift.{Look, DriftRun, await_revert, run_drift}
use cost_risk_aware_gitops_p.Dashboard.Drift.Reverting
use cost_risk_aware_gitops_p.Float64.Cents.{Cents, cents_float}
use cost_risk_aware_gitops_p.Dashboard.Server.{drift, load, begin, finish, new_server}
use cost_risk_aware_gitops_p.Dashboard.Status.{StatusReads, handle_status}
use cost_risk_aware_gitops_p.Dashboard.Status.Honesty.{IsHonest, handle_status-IsHonest}
use cost_risk_aware_gitops_p.Dashboard.Server.Exclusion.{
  System, arrives, ends, Reach, start, next, IsExclusive, Reach-IsExclusive,
}

-- One replica at first; the third round finds three, and the queue is empty in the one after the next,
-- when its depth could not be read.
abbrev workers : ℤ → Deployment
workers n = record { containers = []; replicas = n; ready_replicas = n }

abbrev reading : ℤ → Result ℤ → Reading
reading n depth = record {
  deployment = ok (workers n);
  depth = depth;
  at_event = seconds 5;
  at_deadline = seconds 6;
  canceled = none;
}

abbrev load_run : LoadRun
load_run = record {
  scaled_object = ok (record { min_replica_count = none; max_replica_count = some (pos 5) });
  deployment = ok (workers (pos 1));
  enqueued = ok (record { status_code = 202; status = "202 Accepted"; body = err (errorf "") });
  scaling = reading (pos 1) (ok (pos 600)) ∷ reading (pos 3) (ok (pos 500)) ∷ [];
  draining = reading (pos 4) (err (errorf "timeout")) ∷ reading (pos 3) (ok (pos 0)) ∷ [];
}

load_run-passes : (run_load load_run).0 ≡ done_with tt
unfolding run_load poll bounds assert_bounds enqueue
load_run-passes = refl

run_load-IsShown_example : Passing.IsShown load_run (run_load load_run).1
run_load-IsShown_example = Passing.run_load-IsShown load_run load_run-passes

-- The drifted limit is seen twice before it is reverted.
abbrev limited : String → Deployment
limited limit = record {
  containers = record { name = "api"; limits = ("memory", limit) ∷ [] } ∷ [];
  replicas = pos 1;
  ready_replicas = pos 1;
}

abbrev look : String → Look
look limit = record {
  canceled = none;
  deployment = ok (limited limit);
  at_event = seconds 2;
  at_deadline = seconds 2;
}

abbrev drift_run : DriftRun
drift_run = record {
  deployment = ok (limited "128Mi");
  patched = λ index value. ok tt;
  reread = ok (limited "999Mi");
  looks = look "999Mi" ∷ look "128Mi" ∷ [];
}

drift_run-passes : (run_drift drift_run).0 ≡ done_with tt
unfolding run_drift await_revert memory_limit memory_limit_from limit_of
drift_run-passes = refl

run_drift-IsShown_example : Reverting.IsShown drift_run (run_drift drift_run).1
run_drift-IsShown_example = Reverting.run_drift-IsShown drift_run drift_run-passes

-- A load request is served, a drift request is refused, and the first ends.
abbrev after_refusal : System
after_refusal = record { server = record { running = "load" }; runs = load ∷ [] }

served : Reach after_refusal
unfolding begin
served = next (next start (arrives load)) (arrives drift)

abbrev after_end : System
after_end = record { server = record { running = "" }; runs = [] }

ended : Reach after_end
unfolding finish
ended = next served (ends [] load [] refl)

Reach-IsExclusive_example : IsExclusive after_end
Reach-IsExclusive_example = Reach-IsExclusive ended

-- A status whose actual cost could not be read.
abbrev status_reads : StatusReads Cents
status_reads = record {
  apps = err (errorf "forbidden");
  deployment = ok (workers (pos 2));
  scaled_object = ok (record { min_replica_count = none; max_replica_count = some (pos 5) });
  depth = ok (record { status_code = 200; status = "200 OK"; body = ok (pos 7) });
  reserved = ok (record { status = "success"; values = ok "90" ∷ [] });
  actual = ok (record { status = "success"; values = [] });
  cost_age = err (errorf "timeout");
  scan = λ text. ok (pos 9000);
}

handle_status-IsHonest_example : IsHonest status_reads (handle_status status_reads new_server)
handle_status-IsHonest_example = handle_status-IsHonest status_reads new_server
