-- ===== src/Dashboard/Load/Passing.antt =====
-- runs.go: what a load demonstration that passes has shown.
use cost_risk_aware_gitops_p.Prelude.{◌≡◌, refl, [], ◌∷◌, ◌++◌, arith}
use cost_risk_aware_gitops_p.Prelude.Int.{ℤ}
use cost_risk_aware_gitops_p.Results.{Result, ok, err}
use cost_risk_aware_gitops_p.Dashboard.Demo.{
  demo_ns, worker_deploy, Events, Deployment, Range, bounds, scale_timeout, drain_timeout,
}
use cost_risk_aware_gitops_p.Dashboard.Load.{
  Outcome, done_with, failed, unfinished, poll, LoadRun, more_than, is_drained, max_ℤ, passed_event,
  after_draining, after_scaling, after_enqueue, after_deployment, after_bounds, run_load,
}
use cost_risk_aware_gitops_p.Dashboard.Api.{enqueue}
use cost_risk_aware_gitops_p.Dashboard.Load.Polling.{Reaches, poll-Reaches}

-- What a load demonstration has shown.
pub record IsShown (run : LoadRun) (events : Events) : Type 0 where
  pub range : Range
  pub authorised : bounds demo_ns worker_deploy run.scaled_object ≡ ok range
  pub start : Deployment
  pub started : run.deployment ≡ ok start
  pub enqueued : enqueue run.enqueued ≡ ok tt
  pub scaled : Reaches range (more_than start.replicas) run.scaling
  pub drained : Reaches range is_drained run.draining
  pub peak : ℤ
  pub earlier : Events
  pub told : events ≡ earlier ++ passed_event range peak ∷ []

-- Of the two polls.
record IsPolled (range : Range) (start : ℤ) (run : LoadRun) (events : Events) : Type 0 where
  scaled : Reaches range (more_than start) run.scaling
  drained : Reaches range is_drained run.draining
  peak : ℤ
  earlier : Events
  told : events ≡ earlier ++ passed_event range peak ∷ []

module _ (range : Range) (start : ℤ) (run : LoadRun) where
  draining-IsPolled :
      (peak : ℤ) (events : Events) (o : Outcome ℤ × Events)
      → Reaches range (more_than start) run.scaling
      → poll range drain_timeout "drain" is_drained run.draining start events ≡ o
      → (after_draining range peak o).0 ≡ done_with tt
      → IsPolled range start run (after_draining range peak o).1
  draining-IsPolled peak events (unfinished, es) s e h = ground arith
  draining-IsPolled peak events (failed x, es) s e h = ground arith
  draining-IsPolled peak events (done_with p, es) s e h = record {
    scaled = s;
    drained = poll-Reaches range drain_timeout "drain" is_drained run.draining start events p es e;
    peak = max_ℤ peak p;
    earlier = es;
    told = refl;
  }

  scaling-IsPolled :
      (events : Events) (o : Outcome ℤ × Events)
      → poll range scale_timeout "scale-up" (more_than start) run.scaling start events ≡ o
      → (after_scaling range start run.draining o).0 ≡ done_with tt
      → IsPolled range start run (after_scaling range start run.draining o).1
  scaling-IsPolled events (unfinished, es) e h = ground arith
  scaling-IsPolled events (failed x, es) e h = ground arith
  scaling-IsPolled events (done_with p, es) e h =
      draining-IsPolled p _ _
        (poll-Reaches range scale_timeout "scale-up" (more_than start) run.scaling start events p es
          e)
        refl h

  enqueue-IsPolled :
      (enqueued : Result (Unit {0})) (events : Events)
      → (after_enqueue range start run enqueued events).0 ≡ done_with tt
      → (enqueued ≡ ok tt)
        × IsPolled range start run (after_enqueue range start run enqueued events).1
  enqueue-IsPolled (err e) events h = ground arith
  enqueue-IsPolled (ok u) events h = (refl, scaling-IsPolled _ _ refl h)

deployment-IsShown :
    (range : Range) (run : LoadRun) (read : Result Deployment) (events : Events)
    → bounds demo_ns worker_deploy run.scaled_object ≡ ok range
    → run.deployment ≡ read
    → (after_deployment range run read events).0 ≡ done_with tt
    → IsShown run (after_deployment range run read events).1
deployment-IsShown range run (err e) events b d h = ground arith
deployment-IsShown range run (ok dep) events b d h =
    let (enqueued, p) = enqueue-IsPolled range dep.replicas run (enqueue run.enqueued) _ h in
    record {
      range = range;
      authorised = b;
      start = dep;
      started = d;
      enqueued = enqueued;
      scaled = p.scaled;
      drained = p.drained;
      peak = p.peak;
      earlier = p.earlier;
      told = p.told;
    }

bounds-IsShown :
    (run : LoadRun) (read : Result Range)
    → bounds demo_ns worker_deploy run.scaled_object ≡ read
    → (after_bounds run read).0 ≡ done_with tt
    → IsShown run (after_bounds run read).1
bounds-IsShown run (err e) b h = ground arith
bounds-IsShown run (ok range) b h = deployment-IsShown range run run.deployment _ b refl h

-- A load demonstration that passes has read the authorised range and the replicas at the start, has
-- put its jobs on the queue, has then seen more replicas than at the start, and after that an empty
-- queue; in every round up to these the replicas could be read and were within the range; and the
-- last event that it has emitted says that it passed.
pub run_load-IsShown :
    (run : LoadRun) → (run_load run).0 ≡ done_with tt → IsShown run (run_load run).1
unfolding run_load
run_load-IsShown run h = bounds-IsShown run (bounds demo_ns worker_deploy run.scaled_object) refl h
