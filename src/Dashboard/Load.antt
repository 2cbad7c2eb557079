-- ===== src/Dashboard/Load.antt =====
-- dashboard/runs.go: `runLoad`, which shows that demand drives replicas and that the backlog clears.
pub mod Polling
pub mod Passing
use cost_risk_aware_gitops_p.Prelude.{
  ◌≡◌, Bool, true, false, if◌then◌else◌, Option, none, some, String, List, [], ◌∷◌, ◌++◌, concat,
  show_int,
}
use cost_risk_aware_gitops_p.Prelude.Int.{ℤ, pos, ltb_ℤ, eqb_ℤ}
use cost_risk_aware_gitops_p.Results.{Error, Result, ok, err, errorf, ◌>>=◌, ◌>>◌, refuse_if}
use cost_risk_aware_gitops_p.Dashboard.Demo.{
  demo_ns, worker_deploy, Duration, whole_seconds, scale_timeout, drain_timeout, info_level,
  pass_level, Figure, number, word, null, Event, Events, info, Deployment, ScaledObject, Range,
  bounds,
}
use cost_risk_aware_gitops_p.Dashboard.Api.{Reply, enqueue}

abbrev phase : String
phase = "load"

-- `assertBounds`
unfoldable pub assert_bounds : Range → (r : ℤ) → Result (Unit {0})
assert_bounds range r = do
  refuse_if (ltb_ℤ range.max_r r) (
      concat (
        "replicas reached "
        ∷ show_int r
        ∷ ", above the authorised maximum of "
        ∷ show_int range.max_r
        ∷ []))
  refuse_if (ltb_ℤ r range.min_r) (
      concat (
        "replicas fell to "
        ∷ show_int r
        ∷ ", below the authorised minimum of "
        ∷ show_int range.min_r
        ∷ []))

-- What a round of `poll` meets: the deployment and the queue's depth as they were read, the time since
-- the start at its event and at its deadline, and the context's error where it is done before the
-- next tick.
pub record Reading : Type 0 where
  pub deployment : Result Deployment
  pub depth : Result ℤ
  pub at_event : Duration
  pub at_deadline : Duration
  pub canceled : Option Error

-- The end of a demonstration or of a part of it; `unfinished` where the rounds given end before it.
pub data Outcome {ℓ} (A : Type ℓ) : Type ℓ where
  done_with : A → Outcome A
  failed : Error → Outcome A
  unfinished : Outcome A

abbrev pub format_depth : Result ℤ → String
format_depth (ok n) = show_int n
format_depth (err e) = "an unknown number of"

abbrev pub depth_figure : Result ℤ → Figure
depth_figure (ok n) = number n
depth_figure (err e) = null

abbrev pub poll_event : (stage : String) (r : ℤ) → Reading → Event
poll_event stage r x = record {
  phase = phase;
  level = info_level;
  message = concat (
      "t+"
      ∷ show_int (whole_seconds x.at_event)
      ∷ "s - "
      ∷ show_int r
      ∷ " replica(s), "
      ∷ format_depth x.depth
      ∷ " job(s) queued"
      ∷ []);
  metrics =
      ("replicas", number r) ∷ ("queue_depth", depth_figure x.depth) ∷ ("stage", word stage) ∷ [];
}

-- `depthErr == nil && done(r, depth)`
abbrev pub is_done : (done : ℤ → ℤ → Bool) (r : ℤ) → Result ℤ → Bool
is_done done r (ok depth) = done r depth
is_done done r (err e) = false

abbrev pub prefix_error : String → Error → Error
prefix_error p e = record e { message = concat (p ∷ ": " ∷ e.message ∷ []) }

module _ (range : Range) (deadline : Duration) (stage : String) (done : ℤ → ℤ → Bool) where
  abbrev pub too_late : Error
  too_late =
      errorf
        (concat (stage ∷ " did not happen within " ∷ show_int (whole_seconds deadline) ∷ "s" ∷ []))

  -- The end of a round, before `later`, the rounds below it.
  abbrev pub next_tick :
      (late : Bool) (canceled : Option Error) (told : Events) (later : Outcome ℤ × Events)
      → Outcome ℤ × Events
  next_tick true canceled told later = (failed too_late, told)
  next_tick false (some e) told later = (failed e, told)
  next_tick false none told later = later

  abbrev pub check_done :
      (finished : Bool)
      → Reading
      → (peak : ℤ) (told : Events) (later : ℤ → Events → Outcome ℤ × Events) → Outcome ℤ × Events
  check_done true x peak told later = (done_with peak, told)
  check_done false x peak told later =
      next_tick (ltb_ℤ deadline x.at_deadline) x.canceled told (later peak told)

  abbrev pub check_range :
      Result (Unit {0})
      → (r : ℤ) → Reading
      → (peak : ℤ) (events : Events) (later : ℤ → Events → Outcome ℤ × Events) → Outcome ℤ × Events
  check_range (err e) r x peak events later = (failed e, events)
  check_range (ok u) r x peak events later =
      check_done (is_done done r x.depth) x (if ltb_ℤ peak r then r else peak)
        (events ++ poll_event stage r x ∷ []) later

  abbrev pub check_deployment :
      Result Deployment
      → Reading
      → (peak : ℤ) (events : Events) (later : ℤ → Events → Outcome ℤ × Events) → Outcome ℤ × Events
  check_deployment (err e) x peak events later =
      (failed (prefix_error "lost sight of the worker tier" e), events)
  check_deployment (ok dep) x peak events later =
      check_range (assert_bounds range dep.replicas) dep.replicas x peak events later

  -- `poll`, from its highest count so far.
  unfoldable pub poll : List Reading → (peak : ℤ) (events : Events) → Outcome ℤ × Events
  unfolding assert_bounds
  poll [] peak events = (unfinished, events)
  poll (x ∷ xs) peak events =
      check_deployment x.deployment x peak events (λ peak told. poll xs peak told)

-- What the demonstration meets outside.
pub record LoadRun : Type 0 where
  pub scaled_object : Result ScaledObject
  pub deployment : Result Deployment
  pub enqueued : Result Reply
  pub scaling : List Reading
  pub draining : List Reading

abbrev pub more_than : ℤ → ℤ → ℤ → Bool
more_than start r depth = ltb_ℤ start r

abbrev pub is_drained : ℤ → ℤ → Bool
is_drained r depth = eqb_ℤ depth (pos 0)

abbrev pub max_ℤ : ℤ → ℤ → ℤ
max_ℤ a b = if ltb_ℤ a b then b else a

abbrev pub passed_event : Range → (peak : ℤ) → Event
passed_event range peak = record {
  phase = phase;
  level = pass_level;
  message = concat (
      "Demand rose, replicas followed to "
      ∷ show_int peak
      ∷ " (never leaving "
      ∷ show_int range.min_r
      ∷ "–"
      ∷ show_int range.max_r
      ∷ "), and the backlog cleared. Scale-down is deliberately slow, so replicas settle back to "
      ∷ show_int range.min_r
      ∷ " over the next few minutes."
      ∷ []);
  metrics =
      ("peak_replicas", number peak)
      ∷ ("min", number range.min_r)
      ∷ ("max", number range.max_r)
      ∷ [];
}

-- After the second poll, with the peak of the first.
abbrev pub after_draining : Range → (peak : ℤ) → Outcome ℤ × Events → Outcome (Unit {0}) × Events
after_draining range peak (unfinished, events) = (unfinished, events)
after_draining range peak (failed e, events) =
    (failed (prefix_error "the backlog did not clear" e), events)
after_draining range peak (done_with drain_peak, events) =
    (done_with tt, events ++ passed_event range (max_ℤ peak drain_peak) ∷ [])

abbrev pub scaled_event : (peak : ℤ) → Event
scaled_event peak = record {
  phase = phase;
  level = info_level;
  message = concat ("Scaled up to " ∷ show_int peak ∷ " replicas." ∷ []);
  metrics = ("peak_replicas", number peak) ∷ [];
}

abbrev pub after_scaling :
    Range → (start : ℤ) → List Reading → Outcome ℤ × Events → Outcome (Unit {0}) × Events
after_scaling range start draining (unfinished, events) = (unfinished, events)
after_scaling range start draining (failed e, events) =
    (failed (prefix_error "demand rose but replicas did not" e), events)
after_scaling range start draining (done_with peak, events) = after_draining range peak (
    poll range drain_timeout "drain" is_drained draining start (
      events
      ++ scaled_event peak
        ∷ info phase
            "Waiting for the backlog to drain. This is what proves the extra replicas did the work."
        ∷ []))

abbrev pub start_event : Range → (start : ℤ) → Event
start_event range start = record {
  phase = phase;
  level = info_level;
  message = concat ("Starting at " ∷ show_int start ∷ " replica(s)." ∷ []);
  metrics =
      ("replicas", number start) ∷ ("min", number range.min_r) ∷ ("max", number range.max_r) ∷ [];
}

abbrev pub after_enqueue :
    Range → (start : ℤ) → LoadRun → Result (Unit {0}) → Events → Outcome (Unit {0}) × Events
after_enqueue range start run (err e) events =
    (failed (prefix_error "could not reach the demo API to enqueue work" e), events)
after_enqueue range start run (ok u) events = after_scaling range start run.draining (
    poll range scale_timeout "scale-up" (more_than start) run.scaling start
      (events ++ info phase "Watching for the platform to respond…" ∷ []))

abbrev pub after_deployment :
    Range → LoadRun → Result Deployment → Events → Outcome (Unit {0}) × Events
after_deployment range run (err e) events =
    (failed (prefix_error "could not read the worker deployment" e), events)
after_deployment range run (ok dep) events =
    after_enqueue range dep.replicas run (enqueue run.enqueued) (
      events
      ++ start_event range dep.replicas
        ∷ info phase
            "Putting 600 jobs on the queue. Nothing is being reconfigured, the system reacts on its own."
        ∷ [])

abbrev pub after_bounds : LoadRun → Result Range → Outcome (Unit {0}) × Events
after_bounds run (err e) = (failed e, [])
after_bounds run (ok range) = after_deployment range run run.deployment (
    info phase (
      concat (
        "Worker tier is authorised to run between "
        ∷ show_int range.min_r
        ∷ " and "
        ∷ show_int range.max_r
        ∷ " replicas."
        ∷ []))
    ∷ [])

-- `runLoad`: its error or nil, and what it emitted.
unfoldable pub run_load : LoadRun → Outcome (Unit {0}) × Events
unfolding poll bounds enqueue
run_load run = after_bounds run (bounds demo_ns worker_deploy run.scaled_object)
