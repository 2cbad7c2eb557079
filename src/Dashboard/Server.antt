-- ===== src/Dashboard/Server.antt =====
-- dashboard/main.go: `handleDemo`, which lets one demonstration run at a time.
pub mod Exclusion
use cost_risk_aware_gitops_p.Prelude.{
  ◌≡◌, ℕ, Bool, true, false, not, str_eq, if◌then◌else◌, String, List, [], ◌∷◌, ◌++◌, concat,
}
use cost_risk_aware_gitops_p.Results.{Error}
use cost_risk_aware_gitops_p.Dashboard.Demo.{Event, Events, fail_level}
use cost_risk_aware_gitops_p.Dashboard.Load.{Outcome, done_with, failed, unfinished}

-- The two routes of `handleDemo`.
pub data Demo : Type 0 where
  drift : Demo
  load : Demo

abbrev pub demo_name : Demo → String
demo_name drift = "drift"
demo_name load = "load"

-- `running`, which the mutex guards: each access below is one step.
pub record Server : Type 0 where
  pub running : String

abbrev pub new_server : Server
new_server = record { running = "" }

-- How a request is met: 409 with its text, or a stream.
pub data Begun : Type 0 where
  conflict : String → Begun
  streaming : Begun

abbrev pub is_busy : Server → Bool
is_busy srv = not (str_eq srv.running "")

-- The first critical section.
unfoldable pub begin : Demo → Server → Begun × Server
begin d srv =
    if is_busy srv
    then (conflict (concat ("the " ∷ srv.running ∷ " demonstration is already running" ∷ [])), srv)
    else (streaming, record srv { running = demo_name d })

-- The deferred one.
unfoldable pub finish : Server → Server
finish srv = record srv { running = "" }

abbrev pub fail_event : Demo → Error → Event
fail_event d e = record {
  phase = demo_name d;
  level = fail_level;
  message = e.message;
  metrics = [];
}

-- What is streamed of a demonstration: its events, and its failure, which is not swallowed.
unfoldable pub stream : Demo → Outcome (Unit {0}) × Events → Events
stream d (done_with u, events) = events
stream d (failed e, events) = events ++ fail_event d e ∷ []
stream d (unfinished, events) = events
