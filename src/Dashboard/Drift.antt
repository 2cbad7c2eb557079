-- ===== src/Dashboard/Drift.antt =====
-- dashboard/runs.go: `runDrift`, which shows that a manual change is reverted to what Git declares.
pub mod Awaiting
pub mod Reverting
use cost_risk_aware_gitops_p.Prelude.{
  ◌≡◌, ℕ, Bool, true, false, not, ◌||◌, str_eq, Option, none, some, String, List, [], ◌∷◌, ◌++◌,
  concat, show_int, quote,
}
use cost_risk_aware_gitops_p.Prelude.Int.{ltb_ℤ}
use cost_risk_aware_gitops_p.Results.{Error, Result, ok, err, errorf}
use cost_risk_aware_gitops_p.Dashboard.Demo.{
  demo_ns, api_deployment, api_container, drifted_memory, drift_timeout, Duration, whole_seconds,
  info_level, pass_level, number, word, Event, Events, info, Deployment, MemoryLimit, memory_limit,
}
use cost_risk_aware_gitops_p.Dashboard.Load.{Outcome, done_with, failed, unfinished, prefix_error}

abbrev phase : String
phase = "drift"

-- What a round of the wait meets: the context's error where it is done before the tick, the
-- deployment as it was read, and the time since the start, at its event and at its deadline.
pub record Look : Type 0 where
  pub canceled : Option Error
  pub deployment : Result Deployment
  pub at_event : Duration
  pub at_deadline : Duration

abbrev pub current_limit : Deployment → String
current_limit dep = (memory_limit dep api_container).value

abbrev pub reverted_event : (declared : String) → Look → Event
reverted_event declared x = record {
  phase = phase;
  level = pass_level;
  message = concat (
      "Reverted after about "
      ∷ show_int (whole_seconds x.at_event)
      ∷ "s, with no human involved. Live state was corrected to match Git."
      ∷ []);
  metrics =
      ("elapsed_seconds", number (whole_seconds x.at_event)) ∷ ("restored", word declared) ∷ [];
}

abbrev pub still_event : (current : String) → Look → Event
still_event current x = record {
  phase = phase;
  level = info_level;
  message = concat ("t+" ∷ show_int (whole_seconds x.at_event) ∷ "s, still " ∷ current ∷ []);
  metrics = ("elapsed_seconds", number (whole_seconds x.at_event)) ∷ ("current", word current) ∷ [];
}

abbrev pub survived : Error
survived = errorf (
    concat (
      "the manual change survived "
      ∷ show_int (whole_seconds drift_timeout)
      ∷ "s, self-heal is not reverting drift"
      ∷ []))

module _ (declared : String) where
  -- The end of a round, before `later`, the rounds below it.
  abbrev pub check_deadline :
      (late : Bool) (told : Events) (later : Outcome (Unit {0}) × Events)
      → Outcome (Unit {0}) × Events
  check_deadline true told later = (failed survived, told)
  check_deadline false told later = later

  abbrev pub check_reverted :
      (reverted : Bool)
      → Look
      → (current : String) (events : Events) (later : Events → Outcome (Unit {0}) × Events)
      → Outcome (Unit {0}) × Events
  check_reverted true x current events later =
      (done_with tt, events ++ reverted_event declared x ∷ [])
  check_reverted false x current events later =
      check_deadline (ltb_ℤ drift_timeout x.at_deadline) (events ++ still_event current x ∷ [])
        (later (events ++ still_event current x ∷ []))

  abbrev pub check_read :
      Result Deployment
      → Look
      → (events : Events) (later : Events → Outcome (Unit {0}) × Events)
      → Outcome (Unit {0}) × Events
  check_read (err e) x events later =
      (failed (prefix_error "lost sight of the deployment" e), events)
  check_read (ok dep) x events later =
      check_reverted (str_eq (current_limit dep) declared) x (current_limit dep) events later

  abbrev pub check_tick :
      Option Error
      → Look
      → (events : Events) (later : Events → Outcome (Unit {0}) × Events)
      → Outcome (Unit {0}) × Events
  check_tick (some e) x events later = (failed e, events)
  check_tick none x events later = check_read x.deployment x events later

  -- The loop that waits.
  unfoldable pub await_revert : List Look → (events : Events) → Outcome (Unit {0}) × Events
  unfolding memory_limit
  await_revert [] events = (unfinished, events)
  await_revert (x ∷ xs) events = check_tick x.canceled x events (λ told. await_revert xs told)

-- What the demonstration meets outside: the deployment when it is read first, the answer of the patch
-- of the container's limit, the deployment when it is read again, and the rounds of the wait.
pub record DriftRun : Type 0 where
  pub deployment : Result Deployment
  pub patched : (index : ℕ) (value : String) → Result (Unit {0})
  pub reread : Result Deployment
  pub looks : List Look

abbrev pub applied_event : Event
applied_event = record {
  phase = phase;
  level = info_level;
  message =
      "Drift applied, the cluster now disagrees with Git. Nobody is going to fix this by hand.";
  metrics = ("current", word drifted_memory) ∷ [];
}

abbrev pub after_drift :
    (applied : Bool) (now : String) (declared : String)
    → DriftRun
    → (events : Events) → Outcome (Unit {0}) × Events
after_drift false now declared run events = (
  failed (
      errorf (
        concat (
          "the drift did not apply (limit reads "
          ∷ quote now
          ∷ "), so there is nothing to detect"
          ∷ []))),
  events,
)
after_drift true now declared run events = await_revert declared run.looks (
    events
    ++ applied_event
      ∷ info phase (
          concat (
            "Waiting for the platform to revert it, unattended (up to "
            ∷ show_int (whole_seconds drift_timeout)
            ∷ "s)…"
            ∷ []))
      ∷ [])

abbrev pub after_reread :
    Result Deployment
    → (declared : String) → DriftRun
    → (events : Events) → Outcome (Unit {0}) × Events
after_reread (err e) declared run events =
    (failed (prefix_error "could not re-read the deployment" e), events)
after_reread (ok dep) declared run events =
    after_drift (str_eq (current_limit dep) drifted_memory) (current_limit dep) declared run events

abbrev pub after_patch :
    Result (Unit {0})
    → (declared : String) → DriftRun
    → (events : Events) → Outcome (Unit {0}) × Events
after_patch (err e) declared run events =
    (failed (prefix_error "could not apply the drift" e), events)
after_patch (ok u) declared run events = after_reread run.reread declared run events

abbrev pub declared_event : (declared : String) → Event
declared_event declared = record {
  phase = phase;
  level = info_level;
  message = concat ("Git declares a memory limit of " ∷ declared ∷ "." ∷ []);
  metrics = ("declared", word declared) ∷ [];
}

-- A test whose declared value is the drifted one would prove nothing.
abbrev pub after_declared :
    (pointless : Bool) → MemoryLimit → DriftRun → (events : Events) → Outcome (Unit {0}) × Events
after_declared true limit run events = (
  failed (
      errorf (
        concat (
          "the declared value is already " ∷ drifted_memory ∷ ", so the test would prove nothing"
          ∷ []))),
  events,
)
after_declared false limit run events =
    after_patch (run.patched limit.index drifted_memory) limit.value run (
      events
      ++ info phase (
          concat (
            "Editing the live cluster directly, setting the limit to " ∷ drifted_memory
            ∷ ", the way an engineer would at 3am." ∷ []))
        ∷ [])

abbrev pub after_limit :
    (missing : Bool) → MemoryLimit → DriftRun → (events : Events) → Outcome (Unit {0}) × Events
after_limit true limit run events = (
  failed (
      errorf (
        concat (
          "no memory limit on container "
          ∷ quote api_container
          ∷ ", is the workload deployed?"
          ∷ []))),
  events,
)
after_limit false limit run events =
    after_declared (str_eq limit.value drifted_memory) limit run
      (events ++ declared_event limit.value ∷ [])

abbrev pub after_first_read :
    Result Deployment → DriftRun → (events : Events) → Outcome (Unit {0}) × Events
after_first_read (err e) run events =
    (failed (prefix_error "could not read the deployment" e), events)
after_first_read (ok dep) run events =
    let limit = memory_limit dep api_container in
    after_limit (not limit.found || str_eq limit.value "") limit run events

-- `runDrift`: its error or nil, and what it emitted.
unfoldable pub run_drift : DriftRun → Outcome (Unit {0}) × Events
unfolding await_revert memory_limit
run_drift run = after_first_read run.deployment run (
    info phase
      (concat ("Reading what Git declares for " ∷ demo_ns ∷ "/" ∷ api_deployment ∷ "…" ∷ []))
    ∷ [])
