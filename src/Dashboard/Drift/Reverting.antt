-- ===== src/Dashboard/Drift/Reverting.antt =====
-- runs.go: what a drift demonstration that passes has shown.
use cost_risk_aware_gitops_p.Prelude.{
  ◌≡◌, ◌≢◌, refl, Bool, true, false, not, ◌||◌, str_eq, eq_iff, String, arith,
}
use cost_risk_aware_gitops_p.Results.{Result, ok, err}
use cost_risk_aware_gitops_p.Dashboard.Demo.{
  api_container, drifted_memory, Events, Deployment, MemoryLimit, memory_limit,
}
use cost_risk_aware_gitops_p.Dashboard.Load.{done_with}
use cost_risk_aware_gitops_p.Dashboard.Drift.{
  current_limit, DriftRun, after_drift, after_reread, after_patch, after_declared, after_limit,
  after_first_read, run_drift,
}
use cost_risk_aware_gitops_p.Dashboard.Drift.Awaiting.{Reverts, await_revert-Reverts}

-- What a drift demonstration has shown.
pub record IsShown (run : DriftRun) (events : Events) : Type 0 where
  pub first : Deployment
  pub first_read : run.deployment ≡ ok first
  pub limit_found : (memory_limit first api_container).found ≡ true
  pub limit_given : current_limit first ≢ ""
  pub not_drifted : current_limit first ≢ drifted_memory
  pub patched : run.patched (memory_limit first api_container).index drifted_memory ≡ ok tt
  pub second : Deployment
  pub second_read : run.reread ≡ ok second
  pub drifted : current_limit second ≡ drifted_memory
  pub reverted : Reverts (current_limit first) run.looks events

-- From the second read on.
record IsApplied (declared : String) (run : DriftRun) (events : Events) : Type 0 where
  second : Deployment
  second_read : run.reread ≡ ok second
  drifted : current_limit second ≡ drifted_memory
  reverted : Reverts declared run.looks events

drift-IsApplied :
    (applied : Bool) (dep : Deployment) (declared : String) (run : DriftRun) (events : Events)
    → run.reread ≡ ok dep
    → str_eq (current_limit dep) drifted_memory ≡ applied
    → (after_drift applied (current_limit dep) declared run events).0 ≡ done_with tt
    → IsApplied declared run (after_drift applied (current_limit dep) declared run events).1
drift-IsApplied false dep declared run events r s h = ground arith
drift-IsApplied true dep declared run events r s h = record {
  second = dep;
  second_read = r;
  drifted = (eq_iff (current_limit dep) drifted_memory).0 s;
  reverted = await_revert-Reverts declared run.looks _ h;
}

reread-IsApplied :
    (read : Result Deployment) (declared : String) (run : DriftRun) (events : Events)
    → run.reread ≡ read
    → (after_reread read declared run events).0 ≡ done_with tt
    → IsApplied declared run (after_reread read declared run events).1
reread-IsApplied (err e) declared run events r h = ground arith
reread-IsApplied (ok dep) declared run events r h =
    drift-IsApplied (str_eq (current_limit dep) drifted_memory) dep declared run events r refl h

patch-IsApplied :
    (answer : Result (Unit {0})) (declared : String) (run : DriftRun) (events : Events)
    → (after_patch answer declared run events).0 ≡ done_with tt
    → (answer ≡ ok tt) × IsApplied declared run (after_patch answer declared run events).1
patch-IsApplied (err e) declared run events h = ground arith
patch-IsApplied (ok u) declared run events h =
    (refl, reread-IsApplied run.reread declared run events refl h)

-- The declared limit is another than the drifted one.
declared-IsApplied :
    (pointless : Bool) (limit : MemoryLimit) (run : DriftRun) (events : Events)
    → str_eq limit.value drifted_memory ≡ pointless
    → (after_declared pointless limit run events).0 ≡ done_with tt
    → (limit.value ≢ drifted_memory)
      × (run.patched limit.index drifted_memory ≡ ok tt)
      × IsApplied limit.value run (after_declared pointless limit run events).1
declared-IsApplied true limit run events p h = ground arith
declared-IsApplied false limit run events p h =
    let (answered, applied) =
      patch-IsApplied (run.patched limit.index drifted_memory) limit.value run _ h in
    (λ e. (let equal = (eq_iff limit.value drifted_memory).1 e in ground arith), answered, applied)

limit-IsShown :
    (missing : Bool) (dep : Deployment) (run : DriftRun) (events : Events)
    → run.deployment ≡ ok dep
    → (not (memory_limit dep api_container).found || str_eq (current_limit dep) "") ≡ missing
    → (after_limit missing (memory_limit dep api_container) run events).0 ≡ done_with tt
    → IsShown run (after_limit missing (memory_limit dep api_container) run events).1
limit-IsShown true dep run events d m h = ground arith
limit-IsShown false dep run events d m h =
    let limit = memory_limit dep api_container in
    let (other, patched, applied) =
      declared-IsApplied (str_eq limit.value drifted_memory) limit run _ refl h in
    record {
      first = dep;
      first_read = d;
      limit_found = ground arith;
      limit_given = λ e. (let equal = (eq_iff limit.value "").1 e in ground arith);
      not_drifted = other;
      patched = patched;
      second = applied.second;
      second_read = applied.second_read;
      drifted = applied.drifted;
      reverted = applied.reverted;
    }

first_read-IsShown :
    (read : Result Deployment) (run : DriftRun) (events : Events)
    → run.deployment ≡ read
    → (after_first_read read run events).0 ≡ done_with tt
    → IsShown run (after_first_read read run events).1
first_read-IsShown (err e) run events d h = ground arith
first_read-IsShown (ok dep) run events d h =
    limit-IsShown (not (memory_limit dep api_container).found || str_eq (current_limit dep) "") dep
      run events d refl h

-- A drift demonstration that passes has read a limit that is given and is not the drifted one, has
-- patched the container that has it, has read the drifted limit back, and has then waited until it
-- read the first limit again: until then every look could be read and showed another; and the last
-- event says that it passed.
pub run_drift-IsShown :
    (run : DriftRun) → (run_drift run).0 ≡ done_with tt → IsShown run (run_drift run).1
unfolding run_drift
run_drift-IsShown run h = first_read-IsShown run.deployment run _ refl h
