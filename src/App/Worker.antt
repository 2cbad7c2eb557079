-- ===== src/App/Worker.antt =====
-- app/cmd/worker/main.go: `consume`, the loop of one consumer.
pub mod Backoff
pub mod Draining
use cost_risk_aware_gitops_p.Prelude.{
  ◌≡◌, ℕ, suc, ◌+◌, ◌*◌, Bool, true, false, not, if◌then◌else◌, ltb, List, [], ◌∷◌, ◌++◌,
}
use cost_risk_aware_gitops_p.Prelude.Int.{ℤ, pos, ◌-ℤ◌, ◌*ℤ◌, eqb_ℤ}
use cost_risk_aware_gitops_p.App.Queue.{
  Time, Job, Fault, Redis, Dequeued, got, empty, failed, dequeue,
}

-- In milliseconds.
abbrev pub backoff_min : ℕ
backoff_min = 500

abbrev pub backoff_max : ℕ
backoff_max = 15000

-- The loop's variable, and the series that it adds to: `JobsProcessed` by its label, `JobWaitTime`
-- and `JobDuration`, in nanoseconds.
pub record Consumer : Type 0 where
  pub backoff : ℕ
  pub processed_error : ℕ
  pub processed_ok : ℕ
  pub wait_times : List ℤ
  pub durations : List ℤ

abbrev pub starting : Consumer
starting = record {
  backoff = backoff_min;
  processed_error = 0;
  processed_ok = 0;
  wait_times = [];
  durations = [];
}

-- What a round meets: whether the context is done at its start and whether it is done before the
-- backoff is over, what the other clients do to the store before the pop, and the clock when the job
-- was received, when its work starts, and when `work.Do` has returned.
pub record Round (Store : Type 0) : Type 0 where
  pub canceled : Bool
  pub canceled_waiting : Bool
  pub others : Store → Store
  pub received : Time
  pub started : Time
  pub finished : Time

-- Whether the loop goes on.
pub data Next : Type 0 where
  return : Next
  continue : Next

abbrev pub next_if : Bool → Next
next_if true = continue
next_if false = return

-- `backoff *= 2`, with its cap. A consumer that returns while it waits does not come to it.
unfoldable pub doubled : ℕ → ℕ
doubled backoff = if ltb backoff_max (backoff * 2) then backoff_max else backoff * 2

unfoldable pub observe_wait : (received : Time) → Job → Consumer → Consumer
observe_wait received job c =
    if eqb_ℤ job.enqueued_at (pos 0)
    then c
    else record c { wait_times = c.wait_times ++ (received -ℤ job.enqueued_at) ∷ [] }

module _ {Store : Type 0} where
  abbrev pub retry : Round Store → Consumer → Consumer × Next
  retry round c =
      if round.canceled_waiting
      then (record c { processed_error = c.processed_error + 1 }, return)
      else (
        record c { processed_error = c.processed_error + 1; backoff = doubled c.backoff },
        continue,
      )

  -- The switch on what `Dequeue` returned, and the rest of the loop's body. Of `work.Do` (App.Work)
  -- the loop sees only when it has returned.
  unfoldable pub handle : Round Store → Dequeued → Consumer → Consumer × Next
  unfolding doubled observe_wait
  handle round empty c = (record c { backoff = backoff_min }, continue)
  handle round (failed f) c = if f.canceled then (c, return) else retry round c
  handle round (got job) c =
      let observed = observe_wait round.received job (record c { backoff = backoff_min }) in
      (
        record observed {
          durations = observed.durations ++ (round.finished -ℤ round.started) ∷ [];
          processed_ok = observed.processed_ok + 1;
        },
        continue,
      )

  module _ (r : Redis Store) where
    -- The loop, over the rounds that the context leaves it.
    unfoldable pub consume : List (Round Store) → Store → Consumer → Consumer × Store
    unfolding handle dequeue
    consume [] s c = (c, s)
    consume (round ∷ rounds) s c = elim round.canceled [
      | true ↦ (c, s)
      | false ↦
          let (reply, s') = dequeue r (round.others s) in
          let (c', next) = handle round reply c in
          elim next [ return ↦ (c', s') | continue ↦ consume rounds s' c' ]
    ]
