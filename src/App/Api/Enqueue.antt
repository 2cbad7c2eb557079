-- ===== src/App/Api/Enqueue.antt =====
-- api/main.go: `handleEnqueue` and `handleQueueDepth`, over the queue.
pub mod Accounting
use cost_risk_aware_gitops_p.Prelude.{
  ◌≡◌, ℕ, zero, suc, ◌+◌, Bool, true, false, String, List, [], ◌∷◌, concat, show_nat, show_int,
}
use cost_risk_aware_gitops_p.Prelude.Int.{ℤ, pos, pos_part, ◌-ℤ◌}
use cost_risk_aware_gitops_p.Results.{Error, Result, ok, err}
use cost_risk_aware_gitops_p.App.Queue.{Time, Job, Redis, enqueue, depth}
use cost_risk_aware_gitops_p.App.Api.Request.{Request, EnqueueRequest, read_request}

-- The store behind the queue, and `JobsEnqueued` by its label.
pub record Api (Store : Type 0) : Type 0 where
  pub store : Store
  pub enqueued_ok : ℕ
  pub enqueued_error : ℕ

pub record EnqueueResponse : Type 0 where
  pub code : ℕ
  pub accepted : ℤ
  pub duration_ms : ℤ
  pub queue_depth : ℤ
  pub message : String

abbrev pub response : (code : ℕ) (message : String) → EnqueueResponse
response code message = record {
  code = code;
  accepted = pos 0;
  duration_ms = pos 0;
  queue_depth = pos 0;
  message = message;
}

-- `UnixNano`
abbrev pub unix_nano : Time → ℤ
unix_nano t = t -ℤ pos 62135596800000000000

abbrev pub job : (now : Time) (duration_ms : ℤ) (i : ℕ) → Job
job now duration_ms i = record {
  id = concat (show_int (unix_nano now) ∷ "-" ∷ show_nat i ∷ []);
  duration_ms = duration_ms;
  enqueued_at = now;
}

-- How far the loop came, and whether it stopped at an error.
pub record Pushed (Store : Type 0) : Type 0 where
  pub accepted : ℕ
  pub stopped : Bool
  pub api : Api Store

module _ {Store : Type 0} (r : Redis Store) where
  abbrev pub count_ok : Store → Api Store → Api Store
  count_ok s api = record api { store = s; enqueued_ok = api.enqueued_ok + 1 }

  abbrev pub count_error : Store → Api Store → Api Store
  count_error s api = record api { store = s; enqueued_error = api.enqueued_error + 1 }

  -- The loop, from its round `i`, with `left` rounds to go.
  unfoldable pub push_jobs : (now : Time) (duration_ms : ℤ) (left i : ℕ) → Api Store → Pushed Store
  unfolding enqueue
  push_jobs now duration_ms zero i api = record { accepted = i; stopped = false; api = api }
  push_jobs now duration_ms (suc left) i api =
      let (answer, s) = enqueue r (job now duration_ms i) api.store in
      elim answer [
        | err e ↦ record { accepted = i; stopped = true; api = count_error s api }
        | ok u ↦ push_jobs now duration_ms left (i + 1) (count_ok s api)
      ]

  -- A depth that cannot be read is reported as 0, and logged.
  abbrev pub depth_or_zero : Result ℤ → ℤ
  depth_or_zero (ok n) = n
  depth_or_zero (err e) = pos 0

  -- After the loop: at an error, what was accepted is reported rather than failing the batch.
  abbrev pub respond :
      (stopped : Bool) → EnqueueRequest → Pushed Store → EnqueueResponse × Api Store
  respond true req p = (
    record {
      code = 503;
      accepted = pos p.accepted;
      duration_ms = req.duration_ms;
      queue_depth = pos 0;
      message = "queue unavailable";
    },
    p.api,
  )
  respond false req p = (
    record {
      code = 202;
      accepted = req.count;
      duration_ms = req.duration_ms;
      queue_depth = depth_or_zero (depth r p.api.store);
      message = "";
    },
    p.api,
  )

  abbrev pub respond_to : EnqueueRequest → Pushed Store → EnqueueResponse × Api Store
  respond_to req p = respond p.stopped req p

  abbrev pub answer_request :
      (now : Time) → Result EnqueueRequest → Api Store → EnqueueResponse × Api Store
  answer_request now (err e) api = (response 400 e.message, api)
  answer_request now (ok req) api =
      respond_to req (push_jobs now req.duration_ms (pos_part req.count) 0 api)

  unfoldable pub handle_enqueue : (now : Time) → Request → Api Store → EnqueueResponse × Api Store
  unfolding read_request push_jobs depth
  handle_enqueue now request api = answer_request now (read_request request) api

  abbrev depth_reply : Result ℤ → ℕ × String
  depth_reply (err e) = (503, "{\"error\":\"queue unavailable\"}")
  depth_reply (ok n) = (200, concat ("{\"queue_depth\":" ∷ show_int n ∷ "}" ∷ []))

  unfoldable pub handle_queue_depth : Api Store → ℕ × String
  unfolding depth
  handle_queue_depth api = depth_reply (depth r api.store)
