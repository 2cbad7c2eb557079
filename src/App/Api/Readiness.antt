-- ===== src/App/Api/Readiness.antt =====
-- api/main.go: `publishQueueDepth`, the readiness that it keeps, and the two probes' handlers.
pub mod Streaks
use cost_risk_aware_gitops_p.Prelude.{
  ◌≡◌, ℕ, ◌+◌, Bool, true, false, not, leb, if◌then◌else◌, String, List, [], ◌∷◌,
}
use cost_risk_aware_gitops_p.Prelude.Int.{ℤ, pos}
use cost_risk_aware_gitops_p.Results.{Error, Result, ok, err}

-- The server's flag, the loop's variable, and the two series. The gauge is a float that holds the
-- depth, exact below 2 ^ 53.
pub record Server : Type 0 where
  pub ready : Bool
  pub consecutive_failures : ℕ
  pub scrape_errors : ℕ
  pub queue_depth : ℤ

abbrev pub new_server : Server
new_server = record {
  ready = false;
  consecutive_failures = 0;
  scrape_errors = 0;
  queue_depth = pos 0;
}

-- One round of the loop: the probe returned a depth or an error. What is logged is left out, and
-- `Swap` is the assignment.
unfoldable pub publish : Result ℤ → Server → Server
publish (ok depth) srv = record srv { consecutive_failures = 0; queue_depth = depth; ready = true }
publish (err e) srv = record srv {
  scrape_errors = srv.scrape_errors + 1;
  consecutive_failures = srv.consecutive_failures + 1;
  ready = if leb 3 (srv.consecutive_failures + 1) then false else srv.ready;
}

-- The loop, over the probes that it makes before the context is done.
unfoldable pub publish_queue_depth : List (Result ℤ) → Server → Server
unfolding publish
publish_queue_depth [] srv = srv
publish_queue_depth (probe ∷ probes) srv = publish_queue_depth probes (publish probe srv)

-- The status and the body.
abbrev pub HttpReply : Type 0
HttpReply = ℕ × String

unfoldable pub handle_live : Server → HttpReply
handle_live srv = (200, "ok")

unfoldable pub handle_ready : Server → HttpReply
handle_ready srv = if not srv.ready then (503, "queue unreachable") else (200, "ready")
