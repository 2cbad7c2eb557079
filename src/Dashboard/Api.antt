-- ===== src/Dashboard/Api.antt =====
-- dashboard/demo.go: `demoAPI`, the queue's front door.
use cost_risk_aware_gitops_p.Prelude.{ℕ, leb, String, [], ◌∷◌, concat}
use cost_risk_aware_gitops_p.Prelude.Int.{ℤ}
use cost_risk_aware_gitops_p.Results.{Result, ◌>>=◌, ◌>>◌, refuse_if}

-- A response: its status code and text, and the depth that its body decodes to.
pub record Reply : Type 0 where
  pub status_code : ℕ
  pub status : String
  pub body : Result ℤ

-- `queueDepth`, of the response or why there is none.
unfoldable pub queue_depth : Result Reply → Result ℤ
queue_depth read = do
  resp ← read
  refuse_if (leb 300 resp.status_code) (concat ("demo api: " ∷ resp.status ∷ []))
  resp.body

-- `enqueue`
unfoldable pub enqueue : Result Reply → Result (Unit {0})
enqueue read = do
  resp ← read
  refuse_if (leb 300 resp.status_code) (concat ("enqueue: " ∷ resp.status ∷ []))
