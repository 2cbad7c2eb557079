-- ===== src/Examples/Reports.antt =====
-- A failed verdict, and the comment that is written of it.
use cost_risk_aware_gitops_p.Prelude.{false, [], ◌∷◌}
use cost_risk_aware_gitops_p.Prelude.Int.{pos}
use cost_risk_aware_gitops_p.Float64.Cents.{Cents, cents_float}
use cost_risk_aware_gitops_p.Cost.Delta.{added, WorkloadDelta, Delta}
use cost_risk_aware_gitops_p.Policy.{Violation}
use cost_risk_aware_gitops_p.Verdict.{fail, Verdict}
use cost_risk_aware_gitops_p.Report.{markdown}
use cost_risk_aware_gitops_p.Report.Completeness.{IsComplete, markdown-IsComplete}

abbrev web_row : WorkloadDelta Cents
web_row = record {
  ref = "Deployment/shop/web";
  change = added;
  before_usd = pos 0;
  after_usd = pos 9000;
  delta_usd = pos 9000;
  before_reps = pos 0;
  after_reps = pos 3;
  flags = "no memory request" ∷ [];
  autoscaled = false;
  min_replicas = pos 0;
  max_replicas = pos 0;
  floor_usd = pos 9000;
}

abbrev web_delta : Delta Cents
web_delta = record {
  baseline_monthly_usd = pos 0;
  projected_monthly_usd = pos 9000;
  delta_monthly_usd = pos 9000;
  percent_increase = pos 0;
  has_percent_basis = false;
  estate_baseline_monthly_usd = pos 0;
  committed_baseline_usd = pos 0;
  committed_projected_usd = pos 9000;
  committed_delta_usd = pos 9000;
  committed_percent = pos 0;
  has_committed_basis = false;
  workloads = web_row ∷ [];
  flags = [];
}

abbrev privileged : Violation
privileged = record {
  rule = "no-privileged";
  severity = "critical";
  message = "the container is privileged";
  kind = "Deployment";
  namespace = "shop";
  name = "web";
  remediation = "drop privileged";
}

abbrev failed_verdict : Verdict Cents
failed_verdict = record {
  decision = fail;
  reasons = "the change costs $90.00 a month" ∷ [];
  notes = [];
  cost = record {
    delta = web_delta;
    passed = false;
    warned = false;
    fired = "absolute" ∷ [];
    warnings = [];
    errors = [];
  };
  policy = record { blocking = privileged ∷ []; warnings = []; errors = []; passed = false };
  pricing_version = pos 2;
  pricing_source = "pricing/table.yaml";
  currency = "USD";
  base_ref = "main";
  head_ref = "HEAD";
  evaluated_roots = "manifests/shop" ∷ [];
}

markdown-IsComplete_example : IsComplete failed_verdict (markdown failed_verdict)
markdown-IsComplete_example = markdown-IsComplete failed_verdict
