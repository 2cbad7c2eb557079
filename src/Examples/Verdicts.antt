-- ===== src/Examples/Verdicts.antt =====
-- Configurations, verdicts and decisions on the sample change.
use mathlib.Core.List.{Perm}
use cost_risk_aware_gitops_p.Prelude.{
  ◌≡◌, ◌≢◌, ◌↔◌, ◌⊎◌, true, false, String, List, [], ◌∷◌, ◌++◌, map, All,
}
use cost_risk_aware_gitops_p.Float64.Cents.{cents_float}
use cost_risk_aware_gitops_p.Config.Severities.{Unlisted}
use cost_risk_aware_gitops_p.Policy.{PolicyResult}
use cost_risk_aware_gitops_p.Verdict.{pass, inconclusive}
use cost_risk_aware_gitops_p.Verdict.CostGate.{evaluate_cost}
use cost_risk_aware_gitops_p.Verdict.CostGate.Limits.{IsWithin, evaluate_cost_iff}
use cost_risk_aware_gitops_p.Verdict.PolicyGate.{effective, evaluate_policy}
use cost_risk_aware_gitops_p.Verdict.PolicyGate.Filing.{
  severity_of, evaluate_policy-perm, evaluate_policy_iff,
}
use cost_risk_aware_gitops_p.Verdict.Aggregate.{aggregate}
use cost_risk_aware_gitops_p.Verdict.Aggregate.Safety.{IsAcceptable, aggregate-pass_iff}
use cost_risk_aware_gitops_p.Verdict.Aggregate.Explanation.{
  aggregate_explains, aggregate-inconclusive_iff,
}
use cost_risk_aware_gitops_p.Examples.Data.{
  cost_config, policy_config, gate_config, change, violation,
}

abbrev no_errors : List String
no_errors = []

-- Two findings: one that an override makes low, and one that stays high.
abbrev findings : PolicyResult
findings = record {
  violations = violation "no-probes" "high" ∷ violation "no-limits" "high" ∷ [];
  errors = [];
}

evaluate_cost_iff_example :
    ((evaluate_cost cost_config change no_errors).passed ≡ true)
    ↔ ((no_errors ≡ []) × IsWithin cost_config change)
evaluate_cost_iff_example = evaluate_cost_iff cost_config change no_errors

evaluate_policy-perm_example :
    Perm
      ((evaluate_policy policy_config findings).blocking
        ++ (evaluate_policy policy_config findings).warnings)
      (map (effective policy_config) findings.violations)
evaluate_policy-perm_example = evaluate_policy-perm policy_config findings

evaluate_policy_iff_example : ((evaluate_policy policy_config findings).passed ≡ true) ↔ (
    All
      (λ v. Unlisted policy_config.fail_on_severity (severity_of policy_config v))
      findings.violations
    × ((policy_config.treat_error_as_blocking ≡ false) ⊎ (findings.errors ≡ [])))
evaluate_policy_iff_example = evaluate_policy_iff policy_config findings

aggregate-pass_iff_example :
    ((aggregate gate_config change [] findings).decision ≡ pass)
    ↔ IsAcceptable gate_config change [] findings
aggregate-pass_iff_example = aggregate-pass_iff gate_config change [] findings

aggregate_explains_example :
    ((aggregate gate_config change [] findings).decision ≡ pass)
    ↔ ((aggregate gate_config change [] findings).reasons ≡ [])
aggregate_explains_example = aggregate_explains gate_config change [] findings

aggregate-inconclusive_iff_example :
    ((aggregate gate_config change no_errors findings).decision ≡ inconclusive) ↔ (
      (no_errors ≢ [])
      ⊎ ((gate_config.spec.policy.treat_error_as_blocking ≡ true) × (findings.errors ≢ [])))
aggregate-inconclusive_iff_example =
    aggregate-inconclusive_iff gate_config change no_errors findings
