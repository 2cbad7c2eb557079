-- ===== src/Verdict/PolicyGate.antt =====
-- verdict.go: `evaluatePolicy`.
pub mod Filing
use cost_risk_aware_gitops_p.Prelude.{
  String, Bool, true, false, not, ◌&&◌, List, [], ◌∷◌, ◌++◌, is_empty, concat, if◌then◌else◌,
}
use cost_risk_aware_gitops_p.Config.{PolicyConfig, severity, blocks}
use cost_risk_aware_gitops_p.Policy.{Violation, PolicyResult}
use cost_risk_aware_gitops_p.Verdict.{PolicyVerdict}

-- An override is recorded in the message.
abbrev pub overridden : Violation → String → Violation
overridden v severity = record v {
  message = concat (
      v.message ∷ " _(severity overridden: " ∷ v.severity ∷ " → " ∷ severity ∷ " in gate.yaml)_"
      ∷ []);
  severity = severity;
}

-- The violation at its effective severity.
unfoldable pub effective : PolicyConfig → Violation → Violation
effective cfg v =
    let (s, is_override) = severity cfg v.rule v.severity in
    if is_override then overridden v s else v

-- One round of the loop.
abbrev pub file : PolicyConfig → PolicyVerdict → Violation → PolicyVerdict
file cfg pv v =
    if blocks cfg v.severity
    then record pv { blocking = pv.blocking ++ v ∷ []; passed = false }
    else record pv { warnings = pv.warnings ++ v ∷ [] }

unfoldable pub file_all : PolicyConfig → PolicyVerdict → List Violation → PolicyVerdict
file_all cfg pv [] = pv
file_all cfg pv (v ∷ vs) = file_all cfg (file cfg pv (effective cfg v)) vs

abbrev pub new_policy_verdict : List String → PolicyVerdict
new_policy_verdict errors = record { blocking = []; warnings = []; errors = errors; passed = true }

-- `evaluatePolicy`
unfoldable pub evaluate_policy : PolicyConfig → PolicyResult → PolicyVerdict
evaluate_policy cfg result =
    let pv = file_all cfg (new_policy_verdict result.errors) result.violations in
    if cfg.treat_error_as_blocking && not (is_empty result.errors)
    then record pv { passed = false }
    else pv
