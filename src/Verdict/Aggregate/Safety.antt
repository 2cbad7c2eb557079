-- ===== src/Verdict/Aggregate/Safety.antt =====
-- The merge decision: when it is a pass, what makes it inconclusive, and that it explains itself.
use cost_risk_aware_gitops_p.Prelude.{
  ◌≡◌, ◌∙◌, ◌↔◌, ◌⊎◌, Bool, true, false, List, [], ◌∷◌, String, arith, All, is_empty_iff,
}
use cost_risk_aware_gitops_p.Float64.{Float64}
use cost_risk_aware_gitops_p.Config.{Config}
use cost_risk_aware_gitops_p.Config.Severities.{Unlisted}
use cost_risk_aware_gitops_p.Cost.Delta.{Delta}
use cost_risk_aware_gitops_p.Policy.{PolicyResult}
use cost_risk_aware_gitops_p.Verdict.{pass, CostVerdict, PolicyVerdict}
use cost_risk_aware_gitops_p.Verdict.CostGate.{evaluate_cost}
use cost_risk_aware_gitops_p.Verdict.CostGate.Limits.{IsWithin, evaluate_cost_iff}
use cost_risk_aware_gitops_p.Verdict.CostGate.Reasons.{
  evaluate_cost-IsExplained, evaluate_cost_error,
}
use cost_risk_aware_gitops_p.Verdict.PolicyGate.{evaluate_policy}
use cost_risk_aware_gitops_p.Verdict.PolicyGate.Filing.{
  severity_of, evaluate_policy_iff, evaluate_policy-errors,
}
use cost_risk_aware_gitops_p.Verdict.Aggregate.{decide_on, aggregate}

module _ {F : Type 0} ⦃fl : Float64 F⦄ where
  pub evaluate_cost-errors :
      (cfg : Config F) (delta : Delta F) (errors : List String)
      → (evaluate_cost cfg.spec.cost delta errors).errors ≡ errors
  evaluate_cost-errors cfg delta [] = (evaluate_cost-IsExplained cfg.spec.cost delta).0
  evaluate_cost-errors cfg delta (e ∷ es) = (evaluate_cost_error cfg.spec.cost delta e es).0

  module _ (cfg : Config F) (delta : Delta F) (cost_errors : List String)
      (result : PolicyResult) where
    -- Everything that the gate demands of a change.
    pub record IsAcceptable : Type 0 where
      pub evaluated : cost_errors ≡ []
      pub affordable : IsWithin cfg.spec.cost delta
      pub compliant :
          All
            (λ v. Unlisted cfg.spec.policy.fail_on_severity (severity_of cfg.spec.policy v))
            result.violations
      pub checked : (cfg.spec.policy.treat_error_as_blocking ≡ false) ⊎ (result.errors ≡ [])

    pass_iff_passed :
        (cost : CostVerdict F) (policy : PolicyVerdict) (strict : Bool)
        → (decide_on strict cost policy ≡ pass) ↔ (
            (cost.errors ≡ [])
            × ((strict ≡ false) ⊎ (policy.errors ≡ []))
            × (cost.passed ≡ true)
            × (policy.passed ≡ true))
    unfolding decide_on
    pass_iff_passed cost policy strict =
        let c = is_empty_iff cost.errors in
        let p = is_empty_iff policy.errors in (λ h. ground arith, λ h. ground arith)

    -- The decision is a pass exactly when the cost could be evaluated, the change is within every
    -- budget, no violation has a failing severity, and every rule could be evaluated, unless the
    -- configuration does not treat errors as blocking.
    pub aggregate-pass_iff :
        ((aggregate cfg delta cost_errors result).decision ≡ pass) ↔ IsAcceptable
    unfolding aggregate
    aggregate-pass_iff =
        let cost = evaluate_cost cfg.spec.cost delta cost_errors in
        let policy = evaluate_policy cfg.spec.policy result in
        let strict = cfg.spec.policy.treat_error_as_blocking in
        let decided = pass_iff_passed cost policy strict in
        let within = evaluate_cost_iff cfg.spec.cost delta cost_errors in
        let complies = evaluate_policy_iff cfg.spec.policy result in
        let errors = evaluate_cost-errors cfg delta cost_errors in
        (
          λ h.
              let (no_errors, _, cost_passed, policy_passed) = decided.0 h in
              let (compliant, checked) = complies.0 policy_passed in
              let (evaluated, affordable) = within.0 cost_passed in
              record {
                evaluated = evaluated;
                affordable = affordable;
                compliant = compliant;
                checked = checked;
              },
          λ v. decided.1 (
            errors ∙ v.evaluated,
            rw (evaluate_policy-errors cfg.spec.policy result) v.checked,
            within.1 (v.evaluated, v.affordable),
            complies.1 (v.compliant, v.checked),
          ),
        )
