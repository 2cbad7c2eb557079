-- ===== src/Verdict/Aggregate/Explanation.antt =====
-- A verdict that blocks gives its reasons, and errors are told apart from findings.
use mathlib.Core.Path.{subst₂}
use cost_risk_aware_gitops_p.Prelude.{
  ◌≡◌, ◌↔◌, ◌⊎◌, ◌≢◌, Bool, true, not, ◌&&◌, List, [], ◌∷◌, String, arith, is_empty, is_empty_iff,
  is_empty-append, is_empty-map,
}
use cost_risk_aware_gitops_p.Float64.{Float64}
use cost_risk_aware_gitops_p.Config.{Config}
use cost_risk_aware_gitops_p.Cost.Delta.{Delta}
use cost_risk_aware_gitops_p.Policy.{PolicyResult}
use cost_risk_aware_gitops_p.Verdict.{pass, inconclusive, CostVerdict, PolicyVerdict}
use cost_risk_aware_gitops_p.Verdict.CostGate.{evaluate_cost}
use cost_risk_aware_gitops_p.Verdict.CostGate.Reasons.{evaluate_cost-IsExplained}
use cost_risk_aware_gitops_p.Verdict.PolicyGate.{evaluate_policy}
use cost_risk_aware_gitops_p.Verdict.PolicyGate.Filing.{
  evaluate_policy-passed, evaluate_policy-errors,
}
use cost_risk_aware_gitops_p.Verdict.Aggregate.{decide_on, reasons_of, aggregate}
use cost_risk_aware_gitops_p.Verdict.Aggregate.Safety.{evaluate_cost-errors}

module _ {F : Type 0} ⦃fl : Float64 F⦄ where
  -- What the sub-gates guarantee of their verdicts.
  record Explains (strict : Bool) (cost : CostVerdict F) (policy : PolicyVerdict) : Type 0 where
    cost_explained : (cost.errors ≡ [] → cost.passed ≡ is_empty cost.fired)
    policy_explained :
        policy.passed ≡ (is_empty policy.blocking && not (strict && not (is_empty policy.errors)))

  is_empty-reasons_of :
      (strict : Bool) (cost : CostVerdict F) (policy : PolicyVerdict)
      → is_empty (reasons_of strict cost policy) ≡ (
          is_empty cost.errors
          && (not (strict && not (is_empty policy.errors))
              && (is_empty cost.fired && is_empty policy.blocking)))
  unfolding reasons_of
  is_empty-reasons_of strict cost policy = simp (is_empty-append, is_empty-map) (ground arith)

  reasons_iff :
      (strict : Bool) (cost : CostVerdict F) (policy : PolicyVerdict)
      → Explains strict cost policy
      → (decide_on strict cost policy ≡ pass) ↔ (reasons_of strict cost policy ≡ [])
  unfolding decide_on
  reasons_iff strict cost policy h =
      let r = is_empty-reasons_of strict cost policy in
      let c = is_empty_iff cost.errors in
      let e = is_empty_iff (reasons_of strict cost policy) in (λ d. ground arith, λ d. ground arith)

  sub_gates-Explains :
      (cfg : Config F) (delta : Delta F) (cost_errors : List String) (result : PolicyResult)
      → Explains cfg.spec.policy.treat_error_as_blocking
          (evaluate_cost cfg.spec.cost delta cost_errors)
          (evaluate_policy cfg.spec.policy result)
  sub_gates-Explains cfg delta [] result = record {
    cost_explained = λ _. (evaluate_cost-IsExplained cfg.spec.cost delta).1;
    policy_explained = evaluate_policy-passed cfg.spec.policy result;
  }
  sub_gates-Explains cfg delta (e ∷ es) result = record {
    cost_explained = λ h. cc (evaluate_cost-errors cfg delta (e ∷ es));
    policy_explained = evaluate_policy-passed cfg.spec.policy result;
  }

  module _ (cfg : Config F) (delta : Delta F) (cost_errors : List String)
      (result : PolicyResult) where
    -- A verdict is a pass exactly when it lists no reason, so whatever blocks is explained and nothing
    -- else is reported as a reason.
    pub aggregate_explains :
        let v = aggregate cfg delta cost_errors result in (v.decision ≡ pass) ↔ (v.reasons ≡ [])
    unfolding aggregate
    aggregate_explains = reasons_iff _ _ _ (sub_gates-Explains cfg delta cost_errors result)

    inconclusive_iff :
        (strict : Bool) (cost : CostVerdict F) (policy : PolicyVerdict)
        → (decide_on strict cost policy ≡ inconclusive)
          ↔ ((cost.errors ≢ []) ⊎ ((strict ≡ true) × (policy.errors ≢ [])))
    unfolding decide_on
    inconclusive_iff strict cost policy =
        let c = is_empty_iff cost.errors in
        let p = is_empty_iff policy.errors in (λ h. ground arith, λ h. ground arith)

    -- The decision is inconclusive exactly when the cost could not be evaluated, or a rule could not
    -- and the configuration treats that as blocking; findings do not matter then.
    pub aggregate-inconclusive_iff :
        ((aggregate cfg delta cost_errors result).decision ≡ inconclusive) ↔ (
          (cost_errors ≢ [])
          ⊎ ((cfg.spec.policy.treat_error_as_blocking ≡ true) × (result.errors ≢ [])))
    unfolding aggregate
    aggregate-inconclusive_iff =
        subst₂
          (λ ce pe.
            (decide_on cfg.spec.policy.treat_error_as_blocking
                (evaluate_cost cfg.spec.cost delta cost_errors)
                (evaluate_policy cfg.spec.policy result)
              ≡ inconclusive)
            ↔ ((ce ≢ []) ⊎ ((cfg.spec.policy.treat_error_as_blocking ≡ true) × (pe ≢ []))))
          (evaluate_cost-errors cfg delta cost_errors)
          (evaluate_policy-errors cfg.spec.policy result) (inconclusive_iff _ _ _)
