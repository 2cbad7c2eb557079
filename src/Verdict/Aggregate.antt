-- ===== src/Verdict/Aggregate.antt =====
-- verdict.go: `Aggregate`, one decision from the two sub-gates.
pub mod Safety
pub mod Explanation
use cost_risk_aware_gitops_p.Prelude.{
  String, Bool, true, false, not, ◌&&◌, ◌||◌, List, [], ◌∷◌, ◌++◌, map, ℕ, length, is_empty, concat,
  show_nat, if◌then◌else◌,
}
use cost_risk_aware_gitops_p.Prelude.Int.{pos}
use cost_risk_aware_gitops_p.Float64.{Float64}
use cost_risk_aware_gitops_p.Config.{Config}
use cost_risk_aware_gitops_p.Cost.Delta.{Delta}
use cost_risk_aware_gitops_p.Policy.{Violation, PolicyResult, ref}
use cost_risk_aware_gitops_p.Verdict.{
  Decision, pass, fail, inconclusive, CostVerdict, PolicyVerdict, Verdict,
}
use cost_risk_aware_gitops_p.Verdict.CostGate.{evaluate_cost}
use cost_risk_aware_gitops_p.Verdict.PolicyGate.{evaluate_policy}

-- Policy errors count where the configuration treats them as blocking.
abbrev pub has_policy_errors : Bool → PolicyVerdict → Bool
has_policy_errors treat_error_as_blocking pv = treat_error_as_blocking && not (is_empty pv.errors)

abbrev violation_reason : Violation → String
violation_reason v = concat (v.rule ∷ " on " ∷ ref v ∷ ": " ∷ v.message ∷ [])

abbrev gate_error : String → ℕ → String → String
gate_error gate count section = concat (
    "the "
    ∷ gate
    ∷ " sub-gate could not be evaluated ("
    ∷ show_nat count
    ∷ " error(s)); see the "
    ∷ section
    ∷ " section below"
    ∷ [])

module _ {F : Type 0} where
  unfoldable pub decide_on : Bool → CostVerdict F → PolicyVerdict → Decision
  decide_on treat_error_as_blocking cost policy =
      if not (is_empty cost.errors) || has_policy_errors treat_error_as_blocking policy
      then inconclusive
      else if not cost.passed || not policy.passed
      then fail
      else pass

  unfoldable pub reasons_of : Bool → CostVerdict F → PolicyVerdict → List String
  reasons_of treat_error_as_blocking cost policy =
      (if not (is_empty cost.errors)
        then gate_error "cost" (length cost.errors) "Cost" ∷ []
        else [])
      ++ (if has_policy_errors treat_error_as_blocking policy
          then gate_error "policy" (length policy.errors) "Policy" ∷ []
          else [])
      ++ cost.fired
      ++ map violation_reason policy.blocking

module _ {F : Type 0} ⦃fl : Float64 F⦄ where
  -- `Aggregate`; the caller fills in the provenance.
  unfoldable pub aggregate : Config F → Delta F → List String → PolicyResult → Verdict F
  aggregate cfg delta cost_errors result =
      let cost = evaluate_cost cfg.spec.cost delta cost_errors in
      let policy = evaluate_policy cfg.spec.policy result in
      let strict = cfg.spec.policy.treat_error_as_blocking in
      record {
        decision = decide_on strict cost policy;
        reasons = reasons_of strict cost policy;
        notes = [];
        cost = cost;
        policy = policy;
        pricing_version = pos 0;
        pricing_source = "";
        currency = "";
        base_ref = "";
        head_ref = "";
        evaluated_roots = [];
      }
