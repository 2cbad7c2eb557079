-- ===== src/Examples/Policies.antt =====
-- A policy engine with one rule, which every object breaks.
use cost_risk_aware_gitops_p.Prelude.{
  ◌≡◌, ◌≢◌, refl, String, List, [], ◌∷◌, All, some, sort, insert_sorted,
}
use cost_risk_aware_gitops_p.Float64.Cents.{Cents}
use cost_risk_aware_gitops_p.Results.{Result, ok}
use cost_risk_aware_gitops_p.Json.{
  text, arr, obj, nil, cons, end, field, lookup, index, as_string, as_map, as_map?, as_list,
}
use cost_risk_aware_gitops_p.Policy.Engine.{
  Engine, check_violation, decode_map, decode_violation, add_values, add_answer, add_evaluated,
  add_objects, evaluate, canary, self_test, new_engine,
}
use cost_risk_aware_gitops_p.Policy.Engine.Outcomes.{IsGathered, outcomes, evaluate-IsGathered}
use cost_risk_aware_gitops_p.Policy.Engine.Refusal.{
  IsReportable, evaluate-IsReportable, new_engine_rejects,
}
use cost_risk_aware_gitops_p.Examples.Data.{shop}

abbrev one_rule : Engine Cents
one_rule = record {
  eval = λ manifest peers. ok (
      some (
        arr (
          cons
            (obj (
              field "rule" (text "no-limits")
                (field "severity" (text "high") (field "message" (text "set limits") end))))
            nil)));
  show_map = λ m. "map[]";
}

evaluate-IsGathered_example :
    IsGathered one_rule (evaluate one_rule shop) (outcomes one_rule shop shop)
evaluate-IsGathered_example = evaluate-IsGathered one_rule shop

evaluate-IsReportable_example : All IsReportable (evaluate one_rule shop).violations
evaluate-IsReportable_example = evaluate-IsReportable one_rule shop

abbrev rule_files : String → Result (List String)
rule_files dir = ok ("limits.rego" ∷ [])

abbrev prepared : List String → Result (Engine Cents)
prepared files = ok one_rule

one_rule_made : new_engine rule_files prepared "policies" ≡ ok one_rule
unfolding new_engine self_test evaluate add_objects add_evaluated add_answer add_values
    decode_violation decode_map check_violation lookup index as_string as_map as_map? as_list sort
    insert_sorted
one_rule_made = refl

new_engine_rejects_example :
    ((files : List String) × (rule_files "policies" ≡ ok files) × (files ≢ []))
    × ((evaluate one_rule (canary ∷ [])).errors ≡ [])
    × ((evaluate one_rule (canary ∷ [])).violations ≢ [])
new_engine_rejects_example =
    new_engine_rejects rule_files prepared "policies" one_rule one_rule_made
