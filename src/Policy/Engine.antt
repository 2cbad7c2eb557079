-- ===== src/Policy/Engine.antt =====
-- policy.go: `New`, `Evaluate` and the self-test. What OPA compiles and answers is a parameter.
pub mod Outcomes
pub mod Refusal
use cost_risk_aware_gitops_p.Prelude.{
  String, Bool, true, false, not, ◌&&◌, List, [], ◌∷◌, ◌++◌, Option, none, some, concat, join,
  show_int, str_eq, str_lt, sort, is_empty, map, if◌then◌else◌,
}
use cost_risk_aware_gitops_p.Float64.{Float64}
use cost_risk_aware_gitops_p.Results.{Result, ok, err, errorf, ◌>>=◌, refuse_if, wrap}
use cost_risk_aware_gitops_p.Json.{
  Value, Fields, Items, null, bool, int, int64, float, text, arr, obj, nil, cons, end, field, index,
  as_string, as_map?, as_map, as_list,
}
use cost_risk_aware_gitops_p.Cost.Quantity.{type_name}
use cost_risk_aware_gitops_p.Cost.Autoscaling.{Object}
use cost_risk_aware_gitops_p.Policy.{Violation, PolicyResult, ref}

-- `rego.PreparedEvalQuery.Eval` on a manifest and its peers: an error, no result, or the value of the
-- query in the first result. `show_map` is `%v` of a map.
pub record Engine (F : Type 0) : Type 0 where
  pub eval : (manifest : Object F) (peers : List (Object F)) → Result (Option (Value F))
  pub show_map : Fields F → String

-- Rule identifiers that are told by their resource, then by their rule.
abbrev pub violation_less : Violation → Violation → Bool
violation_less a b =
    if not (str_eq (ref a) (ref b)) then str_lt (ref a) (ref b) else str_lt a.rule b.rule

abbrev or_default : (s default : String) → String
or_default s default = if str_eq s "" then default else s

-- A violation without a rule, a severity or a message is an error of its author.
unfoldable pub check_violation : (shown : String) → Violation → Result Violation
check_violation shown v =
    if str_eq v.rule ""
    then err (errorf (concat ("violation has no `rule` field: " ∷ shown ∷ [])))
    else if str_eq v.severity ""
    then err (errorf (concat ("violation " ∷ v.rule ∷ " has no `severity` field" ∷ [])))
    else if str_eq v.message ""
    then err (errorf (concat ("violation " ∷ v.rule ∷ " has no `message` field" ∷ [])))
    else ok v

abbrev pub add_error : String → PolicyResult → PolicyResult
add_error message result = record result { errors = result.errors ++ message ∷ [] }

abbrev pub no_result : PolicyResult
no_result = record { violations = []; errors = [] }

abbrev silent_message : String
silent_message =
    "policy self-test produced no violations against a manifest that declares no resources, no probes and no security context. The rules are not matching anything - most likely the rule set and the gate's input contract have drifted apart, or the policy directory is not the one you think it is. Refusing to run, because in this state the gate would pass every pull request"

module _ {F : Type 0} where
  -- `stringField`
  abbrev pub string_field : Fields F → String → String
  string_field m key = as_string (index m key)

  -- `describe`
  unfoldable pub describe : Object F → String
  describe object =
      let kind = as_string (index object "kind") in
      let name = as_string (index (as_map (index object "metadata")) "name") in
      concat (or_default kind "<unknown kind>" ∷ "/" ∷ or_default name "<unnamed>" ∷ [])

  -- The violation that a map describes, its resource taken from the object where the rule gives none.
  abbrev pub described : Fields F → Object F → Violation
  described m object =
      let meta = as_map (index object "metadata") in
      record {
        rule = string_field m "rule";
        severity = string_field m "severity";
        message = string_field m "message";
        remediation = string_field m "remediation";
        kind = or_default (string_field m "kind") (as_string (index object "kind"));
        name = or_default (string_field m "name") (as_string (index meta "name"));
        namespace = or_default (string_field m "namespace") (as_string (index meta "namespace"));
      }

  unfoldable pub decode_map : Engine F → Value F → Object F → Option (Fields F) → Result Violation
  unfolding check_violation
  decode_map engine v object none =
      err (errorf (concat ("violation is " ∷ type_name v ∷ ", expected an object" ∷ [])))
  decode_map engine v object (some m) = check_violation (engine.show_map m) (described m object)

  -- `decodeViolation`
  unfoldable pub decode_violation : Engine F → Value F → Object F → Result Violation
  unfolding decode_map
  decode_violation engine v object = decode_map engine v object (as_map? v)

  abbrev evaluating : Object F → String → String
  evaluating object message = concat ("evaluating " ∷ describe object ∷ ": " ∷ message ∷ [])

  abbrev pub add_decoded : Object F → PolicyResult → Result Violation → PolicyResult
  add_decoded object result (ok v) = record result { violations = result.violations ++ v ∷ [] }
  add_decoded object result (err e) = add_error (evaluating object e.message) result

  -- The loop over the values of one object.
  unfoldable pub add_values : Engine F → Object F → PolicyResult → List (Value F) → PolicyResult
  add_values engine object result [] = result
  add_values engine object result (v ∷ vs) =
      add_values engine object (add_decoded object result (decode_violation engine v object)) vs

  -- A set of violations is a list; anything else is an error.
  unfoldable pub add_answer : Engine F → Object F → PolicyResult → Value F → PolicyResult
  unfolding add_values
  add_answer engine object result (arr vs) = add_values engine object result (as_list (arr vs))
  add_answer engine object result v =
      add_error
        (evaluating object (
          concat (
            "data.gate.violation returned " ∷ type_name v ∷ ", expected a set of violations" ∷ [])))
        result

  -- What one evaluation adds.
  unfoldable pub add_evaluated :
      Engine F → Object F → PolicyResult → Result (Option (Value F)) → PolicyResult
  add_evaluated engine object result (err e) = add_error (evaluating object e.message) result
  add_evaluated engine object result (ok none) = result
  add_evaluated engine object result (ok (some v)) = add_answer engine object result v

  -- The loop over the objects, each evaluated with all of them as its peers.
  unfoldable pub add_objects :
      Engine F → (peers : List (Object F)) → PolicyResult → List (Object F) → PolicyResult
  unfolding add_evaluated
  add_objects engine peers result [] = result
  add_objects engine peers result (object ∷ objects) =
      add_objects engine peers (add_evaluated engine object result (engine.eval object peers))
        objects

  -- `Evaluate`
  unfoldable pub evaluate : Engine F → List (Object F) → PolicyResult
  unfolding add_objects
  evaluate engine objects =
      let result = add_objects engine objects no_result objects in
      record {
        violations = sort violation_less result.violations;
        errors = sort str_lt result.errors;
      }

  -- The Deployment of `canary`: no resources, no probes and no security context.
  abbrev pub canary : Object F
  canary = field "apiVersion" (text "apps/v1") (
      field "kind" (text "Deployment") (
        field "metadata"
          (obj (field "name" (text "gate-canary") (field "namespace" (text "gate-selftest") end)))
          (field "spec"
            (obj (
              field "template"
                (obj (
                  field "metadata"
                    (obj (field "labels" (obj (field "app" (text "gate-canary") end)) end))
                    (field "spec"
                      (obj (
                        field "containers"
                          (arr (
                            cons
                              (obj (
                                field "name" (text "canary")
                                  (field "image" (text "example.invalid/canary:latest") end)))
                              nil))
                          end))
                      end)))
                end))
            end)))

  -- `selfTest`: the rules must evaluate on the canary, and reject it.
  unfoldable pub self_test : Engine F → Result (Unit {0})
  unfolding evaluate
  self_test engine =
      let result = evaluate engine (canary ∷ []) in
      if not (is_empty result.errors)
      then err (
          errorf
            (concat ("policy self-test failed to evaluate: [" ∷ join " " result.errors ∷ "]" ∷ [])))
      else if is_empty result.violations
      then err (errorf silent_message)
      else ok tt

  -- `New`, over the search for rule files and their compilation.
  unfoldable pub new_engine :
      (rego_files : String → Result (List String)) (prepare : List String → Result (Engine F))
      (policy_dir : String)
      → Result (Engine F)
  unfolding self_test
  new_engine rego_files prepare policy_dir = do
    files ← rego_files policy_dir
    _ ← refuse_if (is_empty files) (no_files policy_dir)
    engine ← wrap (concat ("compile policies in " ∷ policy_dir ∷ [])) (prepare files)
    _ ← self_test engine
    ok engine
    where
      no_files : String → String
      no_files policy_dir = concat (
          "no .rego files found under " ∷ policy_dir
          ∷ ": the policy sub-gate would pass everything, which is indistinguishable from having no gate at all"
          ∷ [])
