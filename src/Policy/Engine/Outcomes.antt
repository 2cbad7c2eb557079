-- ===== src/Policy/Engine/Outcomes.antt =====
-- What `Evaluate` returns is what each object gives on its own, put together and sorted: an object that
-- fails hides nothing of the others.
use mathlib.Core.List.{Perm, append-nil, append_assoc}
use cost_risk_aware_gitops_p.Prelude.{
  ◌≡◌, ap, ◌∙◌, sym, subst, true, false, Bool-cases, inl, inr, String, str_eq, eq_iff, str_lt,
  str_lt-IsWeakOrder, str_lt_antisymm, List, [], ◌∷◌, ◌++◌, Option, none, some, sort, sort-perm,
  IsSorted, sort-IsSorted, IsWeakOrder, arith,
}
use cost_risk_aware_gitops_p.Results.{Result, ok, err}
use cost_risk_aware_gitops_p.Json.{Value, null, bool, int, int64, float, text, arr, obj, as_list}
use cost_risk_aware_gitops_p.Cost.Autoscaling.{Object}
use cost_risk_aware_gitops_p.Policy.{Violation, PolicyResult, ref}
use cost_risk_aware_gitops_p.Policy.Engine.{
  Engine, violation_less, decode_violation, add_decoded, add_error, add_values, add_answer,
  add_evaluated, add_objects, no_result, evaluate,
}

-- One result after another.
abbrev pub append_result : PolicyResult → PolicyResult → PolicyResult
append_result a b = record {
  violations = a.violations ++ b.violations;
  errors = a.errors ++ b.errors;
}

append_result_assoc :
    (a b c : PolicyResult)
    → append_result (append_result a b) c ≡ append_result a (append_result b c)
append_result_assoc a b c = λ i. record {
  violations = append_assoc a.violations b.violations c.violations i;
  errors = append_assoc a.errors b.errors c.errors i;
}

append_result-no_result : (a : PolicyResult) → append_result a no_result ≡ a
append_result-no_result a =
    λ i. record { violations = append-nil a.violations i; errors = append-nil a.errors i }

violation_less_asymm : (a b : Violation) → violation_less a b ≡ true → violation_less b a ≡ false
violation_less_asymm a b h = ground (
  arith,
  eq_iff (ref a) (ref b),
  eq_iff (ref b) (ref a),
  str_lt-IsWeakOrder.asymm (ref a) (ref b),
  str_lt-IsWeakOrder.asymm a.rule b.rule,
)

ref_not_lt : (a b : Violation) → violation_less a b ≡ false → str_lt (ref a) (ref b) ≡ false
ref_not_lt a b h = ground (arith, eq_iff (ref a) (ref b), str_lt-IsWeakOrder.asymm (ref b) (ref b))

violation_less_neg_trans :
    (a b c : Violation)
    → violation_less a b ≡ false
    → violation_less b c ≡ false
    → violation_less a c ≡ false
violation_less_neg_trans a b c h k =
    let a_b = ref_not_lt a b h in
    let b_c = ref_not_lt b c k in
    let a_c = str_lt-IsWeakOrder.neg_trans (ref a) (ref b) (ref c) a_b b_c in
    elim (Bool-cases (str_eq (ref a) (ref c))) [
      | inl e ↦
          let a_is_c = (eq_iff (ref a) (ref c)).0 e in
          let b_a : str_lt (ref b) (ref a) ≡ false =
            subst (λ x. str_lt (ref b) x ≡ false) (sym a_is_c) b_c in
          let a_is_b = str_lt_antisymm (ref a) (ref b) a_b b_a in
          ground (
            arith,
            a_is_c,
            a_is_b,
            eq_iff (ref a) (ref b),
            eq_iff (ref b) (ref c),
            str_lt-IsWeakOrder.neg_trans a.rule b.rule c.rule,
          )
      | inr e ↦ ground (arith, e, a_c)
    ]

violation_less-IsWeakOrder : IsWeakOrder violation_less
violation_less-IsWeakOrder = record {
  asymm = violation_less_asymm;
  neg_trans = violation_less_neg_trans;
}

add_error-append :
    (message : String) (result : PolicyResult)
    → add_error message result ≡ append_result result (add_error message no_result)
add_error-append message result =
    ap (λ vs. record (add_error message result) { violations = vs })
      (sym (append-nil result.violations))

module _ {F : Type 0} (engine : Engine F) where
  add_decoded-append :
      (object : Object F) (result : PolicyResult) (r : Result Violation)
      → add_decoded object result r ≡ append_result result (add_decoded object no_result r)
  add_decoded-append object result (ok v) =
      ap (λ es. record (add_decoded object result (ok v)) { errors = es })
        (sym (append-nil result.errors))
  add_decoded-append object result (err e) =
      ap (λ vs. record (add_decoded object result (err e)) { violations = vs })
        (sym (append-nil result.violations))

  add_values-append :
      (object : Object F) (result : PolicyResult) (vs : List (Value F))
      → add_values engine object result vs
        ≡ append_result result (add_values engine object no_result vs)
  unfolding add_values
  add_values-append object result [] = sym (append_result-no_result result)
  add_values-append object result (v ∷ vs) =
      let r = decode_violation engine v object in
      let one = add_decoded object no_result r in
      add_values-append object (add_decoded object result r) vs
      ∙ ap (λ x. append_result x (add_values engine object no_result vs))
          (add_decoded-append object result r)
      ∙ append_result_assoc result one (add_values engine object no_result vs)
      ∙ ap (append_result result) (sym (add_values-append object one vs))

  add_answer-append :
      (object : Object F) (result : PolicyResult) (v : Value F)
      → add_answer engine object result v
        ≡ append_result result (add_answer engine object no_result v)
  unfolding add_answer
  add_answer-append object result (arr vs) = add_values-append object result (as_list (arr vs))
  add_answer-append object result null = add_error-append _ result
  add_answer-append object result (bool b) = add_error-append _ result
  add_answer-append object result (int n) = add_error-append _ result
  add_answer-append object result (int64 n) = add_error-append _ result
  add_answer-append object result (float x) = add_error-append _ result
  add_answer-append object result (text s) = add_error-append _ result
  add_answer-append object result (obj m) = add_error-append _ result

  add_evaluated-append :
      (object : Object F) (result : PolicyResult) (r : Result (Option (Value F)))
      → add_evaluated engine object result r
        ≡ append_result result (add_evaluated engine object no_result r)
  unfolding add_evaluated
  add_evaluated-append object result (err e) = add_error-append _ result
  add_evaluated-append object result (ok none) = sym (append_result-no_result result)
  add_evaluated-append object result (ok (some v)) = add_answer-append object result v

  -- What one object gives on its own.
  pub outcome : List (Object F) → Object F → PolicyResult
  outcome peers object = add_evaluated engine object no_result (engine.eval object peers)

  pub outcomes : List (Object F) → List (Object F) → PolicyResult
  outcomes peers [] = no_result
  outcomes peers (object ∷ objects) = append_result (outcome peers object) (outcomes peers objects)

  add_objects-append :
      (peers : List (Object F)) (result : PolicyResult) (objects : List (Object F))
      → add_objects engine peers result objects ≡ append_result result (outcomes peers objects)
  unfolding add_objects outcomes outcome
  add_objects-append peers result [] = sym (append_result-no_result result)
  add_objects-append peers result (object ∷ objects) =
      let one = add_evaluated engine object no_result (engine.eval object peers) in
      add_objects-append peers (add_evaluated engine object result (engine.eval object peers))
        objects
      ∙ ap (λ x. append_result x (outcomes peers objects))
          (add_evaluated-append object result (engine.eval object peers))
      ∙ append_result_assoc result one (outcomes peers objects)

  -- What a result is, in terms of the objects' own outcomes.
  pub record IsGathered (result : PolicyResult) (gathered : PolicyResult) : Type 0 where
    pub violations : Perm result.violations gathered.violations
    pub errors : Perm result.errors gathered.errors
    pub violations_sorted : IsSorted violation_less result.violations
    pub errors_sorted : IsSorted str_lt result.errors

  -- `Evaluate` returns the violations and the errors that the objects give one by one, each with all of
  -- them as its peers: the violations sorted by resource and rule, the errors as texts. No error of one
  -- object takes a violation of another away.
  pub evaluate-IsGathered :
      (objects : List (Object F)) → IsGathered (evaluate engine objects) (outcomes objects objects)
  unfolding evaluate
  evaluate-IsGathered objects =
      let result = add_objects engine objects no_result objects in
      let same = add_objects-append objects no_result objects in
      record {
        violations =
            subst (λ r. Perm (sort violation_less result.violations) r.violations) same
              (sort-perm violation_less result.violations);
        errors =
            subst (λ r. Perm (sort str_lt result.errors) r.errors) same
              (sort-perm str_lt result.errors);
        violations_sorted =
            sort-IsSorted violation_less violation_less-IsWeakOrder result.violations;
        errors_sorted = sort-IsSorted str_lt str_lt-IsWeakOrder result.errors;
      }
