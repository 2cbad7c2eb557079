-- ===== src/Policy/Engine/Refusal.antt =====
-- What the engine refuses: violations that cannot be reported, and rules that reject nothing.
use cost_risk_aware_gitops_p.Prelude.{
  ◌≡◌, ◌≢◌, refl, subst, ◌↔◌, String, eq_iff, List, [], ◌∷◌, is_empty, is_empty_iff, Option, none,
  some, All, All-append, All-sort, arith,
}
use cost_risk_aware_gitops_p.Results.{Result, ok, err, wrap, refuse_if, bind_ok, ok_inj}
use cost_risk_aware_gitops_p.Json.{
  Value, Fields, null, bool, int, int64, float, text, arr, obj, as_map?, as_list,
}
use cost_risk_aware_gitops_p.Cost.Autoscaling.{Object}
use cost_risk_aware_gitops_p.Policy.{Violation, PolicyResult}
use cost_risk_aware_gitops_p.Policy.Engine.{
  Engine, violation_less, check_violation, described, decode_map, decode_violation, add_decoded,
  add_values, add_answer, add_evaluated, add_objects, no_result, evaluate, canary, self_test,
  new_engine,
}

-- A violation that can be reported and acted on.
pub record IsReportable (v : Violation) : Type 0 where
  pub rule_set : v.rule ≢ ""
  pub severity_set : v.severity ≢ ""
  pub message_set : v.message ≢ ""

check_violation_iff :
    (shown : String) (v w : Violation)
    → (check_violation shown v ≡ ok w) ↔ ((v ≡ w) × IsReportable v)
unfolding check_violation
check_violation_iff shown v w =
    let r = eq_iff v.rule "" in
    let s = eq_iff v.severity "" in
    let m = eq_iff v.message "" in (λ h. ground arith, λ h. ground arith)

refuse_none :
    (files : List String) (message : String) {done : Unit {0}}
    → refuse_if (is_empty files) message ≡ ok done
    → files ≢ []
refuse_none files message e h = let none = is_empty_iff files in ground arith

module _ {F : Type 0} (engine : Engine F) where
  decode_map-IsReportable :
      (v : Value F) (object : Object F) (m : Option (Fields F)) (w : Violation)
      → decode_map engine v object m ≡ ok w
      → IsReportable w
  unfolding decode_map
  decode_map-IsReportable v object none w e = ground arith
  decode_map-IsReportable v object (some m) w e =
      let (same, reportable) =
        (check_violation_iff (engine.show_map m) (described m object) w).0 e in
      subst IsReportable same reportable

  -- All violations of a result can be reported.
  AreReportable : PolicyResult → Type 0
  AreReportable result = All IsReportable result.violations

  add_decoded-AreReportable :
      (object : Object F) (result : PolicyResult) (r : Result Violation)
      → ((w : Violation) → r ≡ ok w → IsReportable w)
      → AreReportable result
      → AreReportable (add_decoded object result r)
  unfolding AreReportable
  add_decoded-AreReportable object result (ok w) h hs =
      All-append IsReportable result.violations (w ∷ []) hs (h w refl, tt)
  add_decoded-AreReportable object result (err e) h hs = hs

  add_values-AreReportable :
      (object : Object F) (result : PolicyResult) (vs : List (Value F))
      → AreReportable result
      → AreReportable (add_values engine object result vs)
  unfolding add_values decode_violation
  add_values-AreReportable object result [] hs = hs
  add_values-AreReportable object result (v ∷ vs) hs =
      add_values-AreReportable object (add_decoded object result (decode_violation engine v object))
        vs
        (add_decoded-AreReportable object result (decode_violation engine v object)
          (decode_map-IsReportable v object (as_map? v)) hs)

  add_answer-AreReportable :
      (object : Object F) (result : PolicyResult) (v : Value F)
      → AreReportable result
      → AreReportable (add_answer engine object result v)
  unfolding add_answer AreReportable
  add_answer-AreReportable object result (arr vs) hs =
      add_values-AreReportable object result (as_list (arr vs)) hs
  add_answer-AreReportable object result null hs = hs
  add_answer-AreReportable object result (bool b) hs = hs
  add_answer-AreReportable object result (int n) hs = hs
  add_answer-AreReportable object result (int64 n) hs = hs
  add_answer-AreReportable object result (float x) hs = hs
  add_answer-AreReportable object result (text s) hs = hs
  add_answer-AreReportable object result (obj m) hs = hs

  add_evaluated-AreReportable :
      (object : Object F) (result : PolicyResult) (r : Result (Option (Value F)))
      → AreReportable result
      → AreReportable (add_evaluated engine object result r)
  unfolding add_evaluated AreReportable
  add_evaluated-AreReportable object result (err e) hs = hs
  add_evaluated-AreReportable object result (ok none) hs = hs
  add_evaluated-AreReportable object result (ok (some v)) hs =
      add_answer-AreReportable object result v hs

  add_objects-AreReportable :
      (peers : List (Object F)) (result : PolicyResult) (objects : List (Object F))
      → AreReportable result
      → AreReportable (add_objects engine peers result objects)
  unfolding add_objects
  add_objects-AreReportable peers result [] hs = hs
  add_objects-AreReportable peers result (object ∷ objects) hs =
      add_objects-AreReportable peers
        (add_evaluated engine object result (engine.eval object peers)) objects
        (add_evaluated-AreReportable object result (engine.eval object peers) hs)

  -- Whatever the rules answer, every violation that `Evaluate` returns names a rule, a severity and a
  -- message.
  pub evaluate-IsReportable :
      (objects : List (Object F)) → All IsReportable (evaluate engine objects).violations
  unfolding evaluate AreReportable
  evaluate-IsReportable objects =
      All-sort violation_less IsReportable (add_objects engine objects no_result objects).violations
        (add_objects-AreReportable objects no_result objects tt)

self_test_rejects :
    {F : Type 0} (engine : Engine F)
    → self_test engine ≡ ok tt
    → ((evaluate engine (canary ∷ [])).errors ≡ [])
      × ((evaluate engine (canary ∷ [])).violations ≢ [])
unfolding self_test
self_test_rejects engine h =
    let errors = is_empty_iff (evaluate engine (canary ∷ [])).errors in
    let violations = is_empty_iff (evaluate engine (canary ∷ [])).violations in
    (ground arith, λ k. ground arith)

-- An engine that `New` returns was compiled from at least one rule file, evaluates the canary without
-- an error and rejects it: a set of rules that would pass everything is never handed on.
pub new_engine_rejects :
    {F : Type 0} (rego_files : String → Result (List String))
    (prepare : List String → Result (Engine F)) (policy_dir : String) (engine : Engine F)
    → new_engine rego_files prepare policy_dir ≡ ok engine
    → ((files : List String) × (rego_files policy_dir ≡ ok files) × (files ≢ []))
      × ((evaluate engine (canary ∷ [])).errors ≡ [])
      × ((evaluate engine (canary ∷ [])).violations ≢ [])
unfolding new_engine
new_engine_rejects rego_files prepare policy_dir engine e =
    let (files, found, e₁) = bind_ok (rego_files policy_dir) _ engine e in
    let (_, some_file, e₂) = bind_ok (refuse_if (is_empty files) _) _ engine e₁ in
    let (made, _, e₃) = bind_ok (wrap _ (prepare files)) _ engine e₂ in
    let (done, tested, e₄) = bind_ok (self_test made) _ engine e₃ in
    let same = ok_inj made engine e₄ in
    let (no_error, rejected) = self_test_rejects made tested in
    (
      (files, found, λ h. refuse_none files _ some_file h),
      subst (λ x. (evaluate x (canary ∷ [])).errors ≡ []) same no_error,
      subst (λ x. (evaluate x (canary ∷ [])).violations ≢ []) same rejected,
    )
