-- ===== src/Verdict/PolicyGate/Filing.antt =====
-- `evaluatePolicy` files every violation once, and passes when none blocks.
use mathlib.Core.List.{append-nil, append_assoc}
use cost_risk_aware_gitops_p.Prelude.{
  ◌≡◌, refl, sym, ◌↔◌, ◌⊎◌, Bool, true, false, not, ◌&&◌, inl, inr, some, none, Option,
  if◌then◌else◌, List, [], ◌∷◌, ◌++◌, map, String, arith, All, keep, keep-perm, is_empty,
  is_empty_iff, Bool-cases, is_empty-append_cons, eq_iff,
}
use mathlib.Core.List.{Perm}
use cost_risk_aware_gitops_p.Config.{PolicyConfig, severity, override_of, overridden_by, blocks}
use cost_risk_aware_gitops_p.Config.Severities.{Unlisted, blocks_iff}
use cost_risk_aware_gitops_p.Policy.{Violation, PolicyResult}
use cost_risk_aware_gitops_p.Verdict.{PolicyVerdict}
use cost_risk_aware_gitops_p.Verdict.PolicyGate.{
  effective, overridden, file, file_all, new_policy_verdict, evaluate_policy,
}

file_all-blocking :
    (cfg : PolicyConfig) (pv : PolicyVerdict) (vs : List Violation)
    → (file_all cfg pv vs).blocking
      ≡ pv.blocking ++ keep (λ v. blocks cfg v.severity) (map (effective cfg) vs)
unfolding file_all
file_all-blocking cfg pv [] = sym (append-nil pv.blocking)
file_all-blocking cfg pv (v ∷ vs) = ground (
  arith,
  file_all-blocking cfg (file cfg pv (effective cfg v)) vs,
  append_assoc pv.blocking (effective cfg v ∷ [])
      (keep (λ v. blocks cfg v.severity) (map (effective cfg) vs)),
)

file_all-warnings :
    (cfg : PolicyConfig) (pv : PolicyVerdict) (vs : List Violation)
    → (file_all cfg pv vs).warnings
      ≡ pv.warnings ++ keep (λ v. not (blocks cfg v.severity)) (map (effective cfg) vs)
unfolding file_all
file_all-warnings cfg pv [] = sym (append-nil pv.warnings)
file_all-warnings cfg pv (v ∷ vs) = ground (
  arith,
  file_all-warnings cfg (file cfg pv (effective cfg v)) vs,
  append_assoc pv.warnings (effective cfg v ∷ [])
      (keep (λ v. not (blocks cfg v.severity)) (map (effective cfg) vs)),
)

file_all-errors :
    (cfg : PolicyConfig) (pv : PolicyVerdict) (vs : List Violation)
    → (file_all cfg pv vs).errors ≡ pv.errors
unfolding file_all
file_all-errors cfg pv [] = refl
file_all-errors cfg pv (v ∷ vs) =
    ground (arith, file_all-errors cfg (file cfg pv (effective cfg v)) vs)

file_all-passed :
    (cfg : PolicyConfig) (pv : PolicyVerdict) (vs : List Violation)
    → pv.passed ≡ is_empty pv.blocking
    → (file_all cfg pv vs).passed ≡ is_empty (file_all cfg pv vs).blocking
unfolding file_all
file_all-passed cfg pv [] h = h
file_all-passed cfg pv (v ∷ vs) h =
    file_all-passed cfg (file cfg pv (effective cfg v)) vs
      (ground (arith, is_empty-append_cons pv.blocking (effective cfg v) []))

module _ (cfg : PolicyConfig) (result : PolicyResult) where
  filed : PolicyVerdict
  filed = file_all cfg (new_policy_verdict result.errors) result.violations

  evaluate_policy-lists :
      let pv = evaluate_policy cfg result in
      (pv.blocking ≡ keep (λ v. blocks cfg v.severity) (map (effective cfg) result.violations))
      × (pv.warnings
          ≡ keep (λ v. not (blocks cfg v.severity)) (map (effective cfg) result.violations))
      × (pv.errors ≡ result.errors)
  unfolding evaluate_policy
  evaluate_policy-lists =
      let start = new_policy_verdict result.errors in
      let b = file_all-blocking cfg start result.violations in
      let w = file_all-warnings cfg start result.violations in
      let e = file_all-errors cfg start result.violations in
      (ground arith, ground arith, ground arith)

  pub evaluate_policy-errors : (evaluate_policy cfg result).errors ≡ result.errors
  evaluate_policy-errors = evaluate_policy-lists.2

  -- Every violation, at its effective severity, is filed once: as blocking or as a warning.
  pub evaluate_policy-perm :
      let pv = evaluate_policy cfg result in
      Perm (pv.blocking ++ pv.warnings) (map (effective cfg) result.violations)
  evaluate_policy-perm =
      let (b, w, e) = evaluate_policy-lists in
      rw (b, w) (keep-perm (λ v. blocks cfg v.severity) (map (effective cfg) result.violations))

  -- The sub-gate passes when it filed nothing as blocking and no error counts.
  pub evaluate_policy-passed :
      let pv = evaluate_policy cfg result in
      pv.passed
      ≡ (is_empty pv.blocking && not (cfg.treat_error_as_blocking && not (is_empty pv.errors)))
  unfolding evaluate_policy
  evaluate_policy-passed =
      let start = new_policy_verdict result.errors in
      let p = file_all-passed cfg start result.violations refl in
      let e = file_all-errors cfg start result.violations in ground arith

or_declared : String → Option String → String
or_declared declared none = declared
or_declared declared (some s) = s

-- The severity that counts: an override of the rule, or else what the rule declares.
pub severity_of : PolicyConfig → Violation → String
severity_of cfg v = or_declared v.severity (override_of v.rule cfg.severity_overrides)

severity-overridden_by :
    (v : Violation) (o : Option String)
    → let (s, is_override) = overridden_by v.severity o in
      (if is_override then overridden v s else v).severity ≡ or_declared v.severity o
unfolding or_declared
severity-overridden_by v none = refl
severity-overridden_by v (some s) = ground (arith, eq_iff s v.severity)

effective-severity :
    (cfg : PolicyConfig) (v : Violation) → (effective cfg v).severity ≡ severity_of cfg v
unfolding effective severity severity_of
effective-severity cfg v = severity-overridden_by v (override_of v.rule cfg.severity_overrides)

is_empty-keep_iff :
    (cfg : PolicyConfig) (vs : List Violation)
    → (is_empty (keep (λ v. blocks cfg v.severity) (map (effective cfg) vs)) ≡ true)
      ↔ All (λ v. Unlisted cfg.fail_on_severity (severity_of cfg v)) vs
is_empty-keep_iff cfg [] = (λ _. tt, λ _. refl)
is_empty-keep_iff cfg (v ∷ vs) =
    let rest = is_empty-keep_iff cfg vs in
    let listed : (blocks cfg (effective cfg v).severity ≡ false)
        ↔ Unlisted cfg.fail_on_severity (severity_of cfg v) =
      rw (effective-severity cfg v) (blocks_iff cfg (severity_of cfg v)) in
    elim (Bool-cases (blocks cfg (effective cfg v).severity)) [
      | inl b ↦ rw (b, keep) (λ h. cc, λ h. cc (listed.1 h.0))
      | inr b ↦ rw (b, keep) (λ h. (listed.0 b, rest.0 h), λ h. rest.1 h.1)
    ]

or_map : {A B C : Type 0} → (B → C) → A ⊎ B → A ⊎ C
or_map f (inl a) = inl a
or_map f (inr b) = inr (f b)

passes_iff :
    (strict none_blocking no_errors : Bool)
    → ((none_blocking && not (strict && not no_errors)) ≡ true)
      ↔ ((none_blocking ≡ true) × ((strict ≡ false) ⊎ (no_errors ≡ true)))
passes_iff strict none_blocking no_errors = (λ h. ground arith, λ h. ground arith)

-- `evaluatePolicy` passes exactly when no violation has a severity, after overrides, that the
-- configuration lists as failing, and no evaluation error counts as blocking.
pub evaluate_policy_iff :
    (cfg : PolicyConfig) (result : PolicyResult)
    → ((evaluate_policy cfg result).passed ≡ true) ↔ (
        All (λ v. Unlisted cfg.fail_on_severity (severity_of cfg v)) result.violations
        × ((cfg.treat_error_as_blocking ≡ false) ⊎ (result.errors ≡ [])))
evaluate_policy_iff cfg result =
    let (b, w, e) = evaluate_policy-lists cfg result in
    let none_blocks = is_empty-keep_iff cfg result.violations in
    let no_errors = is_empty_iff result.errors in
    let passes = passes_iff cfg.treat_error_as_blocking _ _ in
    rw (evaluate_policy-passed cfg result, b, e)
      (
        λ h. (none_blocks.0 (passes.0 h).0, or_map no_errors.0 (passes.0 h).1),
        λ h. passes.1 (none_blocks.1 h.0, or_map no_errors.1 h.1),
      )
