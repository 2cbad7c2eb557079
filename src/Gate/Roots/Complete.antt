-- ===== src/Gate/Roots/Complete.antt =====
-- The loop over the roots without an error is a loop that stops at the first one.
use cost_risk_aware_gitops_p.Prelude.{
  ◌≡◌, refl, ap, ◌∙◌, sym, subst, inl, inr, ◌⊎◌, ◌↔◌, true, false, List, [], ◌∷◌, ◌++◌, is_empty,
  is_empty_iff, is_empty-append_cons, String, arith,
}
use cost_risk_aware_gitops_p.Float64.{Float64}
use cost_risk_aware_gitops_p.Results.{Error, Result, ok, err, ◌>>=◌, Result-cases, ok_inj, bind_ok}
use cost_risk_aware_gitops_p.Cost.Types.{Estimate}
use cost_risk_aware_gitops_p.Cost.Quantity.{Quantities}
use cost_risk_aware_gitops_p.Cost.Autoscaling.{Object}
use cost_risk_aware_gitops_p.Cost.Kinds.{Calculator}
use cost_risk_aware_gitops_p.Cost.Estimating.{merge_estimates, estimate}
use cost_risk_aware_gitops_p.Gate.Roots.{
  Renderer, Paths, Tally, no_tally, keep_objects, merge_head, render_base, price_head,
  evaluate_root, evaluate_roots,
}

module _ {F : Type 0} ⦃fl : Float64 F⦄ ⦃qs : Quantities⦄ (base_calc head_calc : Calculator F) where
  -- One root that must be rendered and priced at both commits.
  pub complete_root : (head base : Result (List (Object F))) → Tally F → Result (Tally F)
  complete_root head base t = do
    head_objects ← head
    he ← estimate head_calc head_objects
    base_objects ← base
    be ← estimate base_calc base_objects
    ok (record t {
      head_objects = t.head_objects ++ head_objects;
      head_estimate = merge_estimates t.head_estimate he;
      base_estimate = merge_estimates t.base_estimate be;
    })

  -- A root is complete and adds what it should, or it leaves an error.
  HasOutcome : Tally F → Result (Tally F) → Type 0
  HasOutcome t' r = (r ≡ ok t') ⊎ (((x : Error) × (r ≡ err x)) × (is_empty t'.cost_errors ≡ false))

  base_outcome :
      (rel : String) (objects : List (Object F)) (he : Estimate F) (base : Result (List (Object F)))
      (t : Tally F)
      → HasOutcome
          (render_base base_calc head_calc rel (merge_head (keep_objects t objects) he) base)
          (base >>= λ base_objects. estimate base_calc base_objects >>= λ be. ok (record t {
            head_objects = t.head_objects ++ objects;
            head_estimate = merge_estimates t.head_estimate he;
            base_estimate = merge_estimates t.base_estimate be;
          }))
  unfolding HasOutcome render_base
  base_outcome rel objects he (err e) t = inr ((e, refl), is_empty-append_cons t.cost_errors _ [])
  base_outcome rel objects he (ok base_objects) t =
      elim (Result-cases (estimate base_calc base_objects)) [
        | inr (e, h) ↦ rw h (inr ((e, refl), is_empty-append_cons t.cost_errors _ []))
        | inl (be, h) ↦ rw h (inl refl)
      ]

  evaluate_root-HasOutcome :
      (rel : String) (head base : Result (List (Object F))) (t : Tally F)
      → HasOutcome (evaluate_root base_calc head_calc rel head base t) (complete_root head base t)
  unfolding evaluate_root price_head complete_root HasOutcome
  evaluate_root-HasOutcome rel (err e) base t =
      inr ((e, refl), is_empty-append_cons t.cost_errors _ [])
  evaluate_root-HasOutcome rel (ok objects) base t =
      elim (Result-cases (estimate head_calc objects)) [
        | inr (e, h) ↦ rw h (inr ((e, refl), is_empty-append_cons t.cost_errors _ []))
        | inl (he, h) ↦ rw h (base_outcome rel objects he base t)
      ]

  module _ (renderer : Renderer F) (paths : Paths) (base_tree head_tree : String) where
    -- The loop that stops at the first root that is not complete.
    pub complete_roots : Tally F → List String → Result (Tally F)
    complete_roots t [] = ok t
    complete_roots t (root ∷ roots) = do
      rel ← paths.rel head_tree root
      t' ← complete_root (renderer.dir root) (renderer.dir (paths.join base_tree rel)) t
      complete_roots t' roots

    evaluated : Tally F → List String → Result (Tally F)
    evaluated t roots =
        evaluate_roots base_calc head_calc renderer paths base_tree head_tree t roots

    complete_root-errors :
        (head base : Result (List (Object F))) (t t' : Tally F)
        → complete_root head base t ≡ ok t'
        → t'.cost_errors ≡ t.cost_errors
    unfolding complete_root
    complete_root-errors head base t t' e =
        let (objects, _, e₁) = bind_ok head _ t' e in
        let (he, _, e₂) = bind_ok (estimate head_calc objects) _ t' e₁ in
        let (base_objects, _, e₃) = bind_ok base _ t' e₂ in
        let (be, _, e₄) = bind_ok (estimate base_calc base_objects) _ t' e₃ in
        sym (ap (λ u. u.cost_errors) (ok_inj _ t' e₄))

    -- Shorthand for a root's evaluation with its two renderings.
    after : String → String → Tally F → Tally F
    after rel root t =
        evaluate_root base_calc head_calc rel (renderer.dir root)
          (renderer.dir (paths.join base_tree rel)) t

    completed : String → String → Tally F → Result (Tally F)
    completed rel root t =
        complete_root (renderer.dir root) (renderer.dir (paths.join base_tree rel)) t

    after-completed :
        (rel root : String) (t : Tally F)
        → (completed rel root t ≡ ok (after rel root t))
          ⊎ (((x : Error) × (completed rel root t ≡ err x))
              × (is_empty (after rel root t).cost_errors ≡ false))
    unfolding after completed HasOutcome
    after-completed rel root t =
        evaluate_root-HasOutcome rel (renderer.dir root) (renderer.dir (paths.join base_tree rel)) t

    after-errors :
        (rel root : String) (t : Tally F)
        → is_empty t.cost_errors ≡ false
        → is_empty (after rel root t).cost_errors ≡ false
    unfolding completed
    after-errors rel root t h = elim (after-completed rel root t) [
      | inl e ↦ rw (complete_root-errors _ _ t (after rel root t) e) h
      | inr (_, some_error) ↦ some_error
    ]

    evaluated-errors :
        (t : Tally F) (roots : List String) (t' : Tally F)
        → evaluated t roots ≡ ok t'
        → is_empty t.cost_errors ≡ false
        → is_empty t'.cost_errors ≡ false
    unfolding evaluated evaluate_roots after
    evaluated-errors t [] t' e h = subst (λ u. is_empty u.cost_errors ≡ false) (ok_inj t t' e) h
    evaluated-errors t (root ∷ roots) t' e h =
        let (rel, _, rest) = bind_ok (paths.rel head_tree root) _ t' e in
        evaluated-errors (after rel root t) roots t' rest (after-errors rel root t h)

    evaluated_complete :
        (t : Tally F) (roots : List String) (t' : Tally F)
        → complete_roots t roots ≡ ok t'
        → (evaluated t roots ≡ ok t') × (t'.cost_errors ≡ t.cost_errors)
    unfolding complete_roots evaluated evaluate_roots after completed
    evaluated_complete t [] t' e = (e, ap (λ u. u.cost_errors) (sym (ok_inj t t' e)))
    evaluated_complete t (root ∷ roots) t' e =
        let (rel, found, e₁) = bind_ok (paths.rel head_tree root) _ t' e in
        let (t₁, done, rest) = bind_ok (completed rel root t) _ t' e₁ in
        let (loop, errors) = evaluated_complete t₁ roots t' rest in
        elim (after-completed rel root t) [
          | inl h ↦ (
            rw found (
                subst (λ u. evaluated u roots ≡ ok t')
                  (sym (ok_inj (after rel root t) t₁ (sym h ∙ done))) loop),
            errors ∙ complete_root-errors _ _ t t₁ done,
          )
          | inr ((x, h), _) ↦ ground (arith, h, done)
        ]

    complete_evaluated :
        (t : Tally F) (roots : List String) (t' : Tally F)
        → evaluated t roots ≡ ok t'
        → is_empty t'.cost_errors ≡ true
        → complete_roots t roots ≡ ok t'
    unfolding complete_roots evaluated evaluate_roots after completed
    complete_evaluated t [] t' e h = e
    complete_evaluated t (root ∷ roots) t' e h =
        let (rel, found, rest) = bind_ok (paths.rel head_tree root) _ t' e in
        elim (after-completed rel root t) [
          | inl k ↦ rw (found, k) (complete_evaluated (after rel root t) roots t' rest h)
          | inr (_, some_error) ↦
              ground (arith, h, evaluated-errors (after rel root t) roots t' rest some_error)
        ]

    -- The loop over the roots records no error exactly where every root has a path relative to the
    -- head tree and is rendered and priced at both commits; then the objects and the two estimates it
    -- returns are those of the loop that stops at the first root for which that fails.
    pub evaluate_roots_iff :
        (roots : List String) (t : Tally F)
        → ((evaluate_roots base_calc head_calc renderer paths base_tree head_tree no_tally roots
              ≡ ok t)
            × (t.cost_errors ≡ []))
          ↔ (complete_roots no_tally roots ≡ ok t)
    unfolding evaluated
    evaluate_roots_iff roots t = (
      (λ (e, none). complete_evaluated no_tally roots t e ((is_empty_iff t.cost_errors).1 none)),
      (λ e. evaluated_complete no_tally roots t e),
    )
