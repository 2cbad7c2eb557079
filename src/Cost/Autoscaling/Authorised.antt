-- ===== src/Cost/Autoscaling/Authorised.antt =====
-- cost.go: what `collectAutoscalers` answers for a target, by what the manifests say.
use cost_risk_aware_gitops_p.Prelude.{
  ◌≡◌, refl, sym, ap, ◌∙◌, subst, inl, inr, true, Bool-cases, String, str_eq, eq_iff, List, [], ◌∷◌,
  ◌++◌, Option, none, some, some_inj, Option-cases, All, arith,
}
use cost_risk_aware_gitops_p.Float64.{Float64}
use cost_risk_aware_gitops_p.Cost.Autoscaling.{
  Object, ScaleTarget, AutoscaleBounds, target_eq, bounds_of, autoscaler_of, collect_autoscalers,
}
use cost_risk_aware_gitops_p.Cost.Autoscaling.Scaling.{Scales}
use cost_risk_aware_gitops_p.Cost.Autoscaling.Reading.{autoscaler_of-Scales, Scales-autoscaler_of}
use cost_risk_aware_gitops_p.Cost.Autoscaling.Lookup.{
  scales, last_scaler, or_earlier, bounds_of-collect_autoscalers,
}

target_eq_refl : (t : ScaleTarget) → target_eq t t ≡ true
target_eq_refl t =
    let same : (s : String) → str_eq s s ≡ true = λ s. (eq_iff s s).1 refl in
    rw (same t.namespace, same t.kind, same t.name) refl

eq_of_target_eq : (s t : ScaleTarget) → target_eq s t ≡ true → s ≡ t
eq_of_target_eq s t h =
    let e : str_eq s.namespace t.namespace ≡ true = ground arith in
    let f : str_eq s.kind t.kind ≡ true = ground arith in
    let g : str_eq s.name t.name ≡ true = ground arith in
    λ i. record {
      namespace = (eq_iff s.namespace t.namespace).0 e i;
      kind = (eq_iff s.kind t.kind).0 f i;
      name = (eq_iff s.name t.name).0 g i;
    }

module _ {F : Type 0} ⦃fl : Float64 F⦄ where
  -- The object says nothing of the target.
  abbrev pub LeavesAlone : ScaleTarget → Object F → Type 0
  LeavesAlone t o = (b : AutoscaleBounds) → Scales o t b → ⊥

  -- The answer for a target, read off the manifests: none where no object scales it, and else what
  -- the last object that scales it says.
  pub data Answer (t : ScaleTarget) (objects : List (Object F)) (found : Option AutoscaleBounds)
      : Type 0 where
    unscaled : All (LeavesAlone t) objects → found ≡ none → Answer t objects found
    scaled :
        (before : List (Object F)) (o : Object F) (after : List (Object F)) (b : AutoscaleBounds)
        → objects ≡ before ++ (o ∷ after)
        → Scales o t b
        → All (LeavesAlone t) after
        → found ≡ some b
        → Answer t objects found

  scales-Scales :
      (t : ScaleTarget) (o : Object F) (b : AutoscaleBounds)
      → scales t (autoscaler_of o) ≡ some b
      → Scales o t b
  scales-Scales t o b h = elim (Option-cases (autoscaler_of o)) [
    | inl e ↦ ground arith
    | inr ((s, c), e) ↦ elim (Bool-cases (target_eq s t)) [
      | inl f ↦
          let same : some c ≡ some b = rw (e, f) at h in
          subst (λ s. Scales o s b) (eq_of_target_eq s t f)
            (autoscaler_of-Scales o s b (e ∙ ap (λ c. some (s, c)) (some_inj c b same)))
      | inr f ↦ ground arith
    ]
  ]

  scales-LeavesAlone :
      (t : ScaleTarget) (o : Object F) → scales t (autoscaler_of o) ≡ none → LeavesAlone t o
  scales-LeavesAlone t o h b x =
      let told : scales t (autoscaler_of o) ≡ some b =
        rw (Scales-autoscaler_of o t b x, target_eq_refl t) refl in
      ground arith

  last_scaler-Answer :
      (t : ScaleTarget) (objects : List (Object F)) → Answer t objects (last_scaler t objects)
  unfolding last_scaler
  last_scaler-Answer t [] = unscaled tt refl
  last_scaler-Answer t (object ∷ objects) = elim (last_scaler-Answer t objects) [
    | scaled before o after b e x rest f ↦
        scaled (object ∷ before) o after b (ap (λ xs. object ∷ xs) e) x rest
          (ap (λ a. or_earlier a (scales t (autoscaler_of object))) f)
    | unscaled rest f ↦
        let here = ap (λ a. or_earlier a (scales t (autoscaler_of object))) f in
        elim (Option-cases (scales t (autoscaler_of object))) [
          | inl g ↦ unscaled (scales-LeavesAlone t object g, rest) (here ∙ g)
          | inr (b, g) ↦
              scaled [] object objects b refl (scales-Scales t object b g) rest (here ∙ g)
        ]
  ]

  -- For every target, the autoscalers that are collected give the range that the manifests themselves
  -- set: none where no object is a ScaledObject or a HorizontalPodAutoscaler in the target's namespace
  -- whose `scaleTargetRef` gives the target's name and kind (a Deployment where none is given), and
  -- else the range of the last object that is. A count is the number in the object's spec, cut to an
  -- integer; where none is given a ScaledObject authorises 0 to 100 replicas and a
  -- HorizontalPodAutoscaler 1 to 1. The flag on KEDA's default is set exactly where a ScaledObject
  -- has no `maxReplicaCount`.
  pub collect_autoscalers-Answer :
      (t : ScaleTarget) (objects : List (Object F))
      → Answer t objects (bounds_of t (collect_autoscalers objects))
  collect_autoscalers-Answer t objects =
      subst (Answer t objects) (sym (bounds_of-collect_autoscalers t objects))
        (last_scaler-Answer t objects)
