-- ===== src/Cost/Autoscaling/Lookup.antt =====
-- What `collectAutoscalers` knows of a target: the last object that scales it.
use cost_risk_aware_gitops_p.Prelude.{
  ◌≡◌, refl, ap, ◌∙◌, inl, inr, Bool-cases, List, [], ◌∷◌, Option, none, some, if◌then◌else◌,
}
use cost_risk_aware_gitops_p.Float64.{Float64}
use cost_risk_aware_gitops_p.Cost.Autoscaling.{
  Object, ScaleTarget, AutoscaleBounds, Autoscalers, target_eq, bounds_of, put, autoscaler_of,
  collect_from, collect_autoscalers,
}

-- The bounds that one object sets for a target.
abbrev pub scales : ScaleTarget → Option (ScaleTarget × AutoscaleBounds) → Option AutoscaleBounds
scales t none = none
scales t (some (s, b)) = if target_eq s t then some b else none

abbrev pub or_earlier : {A : Type 0} → Option A → Option A → Option A
or_earlier (some a) earlier = some a
or_earlier none earlier = earlier

bounds_of-put :
    (t : ScaleTarget) (entry : Option (ScaleTarget × AutoscaleBounds)) (found : Autoscalers)
    → bounds_of t (put entry found) ≡ or_earlier (scales t entry) (bounds_of t found)
unfolding bounds_of
bounds_of-put t none found = refl
bounds_of-put t (some (s, b)) found = elim (Bool-cases (target_eq s t)) [
  | inl e ↦ rw e refl
  | inr e ↦ rw e refl
]

or_earlier_assoc :
    {A : Type 0} (a b c : Option A) → or_earlier a (or_earlier b c) ≡ or_earlier (or_earlier a b) c
or_earlier_assoc none b c = refl
or_earlier_assoc (some a) b c = refl

or_earlier-none : {A : Type 0} (a : Option A) → or_earlier a none ≡ a
or_earlier-none none = refl
or_earlier-none (some a) = refl

module _ {F : Type 0} ⦃fl : Float64 F⦄ where
  -- The bounds that the last of the objects to scale the target sets.
  unfoldable pub last_scaler : ScaleTarget → List (Object F) → Option AutoscaleBounds
  last_scaler t [] = none
  last_scaler t (object ∷ objects) =
      or_earlier (last_scaler t objects) (scales t (autoscaler_of object))

  bounds_of-collect_from :
      (t : ScaleTarget) (found : Autoscalers) (objects : List (Object F))
      → bounds_of t (collect_from found objects)
        ≡ or_earlier (last_scaler t objects) (bounds_of t found)
  unfolding collect_from last_scaler
  bounds_of-collect_from t found [] = refl
  bounds_of-collect_from t found (object ∷ objects) =
      bounds_of-collect_from t (put (autoscaler_of object) found) objects
      ∙ ap (or_earlier (last_scaler t objects)) (bounds_of-put t (autoscaler_of object) found)
      ∙ or_earlier_assoc (last_scaler t objects) (scales t (autoscaler_of object))
          (bounds_of t found)

  -- A target is scaled as the last object that names it says, and not at all where none does.
  pub bounds_of-collect_autoscalers :
      (t : ScaleTarget) (objects : List (Object F))
      → bounds_of t (collect_autoscalers objects) ≡ last_scaler t objects
  unfolding collect_autoscalers bounds_of
  bounds_of-collect_autoscalers t objects =
      bounds_of-collect_from t [] objects ∙ or_earlier-none (last_scaler t objects)
