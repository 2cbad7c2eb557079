-- ===== src/Cost/Autoscaling/Scaling.antt =====
-- What a manifest has to say to scale a workload, and by how much, read off the manifest itself.
use cost_risk_aware_gitops_p.Prelude.{
  ◌≡◌, ◌≢◌, refl, sym, subst, ◌⊎◌, inl, inr, Bool-cases, String, str_eq, eq_iff, concat, show_int,
  List, [], ◌∷◌, Option, none, some, some_inj, arith,
}
use cost_risk_aware_gitops_p.Prelude.Int.{ℤ, pos}
use cost_risk_aware_gitops_p.Float64.{Float64}
use cost_risk_aware_gitops_p.Json.{
  Value, int, int64, float, text, obj, Fields, lookup, index, as_string, as_map,
}
use cost_risk_aware_gitops_p.Cost.Quantity.{int_or_default}
use cost_risk_aware_gitops_p.Cost.Autoscaling.{
  Object, ScaleTarget, AutoscaleBounds, autoscaler_bounds, keda_bounds, hpa_bounds,
}

-- The values that are numbers, and the whole number of each.
abbrev pub whole : {F : Type 0} ⦃fl : Float64 F⦄ → Value F → Option ℤ
whole (int n) = some n
whole (int64 n) = some n
whole ⦃fl⦄ (float x) = some (fl.to_int x)
whole _ = none

module _ {F : Type 0} ⦃fl : Float64 F⦄ where
  -- A count is the number that is given, or the default where none is.
  pub data IsCount (v : Value F) (default : ℤ) (n : ℤ) : Type 0 where
    given : whole v ≡ some n → IsCount v default n
    omitted : whole v ≡ none → n ≡ default → IsCount v default n

  -- The kind that a reference names, and a Deployment where it names none.
  pub data IsKind (v : Value F) (kind : String) : Type 0 where
    named : v ≡ text kind → kind ≢ "" → IsKind v kind
    unnamed : as_string v ≡ "" → kind ≡ "Deployment" → IsKind v kind

  -- KEDA keeps none to a hundred replicas where it is not told otherwise, and the HPA one to one.
  pub data IsRange (kind : String) (spec : Fields F) (b : AutoscaleBounds) : Type 0 where
    keda :
        kind ≡ "ScaledObject"
        → IsCount (index spec "minReplicaCount") (pos 0) b.min
        → IsCount (index spec "maxReplicaCount") (pos 100) b.max
        → b.source ≡ "KEDA ScaledObject"
        → (lookup "maxReplicaCount" spec ≡ none)
            × (b.flags
                ≡ "the ScaledObject sets no maxReplicaCount, so KEDA's default of 100 applies - this authorises up to 100 replicas"
                  ∷ [])
          ⊎ ((v : Value F) × (lookup "maxReplicaCount" spec ≡ some v) × (b.flags ≡ []))
        → IsRange kind spec b
    hpa :
        kind ≡ "HorizontalPodAutoscaler"
        → IsCount (index spec "minReplicas") (pos 1) b.min
        → IsCount (index spec "maxReplicas") (pos 1) b.max
        → b.source ≡ "HorizontalPodAutoscaler"
        → b.flags ≡ []
        → IsRange kind spec b

  -- The object is an autoscaler, its spec refers to the target by name, and sets this range.
  pub record Scales (o : Object F) (t : ScaleTarget) (b : AutoscaleBounds) : Type 0 where
    pub spec : Fields F
    pub reference : Fields F
    pub has_spec : index o "spec" ≡ obj spec
    pub has_reference : index spec "scaleTargetRef" ≡ obj reference
    pub namespace : t.namespace ≡ as_string (index (as_map (index o "metadata")) "namespace")
    pub name : index reference "name" ≡ text t.name
    pub name_given : t.name ≢ ""
    pub kind : IsKind (index reference "kind") t.kind
    pub range : IsRange (as_string (index o "kind")) spec b

  int_or_default-IsCount : (v : Value F) (d : ℤ) → IsCount v d (int_or_default v d)
  unfolding int_or_default
  int_or_default-IsCount (int n) d = given refl
  int_or_default-IsCount (int64 n) d = given refl
  int_or_default-IsCount (float x) d = given refl
  int_or_default-IsCount _ d = omitted refl refl

  IsCount-int_or_default : (v : Value F) (d n : ℤ) → IsCount v d n → int_or_default v d ≡ n
  unfolding int_or_default
  IsCount-int_or_default (int k) d n (given e) = ground arith
  IsCount-int_or_default (int64 k) d n (given e) = ground arith
  IsCount-int_or_default (float x) d n (given e) = ground arith
  IsCount-int_or_default _ d n (given e) = ground arith
  IsCount-int_or_default (int k) d n (omitted e f) = ground arith
  IsCount-int_or_default (int64 k) d n (omitted e f) = ground arith
  IsCount-int_or_default (float x) d n (omitted e f) = ground arith
  IsCount-int_or_default _ d n (omitted e f) = sym f

  maximum_flags :
      (max : Option (Value F)) (flag : List String)
      → let flags : List String = elim max [ some v ↦ [] | none ↦ flag ] in
        ((max ≡ none) × (flags ≡ flag)) ⊎ ((v : Value F) × (max ≡ some v) × (flags ≡ []))
  maximum_flags none flag = inl (refl, refl)
  maximum_flags (some v) flag = inr (v, refl, refl)

  keda_bounds-IsRange : (spec : Fields F) → IsRange "ScaledObject" spec (keda_bounds spec)
  unfolding concat show_int
  keda_bounds-IsRange spec =
      keda refl (int_or_default-IsCount _ (pos 0)) (int_or_default-IsCount _ (pos 100)) refl
        (maximum_flags (lookup "maxReplicaCount" spec) _)

  hpa_bounds-IsRange : (spec : Fields F) → IsRange "HorizontalPodAutoscaler" spec (hpa_bounds spec)
  hpa_bounds-IsRange spec =
      hpa refl (int_or_default-IsCount _ (pos 1)) (int_or_default-IsCount _ (pos 1)) refl refl

  pub autoscaler_bounds-IsRange :
      (kind : String) (spec : Fields F) (b : AutoscaleBounds)
      → autoscaler_bounds kind spec ≡ some b
      → IsRange kind spec b
  unfolding autoscaler_bounds
  autoscaler_bounds-IsRange kind spec b h = elim (Bool-cases (str_eq kind "ScaledObject")) [
    | inl e ↦
        subst (λ k. IsRange k spec b) (sym ((eq_iff kind "ScaledObject").0 e))
          (subst (IsRange "ScaledObject" spec) (some_inj (keda_bounds spec) b (rw e at h))
            (keda_bounds-IsRange spec))
    | inr e ↦ elim (Bool-cases (str_eq kind "HorizontalPodAutoscaler")) [
      | inl f ↦
          subst (λ k. IsRange k spec b) (sym ((eq_iff kind "HorizontalPodAutoscaler").0 f))
            (subst (IsRange "HorizontalPodAutoscaler" spec)
              (some_inj (hpa_bounds spec) b (rw (e, f) at h)) (hpa_bounds-IsRange spec))
      | inr f ↦ ground arith
    ]
  ]

  flags_of-maximum :
      (max : Option (Value F)) (flag : List String) (flags : List String)
      → ((max ≡ none) × (flags ≡ flag)) ⊎ ((v : Value F) × (max ≡ some v) × (flags ≡ []))
      → (elim max as (λ x. List String) [ some v ↦ [] | none ↦ flag ]) ≡ flags
  flags_of-maximum none flag flags (inl (e, f)) = sym f
  flags_of-maximum none flag flags (inr (v, e, f)) = ground arith
  flags_of-maximum (some w) flag flags (inl (e, f)) = ground arith
  flags_of-maximum (some w) flag flags (inr (v, e, f)) = sym f

  pub IsRange-autoscaler_bounds :
      (kind : String) (spec : Fields F) (b : AutoscaleBounds)
      → IsRange kind spec b
      → autoscaler_bounds kind spec ≡ some b
  unfolding autoscaler_bounds concat show_int
  IsRange-autoscaler_bounds kind spec b (keda k lo hi source flags) =
      subst (λ k. autoscaler_bounds k spec ≡ some b) (sym k)
        (λ i. some (record {
          min = IsCount-int_or_default _ _ _ lo i;
          max = IsCount-int_or_default _ _ _ hi i;
          source = sym source i;
          flags = flags_of-maximum _ _ _ flags i;
        }))
  IsRange-autoscaler_bounds kind spec b (hpa k lo hi source flags) =
      subst (λ k. autoscaler_bounds k spec ≡ some b) (sym k)
        (λ i. some (record {
          min = IsCount-int_or_default _ _ _ lo i;
          max = IsCount-int_or_default _ _ _ hi i;
          source = sym source i;
          flags = sym flags i;
        }))
