-- ===== src/Cost/Autoscaling/Reading.antt =====
-- cost.go: what `collectAutoscalers` takes of one object, against what the object says.
use cost_risk_aware_gitops_p.Prelude.{
  ◌≡◌, ◌≢◌, refl, sym, ap, ◌∙◌, subst, inl, inr, ◌⊎◌, false, Bool-cases, if◌then◌else◌, String,
  str_eq, eq_iff, none, some, some_inj, arith,
}
use cost_risk_aware_gitops_p.Float64.{Float64}
use cost_risk_aware_gitops_p.Json.{Value, text, obj, Fields, index, as_string, as_map?, as_map}
use cost_risk_aware_gitops_p.Cost.Autoscaling.{
  Object, ScaleTarget, AutoscaleBounds, autoscaler_bounds, target_of, autoscaler_of,
}
use cost_risk_aware_gitops_p.Cost.Autoscaling.Scaling.{
  IsKind, named, unnamed, Scales, autoscaler_bounds-IsRange, IsRange-autoscaler_bounds,
}

-- The kind that the code takes of a reference.
abbrev kind_or_default : String → String
kind_or_default s = if str_eq s "" then "Deployment" else s

str_ne : (s t : String) → s ≢ t → str_eq s t ≡ false
str_ne s t n = elim (Bool-cases (str_eq s t)) [ inl e ↦ absurd (n ((eq_iff s t).0 e)) | inr e ↦ e ]

ne_of_str_ne : (s t : String) → str_eq s t ≡ false → s ≢ t
ne_of_str_ne s t h e = let same = (eq_iff s t).1 e in ground arith

module _ {F : Type 0} ⦃fl : Float64 F⦄ where
  as_string-text : (v : Value F) → str_eq (as_string v) "" ≡ false → v ≡ text (as_string v)
  unfolding as_string
  as_string-text (text s) h = refl
  as_string-text _ h = ground arith

  kind_or_default-IsKind : (v : Value F) → IsKind v (kind_or_default (as_string v))
  kind_or_default-IsKind v = elim (Bool-cases (str_eq (as_string v) "")) [
    | inl e ↦ rw (e, kind_or_default) (unnamed ((eq_iff (as_string v) "").0 e) refl)
    | inr e ↦ rw (e, kind_or_default) (named (as_string-text v e) (ne_of_str_ne (as_string v) "" e))
  ]

  IsKind-kind_or_default :
      (v : Value F) (kind : String) → IsKind v kind → kind_or_default (as_string v) ≡ kind
  unfolding as_string
  IsKind-kind_or_default v kind (unnamed e f) = ap kind_or_default e ∙ sym f
  IsKind-kind_or_default v kind (named e n) =
      ap (λ v. kind_or_default (as_string v)) e ∙ rw (str_ne kind "" n) refl

  -- What is asked of a reference that names the target.
  record Names (ns : String) (reference : Fields F) (t : ScaleTarget) : Type 0 where
    namespace : t.namespace ≡ ns
    name : index reference "name" ≡ text t.name
    name_given : t.name ≢ ""
    kind : IsKind (index reference "kind") t.kind

  target_of-Names :
      (ns : String) (reference : Fields F) (t : ScaleTarget)
      → target_of ns reference ≡ some t
      → Names ns reference t
  unfolding target_of
  target_of-Names ns reference t h =
      let name = index reference "name" in
      let kind = index reference "kind" in
      elim (Bool-cases (str_eq (as_string name) "")) [
        | inl e ↦ ground arith
        | inr e ↦
            subst (Names ns reference)
              (some_inj
                (record {
                  namespace = ns;
                  kind = kind_or_default (as_string kind);
                  name = as_string name;
                })
                t (rw e at h))
              (record {
                namespace = refl;
                name = as_string-text name e;
                name_given = ne_of_str_ne (as_string name) "" e;
                kind = kind_or_default-IsKind kind;
              })
      ]

  Names-target_of :
      (ns : String) (reference : Fields F) (t : ScaleTarget)
      → Names ns reference t
      → target_of ns reference ≡ some t
  unfolding target_of as_string
  Names-target_of ns reference t n =
      let name : as_string (index reference "name") ≡ t.name = ap as_string n.name in
      let given : str_eq (as_string (index reference "name")) "" ≡ false =
        ap (λ s. str_eq s "") name ∙ str_ne t.name "" n.name_given in
      rw given (λ i. some (record {
        namespace = sym n.namespace i;
        kind = IsKind-kind_or_default (index reference "kind") t.kind n.kind i;
        name = name i;
      }))

  as_map?-cases : (v : Value F) → (as_map? v ≡ none) ⊎ ((fs : Fields F) × (v ≡ obj fs))
  unfolding as_map?
  as_map?-cases (obj fs) = inr (fs, refl)
  as_map?-cases _ = inl refl

  -- What the code takes of an object is what the object says, and it takes it wherever it says so.
  pub autoscaler_of-Scales :
      (o : Object F) (t : ScaleTarget) (b : AutoscaleBounds)
      → autoscaler_of o ≡ some (t, b)
      → Scales o t b
  unfolding autoscaler_of as_map?
  autoscaler_of-Scales o t b h =
      let ns = as_string (index (as_map (index o "metadata")) "namespace") in
      elim (as_map?-cases (index o "spec")) [
        | inl e ↦ ground arith
        | inr (spec, e) ↦ elim (as_map?-cases (index spec "scaleTargetRef")) [
          | inl f ↦ let s : as_map? (index o "spec") ≡ some spec = ap as_map? e in ground arith
          | inr (reference, f) ↦
              let s : as_map? (index o "spec") ≡ some spec = ap as_map? e in
              let r : as_map? (index spec "scaleTargetRef") ≡ some reference = ap as_map? f in
              let names : target_of ns reference ≡ some t = ground arith in
              let range : autoscaler_bounds (as_string (index o "kind")) spec ≡ some b =
                ground arith in
              let n = target_of-Names ns reference t names in
              record {
                spec = spec;
                reference = reference;
                has_spec = e;
                has_reference = f;
                namespace = n.namespace;
                name = n.name;
                name_given = n.name_given;
                kind = n.kind;
                range = autoscaler_bounds-IsRange (as_string (index o "kind")) spec b range;
              }
        ]
      ]

  pub Scales-autoscaler_of :
      (o : Object F) (t : ScaleTarget) (b : AutoscaleBounds)
      → Scales o t b
      → autoscaler_of o ≡ some (t, b)
  unfolding autoscaler_of as_map?
  Scales-autoscaler_of o t b x =
      let ns = as_string (index (as_map (index o "metadata")) "namespace") in
      let names = Names-target_of ns x.reference t (record {
        namespace = x.namespace;
        name = x.name;
        name_given = x.name_given;
        kind = x.kind;
      }) in
      let range = IsRange-autoscaler_bounds (as_string (index o "kind")) x.spec b x.range in
      let spec : as_map? (index o "spec") ≡ some x.spec = ap as_map? x.has_spec in
      let reference : as_map? (index x.spec "scaleTargetRef") ≡ some x.reference =
        ap as_map? x.has_reference in
      rw (spec, reference, names, range, autoscaler_of) refl
