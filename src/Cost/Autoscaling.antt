-- ===== src/Cost/Autoscaling.antt =====
-- cost.go: `collectAutoscalers`, the replica range that an autoscaler authorises for its target.
pub mod Scaling
pub mod Reading
pub mod Lookup
pub mod Authorised
use cost_risk_aware_gitops_p.Prelude.{
  String, Bool, ◌&&◌, List, [], ◌∷◌, Option, none, some, concat, show_int, str_eq, if◌then◌else◌,
}
use cost_risk_aware_gitops_p.Prelude.Int.{ℤ, pos}
use cost_risk_aware_gitops_p.Float64.{Float64}
use cost_risk_aware_gitops_p.Json.{Fields, lookup, index, as_string, as_map?, as_map}
use cost_risk_aware_gitops_p.Cost.Quantity.{int_or_default}

-- `type Object map[string]any`
abbrev pub Object : Type 0 → Type 0
Object F = Fields F

pub record ScaleTarget : Type 0 where
  pub namespace : String
  pub kind : String
  pub name : String

pub record AutoscaleBounds : Type 0 where
  pub min : ℤ
  pub max : ℤ
  pub source : String
  pub flags : List String

-- `map[scaleTarget]autoscaleBounds`: a write stands in front, and a read finds the first of its key.
abbrev pub Autoscalers : Type 0
Autoscalers = List (ScaleTarget × AutoscaleBounds)

abbrev pub target_eq : ScaleTarget → ScaleTarget → Bool
target_eq s t = str_eq s.namespace t.namespace && (str_eq s.kind t.kind && str_eq s.name t.name)

unfoldable pub bounds_of : ScaleTarget → Autoscalers → Option AutoscaleBounds
bounds_of t [] = none
bounds_of t ((s, b) ∷ found) = if target_eq s t then some b else bounds_of t found

abbrev pub keda_default_max_replicas : ℤ
keda_default_max_replicas = pos 100

abbrev no_max_flag : String
no_max_flag = concat (
    "the ScaledObject sets no maxReplicaCount, so KEDA's default of "
    ∷ show_int keda_default_max_replicas
    ∷ " applies - this authorises up to "
    ∷ show_int keda_default_max_replicas
    ∷ " replicas"
    ∷ [])

abbrev pub put : Option (ScaleTarget × AutoscaleBounds) → Autoscalers → Autoscalers
put none found = found
put (some entry) found = entry ∷ found

module _ {F : Type 0} ⦃fl : Float64 F⦄ where
  abbrev pub keda_bounds : Fields F → AutoscaleBounds
  keda_bounds spec = record {
    min = int_or_default (index spec "minReplicaCount") (pos 0);
    max = int_or_default (index spec "maxReplicaCount") keda_default_max_replicas;
    source = "KEDA ScaledObject";
    flags = elim (lookup "maxReplicaCount" spec) [ some v ↦ [] | none ↦ no_max_flag ∷ [] ];
  }

  abbrev pub hpa_bounds : Fields F → AutoscaleBounds
  hpa_bounds spec = record {
    min = int_or_default (index spec "minReplicas") (pos 1);
    max = int_or_default (index spec "maxReplicas") (pos 1);
    source = "HorizontalPodAutoscaler";
    flags = [];
  }

  -- The `switch` on the kind of the autoscaler.
  unfoldable pub autoscaler_bounds : (kind : String) → Fields F → Option AutoscaleBounds
  autoscaler_bounds kind spec =
      if str_eq kind "ScaledObject"
      then some (keda_bounds spec)
      else if str_eq kind "HorizontalPodAutoscaler"
      then some (hpa_bounds spec)
      else none

  -- The target that `scaleTargetRef` names, unless its name is missing; its kind is a Deployment
  -- where none is given.
  unfoldable pub target_of : (namespace : String) → Fields F → Option ScaleTarget
  target_of namespace reference =
      let name = as_string (index reference "name") in
      let kind = as_string (index reference "kind") in
      if str_eq name ""
      then none
      else some (record {
        namespace = namespace;
        kind = if str_eq kind "" then "Deployment" else kind;
        name = name;
      })

  -- What one object adds: nothing without a spec, a `scaleTargetRef`, a target name or a known kind.
  unfoldable pub autoscaler_of : Object F → Option (ScaleTarget × AutoscaleBounds)
  unfolding autoscaler_bounds target_of
  autoscaler_of object =
      let namespace = as_string (index (as_map (index object "metadata")) "namespace") in
      elim (as_map? (index object "spec")) [
        | none ↦ none
        | some spec ↦ elim (as_map? (index spec "scaleTargetRef")) [
          | none ↦ none
          | some reference ↦ elim (target_of namespace reference) [
            | none ↦ none
            | some target ↦ elim (autoscaler_bounds (as_string (index object "kind")) spec) [
              | none ↦ none
              | some bounds ↦ some (target, bounds)
            ]
          ]
        ]
      ]

  unfoldable pub collect_from : Autoscalers → List (Object F) → Autoscalers
  collect_from found [] = found
  collect_from found (object ∷ objects) = collect_from (put (autoscaler_of object) found) objects

  -- `collectAutoscalers`
  unfoldable pub collect_autoscalers : List (Object F) → Autoscalers
  unfolding collect_from
  collect_autoscalers objects = collect_from [] objects
