-- ===== src/Config.antt =====
-- gate/internal/config/config.go: the gate's configuration, `gate.yaml`.
pub mod Validity
pub mod Severities
use cost_risk_aware_gitops_p.Prelude.{
  String, Bool, true, false, ◌&&◌, ◌||◌, not, str_eq, List, [], ◌∷◌, is_empty, Option, none, some,
  concat, quote, if◌then◌else◌,
}
use cost_risk_aware_gitops_p.Prelude.Int.{ℤ, pos, ltb_ℤ}
use cost_risk_aware_gitops_p.Float64.{Float64, zero_f}
use cost_risk_aware_gitops_p.Results.{Result, ok, err, errorf, ◌>>=◌, ◌>>◌, refuse_if, wrap}

pub record Metadata : Type 0 where
  pub name : String

pub record Paths : Type 0 where
  pub manifests : String
  pub policies : String
  pub pricing : String

-- `type Mode string`
abbrev pub Mode : Type 0
Mode = String

abbrev pub mode_absolute : Mode
mode_absolute = "absolute"

abbrev pub mode_percent : Mode
mode_percent = "percent"

abbrev pub mode_both : Mode
mode_both = "both"

pub record Thresholds (F : Type 0) : Type 0 where
  pub max_monthly_delta_usd : F
  pub max_percent_increase : F

pub record AutoscalingBudget (F : Type 0) : Type 0 where
  pub max_ceiling_delta_usd : F
  pub warn_ceiling_delta_usd : F
  pub max_burst_ratio : F

pub record CostConfig (F : Type 0) : Type 0 where
  pub mode : Mode
  pub block : Thresholds F
  pub warn : Thresholds F
  pub allow_unbounded_decrease : Bool
  pub assumed_node_count : ℤ
  pub baseline : String
  pub autoscaling : AutoscalingBudget F

pub record PolicyConfig : Type 0 where
  pub engine : String
  pub fail_on_severity : List String
  pub severity_overrides : List (String × String)
  pub treat_error_as_blocking : Bool

pub record ReportConfig : Type 0 where
  pub status_check_name : String
  pub comment_strategy : String

pub record ExplainConfig : Type 0 where
  pub enabled : Bool
  pub timeout_seconds : ℤ
  pub model : String
  pub endpoint : String

pub record Spec (F : Type 0) : Type 0 where
  pub paths : Paths
  pub cost : CostConfig F
  pub policy : PolicyConfig
  pub report : ReportConfig
  pub explain : ExplainConfig

pub record Config (F : Type 0) : Type 0 where
  pub api_version : String
  pub kind : String
  pub metadata : Metadata
  pub spec : Spec F

-- `p.SeverityOverrides[rule]`
unfoldable pub override_of : String → List (String × String) → Option String
override_of rule [] = none
override_of rule ((r, s) ∷ rest) = if str_eq r rule then some s else override_of rule rest

abbrev pub overridden_by : String → Option String → String × Bool
overridden_by declared none = (declared, false)
overridden_by declared (some s) = if not (str_eq s declared) then (s, true) else (declared, false)

-- `PolicyConfig.Severity`: the effective severity, and whether it is an override.
unfoldable pub severity : PolicyConfig → String → String → String × Bool
severity p rule declared = overridden_by declared (override_of rule p.severity_overrides)

unfoldable pub severity_in : String → List String → Bool
severity_in severity [] = false
severity_in severity (s ∷ ss) = if str_eq s severity then true else severity_in severity ss

-- `PolicyConfig.Blocks`
unfoldable pub blocks : PolicyConfig → String → Bool
unfolding severity_in
blocks p severity = severity_in severity p.fail_on_severity

-- The `switch` on the mode.
unfoldable pub check_mode : Mode → Result (Unit {0})
check_mode mode =
    if str_eq mode mode_absolute || (str_eq mode mode_percent || str_eq mode mode_both)
    then ok tt
    else if str_eq mode ""
    then err (errorf "spec.cost.mode is required (absolute|percent|both)")
    else err (
        errorf
          (concat ("spec.cost.mode " ∷ quote mode ∷ " is not one of absolute|percent|both" ∷ [])))

module _ {F : Type 0} ⦃fl : Float64 F⦄ where
  open fl use {lt, le, of_int, show_fixed}

  abbrev ge : F → F → Bool
  ge a b = le b a

  -- The blocking thresholds that the mode uses.
  unfoldable pub check_block : CostConfig F → Result (Unit {0})
  check_block cost = do
    refuse_if (not (str_eq cost.mode mode_percent) && le cost.block.max_monthly_delta_usd zero_f)
        (concat ("spec.cost.block.maxMonthlyDeltaUSD must be > 0 in mode " ∷ quote cost.mode ∷ []))
    refuse_if (not (str_eq cost.mode mode_absolute) && le cost.block.max_percent_increase zero_f)
        (concat ("spec.cost.block.maxPercentIncrease must be > 0 in mode " ∷ quote cost.mode ∷ []))
    ok tt

  -- The advisory thresholds, each below its blocking one.
  unfoldable pub check_warn : CostConfig F → Result (Unit {0})
  check_warn cost = do
    refuse_if
        (ge cost.warn.max_monthly_delta_usd cost.block.max_monthly_delta_usd
          && lt zero_f cost.warn.max_monthly_delta_usd)
        (concat (
          "spec.cost.warn.maxMonthlyDeltaUSD ("
          ∷ show_fixed 2 cost.warn.max_monthly_delta_usd
          ∷ ") must be below block ("
          ∷ show_fixed 2 cost.block.max_monthly_delta_usd
          ∷ ")"
          ∷ []))
    refuse_if
        (ge cost.warn.max_percent_increase cost.block.max_percent_increase
          && lt zero_f cost.warn.max_percent_increase)
        (concat (
          "spec.cost.warn.maxPercentIncrease ("
          ∷ show_fixed 1 cost.warn.max_percent_increase
          ∷ ") must be below block ("
          ∷ show_fixed 1 cost.block.max_percent_increase
          ∷ ")"
          ∷ []))
    ok tt

  -- The node count and the autoscaling budget.
  unfoldable pub check_scaling : CostConfig F → Result (Unit {0})
  check_scaling cost = do
    refuse_if (ltb_ℤ cost.assumed_node_count (pos 1)) "spec.cost.assumedNodeCount must be >= 1"
    refuse_if (le cost.autoscaling.max_ceiling_delta_usd zero_f)
        "spec.cost.autoscaling.maxCeilingDeltaUSD must be > 0, otherwise a change could authorise unlimited burst capacity without the gate noticing"
    refuse_if (lt cost.autoscaling.max_burst_ratio (of_int (pos 1)))
        "spec.cost.autoscaling.maxBurstRatio must be >= 1"
    ok tt

  -- The severities and the paths.
  unfoldable pub check_required : Spec F → Result (Unit {0})
  check_required spec = do
    refuse_if (is_empty spec.policy.fail_on_severity)
        "spec.policy.failOnSeverity must list at least one severity"
    refuse_if
        (str_eq spec.paths.manifests ""
          || (str_eq spec.paths.policies "" || str_eq spec.paths.pricing ""))
        "spec.paths.manifests, .policies and .pricing are all required"
    ok tt

  -- `Config.validate`; its checks stand in four groups, in the order of the source.
  unfoldable pub validate : Config F → Result (Unit {0})
  validate c = do
    check_mode c.spec.cost.mode
    check_block c.spec.cost
    check_warn c.spec.cost
    check_scaling c.spec.cost
    check_required c.spec

  -- `Load`, over `os.ReadFile` and `yaml.UnmarshalStrict`.
  pub load :
      (read_file : String → Result String) (unmarshal : String → Result (Config F)) (path : String)
      → Result (Config F)
  load read_file unmarshal path = do
    raw ← wrap "read gate config" (read_file path)
    cfg ← wrap (concat ("parse gate config " ∷ path ∷ [])) (unmarshal raw)
    wrap (concat ("invalid gate config " ∷ path ∷ [])) (validate cfg)
    ok cfg
