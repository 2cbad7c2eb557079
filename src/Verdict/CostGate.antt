-- ===== src/Verdict/CostGate.antt =====
-- verdict.go: `evaluateCost` and `evaluateAutoscaling`, which write to one `CostVerdict`.
pub mod Limits
pub mod Reasons
use cost_risk_aware_gitops_p.Prelude.{
  String, Bool, true, false, not, ◌&&◌, ◌||◌, List, [], ◌∷◌, ◌++◌, is_empty, concat, str_eq,
  if◌then◌else◌,
}
use cost_risk_aware_gitops_p.Prelude.Int.{pos}
use cost_risk_aware_gitops_p.Float64.{Float64, zero_f}
use cost_risk_aware_gitops_p.Config.{
  CostConfig, AutoscalingBudget, Mode, mode_absolute, mode_percent, mode_both,
}
use cost_risk_aware_gitops_p.Cost.Delta.{Delta, WorkloadDelta}
use cost_risk_aware_gitops_p.Verdict.{CostVerdict}

-- A threshold was crossed, and blocks.
abbrev pub fire : {F : Type 0} → CostVerdict F → String → CostVerdict F
fire cv message = record cv { passed = false; fired = cv.fired ++ message ∷ [] }

-- A threshold was crossed, and is reported.
abbrev pub warn : {F : Type 0} → CostVerdict F → String → CostVerdict F
warn cv message = record cv { warned = true; warnings = cv.warnings ++ message ∷ [] }

abbrev pub checks_absolute : Mode → Bool
checks_absolute mode = str_eq mode mode_absolute || str_eq mode mode_both

abbrev pub checks_percent : Mode → Bool
checks_percent mode = str_eq mode mode_percent || str_eq mode mode_both

abbrev no_baseline_message : String
no_baseline_message =
    "no cost baseline exists for this change (the workload is new), so a percentage increase is undefined; the absolute threshold was applied instead"

module _ {F : Type 0} ⦃fl : Float64 F⦄ where
  open fl use {sub, div, lt, le, show_fixed}

  -- What the change authorises beyond what it commits to.
  abbrev pub ceiling_delta : Delta F → F
  ceiling_delta delta = sub delta.delta_monthly_usd delta.committed_delta_usd

  abbrev dollars : String → F → String → F → String → String
  dollars before a between b after =
      concat (before ∷ show_fixed 2 a ∷ between ∷ show_fixed 2 b ∷ after ∷ [])

  abbrev percents : String → F → String → F → String → String
  percents before a between b after =
      concat (before ∷ show_fixed 1 a ∷ between ∷ show_fixed 1 b ∷ after ∷ [])

  unfoldable pub judge_ceiling : AutoscalingBudget F → F → CostVerdict F → CostVerdict F
  judge_ceiling cfg ceiling cv =
      if lt cfg.max_ceiling_delta_usd ceiling
      then fire cv (
          dollars "this change authorises $" ceiling
            "/month of additional burst capacity, above the $" cfg.max_ceiling_delta_usd
            " limit, the workload would not normally cost this, but nothing would stop it")
      else if lt zero_f cfg.warn_ceiling_delta_usd && lt cfg.warn_ceiling_delta_usd ceiling
      then warn cv (
          dollars "this change authorises $" ceiling
            "/month of additional burst capacity (advisory level $" cfg.warn_ceiling_delta_usd ")")
      else cv

  -- A workload whose ceiling is too large a multiple of its floor.
  abbrev pub is_bursting : AutoscalingBudget F → WorkloadDelta F → Bool
  is_bursting cfg w =
      if not w.autoscaled || le w.floor_usd zero_f
      then false
      else lt cfg.max_burst_ratio (div w.after_usd w.floor_usd)

  pub burst_message : AutoscalingBudget F → WorkloadDelta F → String
  burst_message cfg w = concat (
      "`"
      ∷ w.ref
      ∷ "` can burst to "
      ∷ show_fixed 1 (div w.after_usd w.floor_usd)
      ∷ "× its committed cost ($"
      ∷ show_fixed 2 w.floor_usd
      ∷ " → $"
      ∷ show_fixed 2 w.after_usd
      ∷ "), above the "
      ∷ show_fixed 1 cfg.max_burst_ratio
      ∷ "× limit"
      ∷ [])

  unfoldable pub judge_bursts :
      AutoscalingBudget F → List (WorkloadDelta F) → CostVerdict F → CostVerdict F
  judge_bursts cfg [] cv = cv
  judge_bursts cfg (w ∷ ws) cv =
      judge_bursts cfg ws (if is_bursting cfg w then fire cv (burst_message cfg w) else cv)

  -- `evaluateAutoscaling`
  unfoldable pub evaluate_autoscaling :
      AutoscalingBudget F → Delta F → CostVerdict F → CostVerdict F
  evaluate_autoscaling cfg delta cv =
      if le (ceiling_delta delta) zero_f
      then cv
      else judge_bursts cfg delta.workloads (judge_ceiling cfg (ceiling_delta delta) cv)

  unfoldable pub judge_absolute : Bool → CostConfig F → Delta F → CostVerdict F → CostVerdict F
  judge_absolute check cfg delta cv =
      if check && lt cfg.block.max_monthly_delta_usd delta.committed_delta_usd
      then fire cv (
          dollars "committed monthly cost increases by $" delta.committed_delta_usd ", above the $"
            cfg.block.max_monthly_delta_usd " limit for a single change")
      else if check
          && (lt zero_f cfg.warn.max_monthly_delta_usd
              && lt cfg.warn.max_monthly_delta_usd delta.committed_delta_usd)
      then warn cv (
          dollars "committed monthly cost increases by $" delta.committed_delta_usd ", above the $"
            cfg.warn.max_monthly_delta_usd " advisory level")
      else cv

  unfoldable pub judge_percent : Bool → CostConfig F → Delta F → CostVerdict F → CostVerdict F
  judge_percent check cfg delta cv =
      if check && lt cfg.block.max_percent_increase delta.committed_percent
      then fire cv (
          percents "committed monthly cost increases by " delta.committed_percent "%, above the "
            cfg.block.max_percent_increase "% limit for a single change")
      else if check
          && (lt zero_f cfg.warn.max_percent_increase
              && lt cfg.warn.max_percent_increase delta.committed_percent)
      then warn cv (
          percents "committed monthly cost increases by " delta.committed_percent "%, above the "
            cfg.warn.max_percent_increase "% advisory level")
      else cv

  -- Which of the two thresholds are checked: with no basis for a percentage, the absolute one stands in.
  abbrev pub falls_back : CostConfig F → Delta F → Bool
  falls_back cfg delta =
      checks_percent cfg.mode && not delta.has_committed_basis && not (checks_absolute cfg.mode)

  abbrev pub absolute_applies : CostConfig F → Delta F → Bool
  absolute_applies cfg delta = checks_absolute cfg.mode || falls_back cfg delta

  abbrev pub percent_applies : CostConfig F → Delta F → Bool
  percent_applies cfg delta = checks_percent cfg.mode && delta.has_committed_basis

  -- The report says when the absolute threshold stands in.
  unfoldable pub note_fallback : CostConfig F → Delta F → CostVerdict F → CostVerdict F
  note_fallback cfg delta cv =
      if falls_back cfg delta
      then record cv { warnings = cv.warnings ++ no_baseline_message ∷ [] }
      else cv

  unfoldable pub judge_committed : CostConfig F → Delta F → CostVerdict F → CostVerdict F
  judge_committed cfg delta cv =
      judge_percent (percent_applies cfg delta) cfg delta
        (judge_absolute (absolute_applies cfg delta) cfg delta (note_fallback cfg delta cv))

  -- A change that reduces spend is let through, if the configuration says so.
  abbrev pub is_allowed_decrease : CostConfig F → Delta F → Bool
  is_allowed_decrease cfg delta =
      le delta.committed_delta_usd zero_f && cfg.allow_unbounded_decrease

  abbrev pub new_cost_verdict : Delta F → List String → CostVerdict F
  new_cost_verdict delta errors = record {
    delta = delta;
    passed = true;
    warned = false;
    fired = [];
    warnings = [];
    errors = errors;
  }

  -- `evaluateCost`
  unfoldable pub evaluate_cost : CostConfig F → Delta F → List String → CostVerdict F
  evaluate_cost cfg delta errors =
      let cv = new_cost_verdict delta errors in
      let judged = evaluate_autoscaling cfg.autoscaling delta cv in
      if not (is_empty errors)
      then record cv { passed = false }
      else if is_allowed_decrease cfg delta
      then judged
      else judge_committed cfg delta judged
