-- ===== src/Verdict/CostGate/Limits.antt =====
-- When `evaluateCost` passes, by a description of the budgets that does not follow the code.
use cost_risk_aware_gitops_p.Prelude.{
  ◌≡◌, ◌↔◌, ◌⊎◌, Bool, true, false, not, ◌&&◌, List, [], ◌∷◌, String, eq_iff, arith, All,
  if◌then◌else◌,
}
use cost_risk_aware_gitops_p.Float64.{Float64, zero_f}
use cost_risk_aware_gitops_p.Config.{
  CostConfig, AutoscalingBudget, Mode, mode_absolute, mode_percent, mode_both,
}
use cost_risk_aware_gitops_p.Cost.Delta.{Delta, WorkloadDelta}
use cost_risk_aware_gitops_p.Verdict.{CostVerdict}
use cost_risk_aware_gitops_p.Verdict.CostGate.{
  ceiling_delta, is_bursting, fire, burst_message, judge_ceiling, judge_bursts,
  evaluate_autoscaling, judge_absolute, judge_percent, judge_committed, note_fallback,
  absolute_applies, percent_applies, evaluate_cost, new_cost_verdict,
}

-- The dollar limit holds in two modes, and stands in where a percentage has no basis.
abbrev pub LimitsDollars : Mode → Bool → Type 0
LimitsDollars mode has_basis =
    (mode ≡ mode_absolute) ⊎ (mode ≡ mode_both) ⊎ ((mode ≡ mode_percent) × (has_basis ≡ false))

abbrev pub LimitsPercent : Mode → Bool → Type 0
LimitsPercent mode has_basis = ((mode ≡ mode_percent) ⊎ (mode ≡ mode_both)) × (has_basis ≡ true)

module _ {F : Type 0} ⦃fl : Float64 F⦄ where
  open fl use {div, lt, le}

  -- An autoscaled workload that costs something idle stays within the burst ratio.
  abbrev pub BurstsWithin : F → WorkloadDelta F → Type 0
  BurstsWithin ratio w =
      w.autoscaled ≡ true
      → le w.floor_usd zero_f ≡ false
      → lt ratio (div w.after_usd w.floor_usd) ≡ false

  -- The committed spend is within the limits that the mode sets.
  pub record CommittedWithin (cfg : CostConfig F) (delta : Delta F) : Type 0 where
    pub dollars :
        LimitsDollars cfg.mode delta.has_committed_basis
        → lt cfg.block.max_monthly_delta_usd delta.committed_delta_usd ≡ false
    pub percents :
        LimitsPercent cfg.mode delta.has_committed_basis
        → lt cfg.block.max_percent_increase delta.committed_percent ≡ false

  -- The burst capacity that a change adds, if any, is within its ceiling and its ratio.
  pub record ElasticWithin (cfg : AutoscalingBudget F) (delta : Delta F) : Type 0 where
    pub ceiling :
        le (ceiling_delta delta) zero_f ≡ false
        → lt cfg.max_ceiling_delta_usd (ceiling_delta delta) ≡ false
    pub bursts :
        le (ceiling_delta delta) zero_f ≡ false
        → All (BurstsWithin cfg.max_burst_ratio) delta.workloads

  -- A decrease that is let through is not judged.
  abbrev pub IsJudged : CostConfig F → Delta F → Type 0
  IsJudged cfg delta =
      (le delta.committed_delta_usd zero_f ≡ false) ⊎ (cfg.allow_unbounded_decrease ≡ false)

  pub record IsWithin (cfg : CostConfig F) (delta : Delta F) : Type 0 where
    pub elastic : ElasticWithin cfg.autoscaling delta
    pub committed : IsJudged cfg delta → CommittedWithin cfg delta

  judge_bursts_iff :
      (cfg : AutoscalingBudget F) (ws : List (WorkloadDelta F)) (cv : CostVerdict F)
      → ((judge_bursts cfg ws cv).passed ≡ true)
        ↔ ((cv.passed ≡ true) × All (BurstsWithin cfg.max_burst_ratio) ws)
  unfolding judge_bursts
  judge_bursts_iff cfg [] cv = (λ h. (h, tt), λ h. h.0)
  judge_bursts_iff cfg (w ∷ ws) cv =
      let rest = judge_bursts_iff cfg ws (step cv) in
      (λ h. ground (arith, rest.0 h), λ h. rest.1 (ground arith))
    where
      step : CostVerdict F → CostVerdict F
      step cv = if is_bursting cfg w then fire cv (burst_message cfg w) else cv

  judge_ceiling-passed :
      (cfg : AutoscalingBudget F) (ceiling : F) (cv : CostVerdict F)
      → (judge_ceiling cfg ceiling cv).passed
        ≡ (cv.passed && not (lt cfg.max_ceiling_delta_usd ceiling))
  unfolding judge_ceiling
  judge_ceiling-passed cfg ceiling cv = ground arith

  judge_absolute-passed :
      (check : Bool) (cfg : CostConfig F) (delta : Delta F) (cv : CostVerdict F)
      → (judge_absolute check cfg delta cv).passed
        ≡ (cv.passed && not (check && lt cfg.block.max_monthly_delta_usd delta.committed_delta_usd))
  unfolding judge_absolute
  judge_absolute-passed check cfg delta cv = ground arith

  judge_percent-passed :
      (check : Bool) (cfg : CostConfig F) (delta : Delta F) (cv : CostVerdict F)
      → (judge_percent check cfg delta cv).passed
        ≡ (cv.passed && not (check && lt cfg.block.max_percent_increase delta.committed_percent))
  unfolding judge_percent
  judge_percent-passed check cfg delta cv = ground arith

  absolute_applies_iff :
      (cfg : CostConfig F) (delta : Delta F)
      → (absolute_applies cfg delta ≡ true) ↔ LimitsDollars cfg.mode delta.has_committed_basis
  absolute_applies_iff cfg delta =
      let a = eq_iff cfg.mode mode_absolute in
      let p = eq_iff cfg.mode mode_percent in
      let b = eq_iff cfg.mode mode_both in (λ h. ground arith, λ h. ground arith)

  percent_applies_iff :
      (cfg : CostConfig F) (delta : Delta F)
      → (percent_applies cfg delta ≡ true) ↔ LimitsPercent cfg.mode delta.has_committed_basis
  percent_applies_iff cfg delta =
      let p = eq_iff cfg.mode mode_percent in
      let b = eq_iff cfg.mode mode_both in (λ h. ground arith, λ h. ground arith)

  note_fallback-passed :
      (cfg : CostConfig F) (delta : Delta F) (cv : CostVerdict F)
      → (note_fallback cfg delta cv).passed ≡ cv.passed
  unfolding note_fallback
  note_fallback-passed cfg delta cv = ground arith

  judge_committed-passed :
      (cfg : CostConfig F) (delta : Delta F) (cv : CostVerdict F)
      → (judge_committed cfg delta cv).passed ≡ (
          (cv.passed
            && not (
                absolute_applies cfg delta
                && lt cfg.block.max_monthly_delta_usd delta.committed_delta_usd))
          && not (
              percent_applies cfg delta
              && lt cfg.block.max_percent_increase delta.committed_percent))
  unfolding judge_committed
  judge_committed-passed cfg delta cv =
      rw (judge_percent-passed, judge_absolute-passed, note_fallback-passed)

  judge_committed_iff :
      (cfg : CostConfig F) (delta : Delta F) (cv : CostVerdict F)
      → ((judge_committed cfg delta cv).passed ≡ true)
        ↔ ((cv.passed ≡ true) × CommittedWithin cfg delta)
  judge_committed_iff cfg delta cv =
      let a = absolute_applies_iff cfg delta in
      let p = percent_applies_iff cfg delta in
      rw (judge_committed-passed cfg delta cv) (λ h. ground arith, λ h. ground arith)

  evaluate_autoscaling_iff :
      (cfg : AutoscalingBudget F) (delta : Delta F) (cv : CostVerdict F)
      → ((evaluate_autoscaling cfg delta cv).passed ≡ true)
        ↔ ((cv.passed ≡ true) × ElasticWithin cfg delta)
  unfolding evaluate_autoscaling
  evaluate_autoscaling_iff cfg delta cv =
      let bursts =
        judge_bursts_iff cfg delta.workloads (judge_ceiling cfg (ceiling_delta delta) cv) in
      let ceiling = judge_ceiling-passed cfg (ceiling_delta delta) cv in
      (λ h. ground arith, λ h. ground arith)

  -- `evaluateCost` passes a change exactly when nothing went wrong and the change stays within every
  -- budget: its burst capacity, if it adds any, within the ceiling and the ratio of every workload;
  -- its committed spend, unless a decrease is let through, within the dollar limit where the mode or a
  -- missing baseline asks for it, and within the percentage where the mode asks and has a basis.
  pub evaluate_cost_iff :
      (cfg : CostConfig F) (delta : Delta F) (errors : List String)
      → ((evaluate_cost cfg delta errors).passed ≡ true) ↔ ((errors ≡ []) × IsWithin cfg delta)
  unfolding evaluate_cost
  evaluate_cost_iff cfg delta errors =
      let cv = new_cost_verdict delta errors in
      let elastic = evaluate_autoscaling_iff cfg.autoscaling delta cv in
      let committed =
        judge_committed_iff cfg delta (evaluate_autoscaling cfg.autoscaling delta cv) in
      (λ h. ground arith, λ h. ground arith)
