-- ===== src/Verdict/CostGate/Reasons.antt =====
-- Every threshold that blocks is named: `passed` and `fired` say the same.
use cost_risk_aware_gitops_p.Prelude.{
  ◌≡◌, refl, Bool, false, List, [], ◌∷◌, String, arith, is_empty, is_empty-append_cons,
  if◌then◌else◌,
}
use cost_risk_aware_gitops_p.Float64.{Float64}
use cost_risk_aware_gitops_p.Config.{CostConfig, AutoscalingBudget}
use cost_risk_aware_gitops_p.Cost.Delta.{Delta, WorkloadDelta}
use cost_risk_aware_gitops_p.Verdict.{CostVerdict}
use cost_risk_aware_gitops_p.Verdict.CostGate.{
  fire, burst_message, is_bursting, ceiling_delta, judge_ceiling, judge_bursts,
  evaluate_autoscaling, judge_absolute, judge_percent, note_fallback, judge_committed,
  evaluate_cost, new_cost_verdict,
}

-- The errors are those given, and a threshold fired just where the gate does not pass.
abbrev pub IsExplained : {F : Type 0} → List String → CostVerdict F → Type 0
IsExplained errors cv = (cv.errors ≡ errors) × (cv.passed ≡ is_empty cv.fired)

fire-IsExplained :
    {F : Type 0} (cv : CostVerdict F) (message : String) {errors : List String}
    → IsExplained errors cv
    → IsExplained errors (fire cv message)
fire-IsExplained cv message h = ground (arith, is_empty-append_cons cv.fired message [])

module _ {F : Type 0} ⦃fl : Float64 F⦄ where
  judge_ceiling-IsExplained :
      (cfg : AutoscalingBudget F) (ceiling : F) (cv : CostVerdict F) {errors : List String}
      → IsExplained errors cv
      → IsExplained errors (judge_ceiling cfg ceiling cv)
  unfolding judge_ceiling
  judge_ceiling-IsExplained cfg ceiling cv h = grind (arith, is_empty-append_cons)

  judge_absolute-IsExplained :
      (check : Bool) (cfg : CostConfig F) (delta : Delta F) (cv : CostVerdict F)
      {errors : List String}
      → IsExplained errors cv
      → IsExplained errors (judge_absolute check cfg delta cv)
  unfolding judge_absolute
  judge_absolute-IsExplained check cfg delta cv h = grind (arith, is_empty-append_cons)

  judge_percent-IsExplained :
      (check : Bool) (cfg : CostConfig F) (delta : Delta F) (cv : CostVerdict F)
      {errors : List String}
      → IsExplained errors cv
      → IsExplained errors (judge_percent check cfg delta cv)
  unfolding judge_percent
  judge_percent-IsExplained check cfg delta cv h = grind (arith, is_empty-append_cons)

  judge_bursts-IsExplained :
      (cfg : AutoscalingBudget F) (ws : List (WorkloadDelta F)) (cv : CostVerdict F)
      {errors : List String}
      → IsExplained errors cv
      → IsExplained errors (judge_bursts cfg ws cv)
  unfolding judge_bursts
  judge_bursts-IsExplained cfg [] cv h = h
  judge_bursts-IsExplained cfg (w ∷ ws) cv h =
      judge_bursts-IsExplained cfg ws
        (if is_bursting cfg w then fire cv (burst_message cfg w) else cv)
        (ground (arith, fire-IsExplained cv (burst_message cfg w) h))

  evaluate_autoscaling-IsExplained :
      (cfg : AutoscalingBudget F) (delta : Delta F) (cv : CostVerdict F) {errors : List String}
      → IsExplained errors cv
      → IsExplained errors (evaluate_autoscaling cfg delta cv)
  unfolding evaluate_autoscaling
  evaluate_autoscaling-IsExplained cfg delta cv h =
      let ceiling = judge_ceiling-IsExplained cfg (ceiling_delta delta) cv h in
      ground (
        arith,
        judge_bursts-IsExplained cfg delta.workloads (judge_ceiling cfg (ceiling_delta delta) cv)
            ceiling,
      )

  note_fallback-IsExplained :
      (cfg : CostConfig F) (delta : Delta F) (cv : CostVerdict F) {errors : List String}
      → IsExplained errors cv
      → IsExplained errors (note_fallback cfg delta cv)
  unfolding note_fallback
  note_fallback-IsExplained cfg delta cv h = ground arith

  judge_committed-IsExplained :
      (cfg : CostConfig F) (delta : Delta F) (cv : CostVerdict F) {errors : List String}
      → IsExplained errors cv
      → IsExplained errors (judge_committed cfg delta cv)
  unfolding judge_committed
  judge_committed-IsExplained cfg delta cv h =
      judge_percent-IsExplained _ cfg delta _
        (judge_absolute-IsExplained _ cfg delta _ (note_fallback-IsExplained cfg delta cv h))

  -- With no error, the cost sub-gate passes exactly when it fired no threshold.
  pub evaluate_cost-IsExplained :
      (cfg : CostConfig F) (delta : Delta F) → IsExplained [] (evaluate_cost cfg delta [])
  unfolding evaluate_cost
  evaluate_cost-IsExplained cfg delta =
      let cv = new_cost_verdict delta [] in
      let elastic = evaluate_autoscaling-IsExplained cfg.autoscaling delta cv (refl, refl) in
      ground (
        arith,
        judge_committed-IsExplained cfg delta (evaluate_autoscaling cfg.autoscaling delta cv)
            elastic,
      )

  -- With an error it fails.
  pub evaluate_cost_error :
      (cfg : CostConfig F) (delta : Delta F) (e : String) (es : List String)
      → ((evaluate_cost cfg delta (e ∷ es)).errors ≡ e ∷ es)
        × ((evaluate_cost cfg delta (e ∷ es)).passed ≡ false)
  unfolding evaluate_cost
  evaluate_cost_error cfg delta e es = (refl, refl)
