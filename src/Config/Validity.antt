-- ===== src/Config/Validity.antt =====
-- What `validate` accepts, and what an accepted configuration gives the cost sub-gate.
use cost_risk_aware_gitops_p.Prelude.{◌≡◌, ◌↔◌, ◌⊎◌, ◌≢◌, true, false, String, eq_iff, arith, []}
use cost_risk_aware_gitops_p.Prelude.Int.{pos, leb_ℤ}
use cost_risk_aware_gitops_p.Float64.{Float64, zero_f}
use cost_risk_aware_gitops_p.Results.{Result, ok}
use cost_risk_aware_gitops_p.Config.{
  Config, Spec, CostConfig, Mode, mode_absolute, mode_percent, mode_both, check_mode, check_block,
  check_warn, check_scaling, check_required, validate, load,
}

abbrev pub IsKnown : Mode → Type 0
IsKnown mode = (mode ≡ mode_absolute) ⊎ (mode ≡ mode_percent) ⊎ (mode ≡ mode_both)

check_mode_iff : (mode : Mode) → (check_mode mode ≡ ok tt) ↔ IsKnown mode
unfolding check_mode
check_mode_iff mode =
    let a = eq_iff mode mode_absolute in
    let p = eq_iff mode mode_percent in
    let b = eq_iff mode mode_both in (λ h. ground arith, λ h. ground arith)

module _ {F : Type 0} ⦃fl : Float64 F⦄ where
  open fl use {lt, le, of_int}

  -- The thresholds that block are positive, in a mode that uses them.
  pub record IsBlocking (cost : CostConfig F) : Type 0 where
    pub delta_pos :
        (cost.mode ≡ mode_percent) ⊎ (le cost.block.max_monthly_delta_usd zero_f ≡ false)
    pub percent_pos :
        (cost.mode ≡ mode_absolute) ⊎ (le cost.block.max_percent_increase zero_f ≡ false)

  -- An advisory threshold that is set is below the one that blocks.
  pub record IsAdvisory (cost : CostConfig F) : Type 0 where
    pub delta_below :
        (le cost.block.max_monthly_delta_usd cost.warn.max_monthly_delta_usd ≡ false)
        ⊎ (lt zero_f cost.warn.max_monthly_delta_usd ≡ false)
    pub percent_below :
        (le cost.block.max_percent_increase cost.warn.max_percent_increase ≡ false)
        ⊎ (lt zero_f cost.warn.max_percent_increase ≡ false)

  pub record IsScaling (cost : CostConfig F) : Type 0 where
    pub node_count_pos : leb_ℤ (pos 1) cost.assumed_node_count ≡ true
    pub ceiling_pos : le cost.autoscaling.max_ceiling_delta_usd zero_f ≡ false
    pub burst_ratio_ge_one : lt cost.autoscaling.max_burst_ratio (of_int (pos 1)) ≡ false

  pub record IsComplete (spec : Spec F) : Type 0 where
    pub severities_listed : spec.policy.fail_on_severity ≢ []
    pub manifests_set : spec.paths.manifests ≢ ""
    pub policies_set : spec.paths.policies ≢ ""
    pub pricing_set : spec.paths.pricing ≢ ""

  pub record IsValid (c : Config F) : Type 0 where
    pub mode_known : IsKnown c.spec.cost.mode
    pub blocking : IsBlocking c.spec.cost
    pub advisory : IsAdvisory c.spec.cost
    pub scaling : IsScaling c.spec.cost
    pub complete : IsComplete c.spec

  check_block_iff : (cost : CostConfig F) → (check_block cost ≡ ok tt) ↔ IsBlocking cost
  unfolding check_block
  check_block_iff cost = (
    λ h. ground (arith, eq_iff cost.mode mode_absolute, eq_iff cost.mode mode_percent),
    λ v. ground (arith, eq_iff cost.mode mode_absolute, eq_iff cost.mode mode_percent),
  )

  check_warn_iff : (cost : CostConfig F) → (check_warn cost ≡ ok tt) ↔ IsAdvisory cost
  unfolding check_warn
  check_warn_iff cost = (λ h. ground arith, λ v. ground arith)

  check_scaling_iff : (cost : CostConfig F) → (check_scaling cost ≡ ok tt) ↔ IsScaling cost
  unfolding check_scaling
  check_scaling_iff cost = (λ h. ground arith, λ v. ground arith)

  check_required_iff : (spec : Spec F) → (check_required spec ≡ ok tt) ↔ IsComplete spec
  unfolding check_required
  check_required_iff spec = (
    λ h. ground (
      arith,
      eq_iff spec.paths.manifests "",
      eq_iff spec.paths.policies "",
      eq_iff spec.paths.pricing "",
    ),
    λ v. ground (
      arith,
      eq_iff spec.paths.manifests "",
      eq_iff spec.paths.policies "",
      eq_iff spec.paths.pricing "",
    ),
  )

  -- `validate` accepts a configuration exactly when the mode is known, the thresholds that it uses are
  -- positive, each advisory threshold is unset or below its blocking one, at least one node is
  -- assumed, burst capacity is bounded by a positive sum and a ratio of at least 1, and severities and
  -- paths are given.
  pub validate_iff : (c : Config F) → (validate c ≡ ok tt) ↔ IsValid c
  unfolding validate
  validate_iff c =
      let m = check_mode_iff c.spec.cost.mode in
      let b = check_block_iff c.spec.cost in
      let w = check_warn_iff c.spec.cost in
      let s = check_scaling_iff c.spec.cost in
      let r = check_required_iff c.spec in (λ h. ground arith, λ v. ground arith)

  -- A configuration that `Load` returns has passed `validate`.
  pub load-IsValid :
      (read_file : String → Result String) (unmarshal : String → Result (Config F)) (path : String)
      {c : Config F}
      → load read_file unmarshal path ≡ ok c
      → IsValid c
  unfolding load
  load-IsValid read_file unmarshal path {c} h = (validate_iff c).0 (ground arith)
