-- ===== src/Cost/Delta.antt =====
-- gate/internal/cost/delta.go: the change between a base and a head estimate.
pub mod Rows
pub mod Changes
use cost_risk_aware_gitops_p.Prelude.{
  String, Bool, true, false, not, ◌||◌, dedupe_onto, List, [], ◌∷◌, ◌++◌, map, Option, none, some,
  sort, str_lt, str_eq, if◌then◌else◌,
}
use cost_risk_aware_gitops_p.Prelude.Int.{ℤ, pos, eqb_ℤ}
use cost_risk_aware_gitops_p.Float64.{Float64, zero_f}
use cost_risk_aware_gitops_p.Cost.Types.{Workload, Estimate, ref}
use cost_risk_aware_gitops_p.Cost.Kinds.{new_workload}

pub data Change : Type 0 where
  added removed modified unchanged : Change

pub record WorkloadDelta (F : Type 0) : Type 0 where
  pub ref : String
  pub change : Change
  pub before_usd : F
  pub after_usd : F
  pub delta_usd : F
  pub before_reps : ℤ
  pub after_reps : ℤ
  pub flags : List String
  pub autoscaled : Bool
  pub min_replicas : ℤ
  pub max_replicas : ℤ
  pub floor_usd : F

pub record Delta (F : Type 0) : Type 0 where
  pub baseline_monthly_usd : F
  pub projected_monthly_usd : F
  pub delta_monthly_usd : F
  pub percent_increase : F
  pub has_percent_basis : Bool
  pub estate_baseline_monthly_usd : F
  pub committed_baseline_usd : F
  pub committed_projected_usd : F
  pub committed_delta_usd : F
  pub committed_percent : F
  pub has_committed_basis : Bool
  pub workloads : List (WorkloadDelta F)
  pub flags : List String

module _ {F : Type 0} where
  -- `beforeByRef[ref]`: a later workload of the same reference overwrites an earlier one.
  unfoldable pub by_ref : String → List (Workload F) → Option (Workload F)
  by_ref r [] = none
  by_ref r (w ∷ ws) = elim (by_ref r ws) [
    | some later ↦ some later
    | none ↦ if str_eq (ref w) r then some w else none
  ]

  -- The references of both sides, each once.
  unfoldable pub refs_of : Estimate F → Estimate F → List String
  refs_of base head = dedupe_onto [] (map ref base.workloads ++ map ref head.workloads)

module _ {F : Type 0} ⦃fl : Float64 F⦄ where
  open fl use {sub, mul, div, lt, eq, of_int}

  -- What a map read gives: the workload, or the zero value.
  abbrev or_zero : Option (Workload F) → Workload F
  or_zero none = new_workload "" "" ""
  or_zero (some w) = w

  -- The `switch` on what is there before and after, with the flags to show.
  unfoldable pub change_of : Option (Workload F) → Option (Workload F) → Change × List String
  change_of none after = (added, (or_zero after).flags)
  change_of (some before) none = (removed, before.flags)
  change_of (some before) (some after) =
      if not (eq (sub after.monthly_usd before.monthly_usd) zero_f)
        || not (eqb_ℤ before.replicas after.replicas)
      then (modified, after.flags)
      else (unchanged, after.flags)

  unfoldable pub delta_of : String → Option (Workload F) → Option (Workload F) → WorkloadDelta F
  unfolding change_of
  delta_of r before? after? =
      let before = or_zero before? in
      let after = or_zero after? in
      let (change, flags) = change_of before? after? in
      record {
        ref = r;
        change = change;
        before_usd = before.monthly_usd;
        after_usd = after.monthly_usd;
        delta_usd = sub after.monthly_usd before.monthly_usd;
        before_reps = before.replicas;
        after_reps = after.replicas;
        flags = flags;
        autoscaled = after.autoscaled;
        min_replicas = after.min_replicas;
        max_replicas = after.max_replicas;
        floor_usd = after.floor_monthly_usd;
      }

  -- Largest increase first, then by reference.
  abbrev pub delta_less : WorkloadDelta F → WorkloadDelta F → Bool
  delta_less a b =
      if not (eq a.delta_usd b.delta_usd) then lt b.delta_usd a.delta_usd else str_lt a.ref b.ref

  unfoldable pub workload_deltas : Estimate F → Estimate F → List (WorkloadDelta F)
  unfolding delta_of
  workload_deltas base head =
      map (λ r. delta_of r (by_ref r base.workloads) (by_ref r head.workloads)) (refs_of base head)

  -- `(part / whole) * 100`
  abbrev pub percent : F → F → F
  percent part whole = mul (div part whole) (of_int (pos 100))

  -- The percentage that the verdict reads, and whether there is a basis for it.
  unfoldable pub committed_percent : (estate committed_base committed_delta : F) → F × Bool
  committed_percent estate committed_base committed_delta =
      if lt zero_f estate
      then (percent committed_delta estate, true)
      else if lt zero_f committed_base
      then (percent committed_delta committed_base, true)
      else (zero_f, false)

  -- `Compare`
  unfoldable pub compare_estimates : Estimate F → Estimate F → F → Delta F
  unfolding committed_percent workload_deltas
  compare_estimates base head estate =
      let delta = sub head.monthly_usd base.monthly_usd in
      let committed_delta = sub head.committed_monthly_usd base.committed_monthly_usd in
      let (percent_committed, has_committed) =
        committed_percent estate base.committed_monthly_usd committed_delta in
      record {
        baseline_monthly_usd = base.monthly_usd;
        projected_monthly_usd = head.monthly_usd;
        delta_monthly_usd = delta;
        percent_increase = if lt zero_f estate then percent delta estate else zero_f;
        has_percent_basis = lt zero_f estate;
        estate_baseline_monthly_usd = estate;
        committed_baseline_usd = base.committed_monthly_usd;
        committed_projected_usd = head.committed_monthly_usd;
        committed_delta_usd = committed_delta;
        committed_percent = percent_committed;
        has_committed_basis = has_committed;
        workloads = sort delta_less (workload_deltas base head);
        flags = base.flags ++ head.flags;
      }
