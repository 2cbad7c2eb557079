-- ===== src/Report/Sections.antt =====
-- report.go: the sections on cost, policy and assumptions.
use cost_risk_aware_gitops_p.Prelude.{
  String, Bool, true, false, ◌&&◌, if◌then◌else◌, is_empty, List, [], ◌∷◌, ◌++◌, map, keep, concat,
  join, show_int, str_eq, dedupe,
}
use cost_risk_aware_gitops_p.Prelude.Int.{eqb_ℤ}
use cost_risk_aware_gitops_p.Float64.{Float64, zero_f}
use cost_risk_aware_gitops_p.Cost.Delta.{
  Change, added, removed, modified, unchanged, WorkloadDelta, Delta,
}
use cost_risk_aware_gitops_p.Policy.{Violation, ref}
use cost_risk_aware_gitops_p.Verdict.{Verdict, PolicyVerdict}

abbrev pub bullet : String → String
bullet s = concat ("- " ∷ s ∷ "\n" ∷ [])

abbrev pub caveat : String → String
caveat s = concat ("> ⚠\u{fe0f} " ∷ s ∷ "\n\n" ∷ [])

-- A list with what is written above and below it, where it has lines.
unfoldable pub listed : (above below : String) → List String → List String
listed above below [] = []
listed above below (l ∷ ls) = above ∷ ((l ∷ ls) ++ below ∷ [])

abbrev status_text : Bool → String
status_text true = "passed"
status_text false = "**failed**"

abbrev pub change_text : Change → String
change_text added = "added"
change_text removed = "removed"
change_text modified = "modified"
change_text unchanged = "unchanged"

abbrev pub is_changed : Change → Bool
is_changed added = true
is_changed removed = true
is_changed modified = true
is_changed unchanged = false

-- The table of the workloads that changed.
abbrev pub table : List String → List String
table [] = []
table (r ∷ rs) =
    "| Workload | Change | Replicas | Before | After | Delta |\n"
    ∷ "|---|---|---:|---:|---:|---:|\n"
    ∷ join "\n" (r ∷ rs)
    ∷ "\n\n"
    ∷ []

-- `writePolicy`
abbrev fix_line : String → String
fix_line s = if str_eq s "" then "" else concat ("  - *Fix:* " ∷ s ∷ "\n" ∷ [])

abbrev pub blocking_item : Violation → String
blocking_item viol = concat (
    "- **`"
    ∷ viol.rule
    ∷ "`** on `"
    ∷ ref viol
    ∷ "`\n  - "
    ∷ viol.message
    ∷ "\n"
    ∷ fix_line viol.remediation
    ∷ [])

abbrev pub warning_item : Violation → String
warning_item viol =
    concat ("- `" ∷ viol.rule ∷ "` on `" ∷ ref viol ∷ "` - " ∷ viol.message ∷ "\n" ∷ [])

abbrev pub blocking_section : List Violation → List String
blocking_section vs = listed "**Blocking violations**\n\n" "\n" (map blocking_item vs)

abbrev pub warnings_section : List Violation → List String
warnings_section vs =
    listed "<details><summary>Warnings (not blocking)</summary>\n\n" "\n</details>\n\n"
      (map warning_item vs)

abbrev pub errors_section : List String → List String
errors_section es = listed "**Evaluation errors**\n\n" "\n" (map bullet es)

abbrev pub policy_findings : PolicyVerdict → List String
policy_findings p =
    blocking_section p.blocking ++ (warnings_section p.warnings ++ errors_section p.errors)

unfoldable pub policy_section : PolicyVerdict → List String
unfolding listed
policy_section p =
    concat ("### Policy - " ∷ status_text p.passed ∷ "\n\n" ∷ [])
    ∷ (if is_empty p.blocking && (is_empty p.warnings && is_empty p.errors)
        then "No violations.\n\n" ∷ []
        else policy_findings p)

module _ {F : Type 0} where
  abbrev pub flag_text : WorkloadDelta F → String → String
  flag_text w f = concat ("`" ∷ w.ref ∷ "`: " ∷ f ∷ [])

  unfoldable pub workload_flags : List (WorkloadDelta F) → List String
  workload_flags [] = []
  workload_flags (w ∷ ws) = map (flag_text w) w.flags ++ workload_flags ws

  -- `collectFlags`
  unfoldable pub collect_flags : Delta F → List String
  unfolding workload_flags
  collect_flags d = d.flags ++ workload_flags d.workloads

  -- `writeAssumptions`
  unfoldable pub assumptions_section : Delta F → List String
  unfolding collect_flags dedupe listed
  assumptions_section d =
      listed "<details><summary>Assumptions behind these figures</summary>\n\n" "\n</details>\n\n"
        (map bullet (dedupe (collect_flags d)))

module _ {F : Type 0} ⦃fl : Float64 F⦄ where
  open fl use {sub, lt, le, show_fixed, show_signed}

  -- `money` and `signedMoney`; the negation is of a number below zero.
  abbrev pub money : F → String
  money x = concat ("$" ∷ show_fixed 2 x ∷ [])

  abbrev pub signed_money : F → String
  signed_money x =
      if le zero_f x
      then concat ("+$" ∷ show_fixed 2 x ∷ [])
      else concat ("−$" ∷ show_fixed 2 (sub zero_f x) ∷ [])

  abbrev replicas_text : WorkloadDelta F → String
  replicas_text w =
      if w.autoscaled
      then concat (show_int w.min_replicas ∷ "–" ∷ show_int w.max_replicas ∷ " (auto)" ∷ [])
      else if eqb_ℤ w.before_reps w.after_reps
      then show_int w.after_reps
      else concat (show_int w.before_reps ∷ " → " ∷ show_int w.after_reps ∷ [])

  abbrev after_text : WorkloadDelta F → String
  after_text w =
      if w.autoscaled
      then concat (money w.floor_usd ∷ "–**" ∷ money w.after_usd ∷ "**" ∷ [])
      else money w.after_usd

  -- The row of a workload.
  unfoldable pub row : WorkloadDelta F → String
  row w = concat (
      "| `"
      ∷ w.ref
      ∷ "` | "
      ∷ change_text w.change
      ∷ " | "
      ∷ replicas_text w
      ∷ " | "
      ∷ money w.before_usd
      ∷ " | "
      ∷ after_text w
      ∷ " | **"
      ∷ signed_money w.delta_usd
      ∷ "** |"
      ∷ [])

  -- Only workloads whose cost moved have one.
  abbrev pub changed_rows : List (WorkloadDelta F) → List String
  changed_rows ws = map row (keep (λ w. is_changed w.change) ws)

  abbrev committed_change : Delta F → String
  committed_change d =
      if d.has_committed_basis
      then concat (
          signed_money d.committed_delta_usd ∷ " (" ∷ show_signed 1 d.committed_percent ∷ "%)" ∷ [])
      else signed_money d.committed_delta_usd

  abbrev pub burst_lines : (burst : F) → List String
  burst_lines burst =
      if lt zero_f burst
      then concat (
          "This change adds **"
          ∷ money burst
          ∷ "/month of burst capacity**, spend it authorises under load but does not commit to.\n\n"
          ∷ [])
        ∷ []
      else []

  abbrev pub figures : (currency : String) → Delta F → List String
  figures currency d =
      concat (
        "| | Committed (" ∷ currency ∷ "/mo) | Authorised ceiling (" ∷ currency
        ∷ "/mo) |\n|---|---:|---:|\n" ∷ [])
      ∷ concat (
          "| Baseline | "
          ∷ money d.committed_baseline_usd
          ∷ " | "
          ∷ money d.baseline_monthly_usd
          ∷ " |\n"
          ∷ [])
      ∷ concat (
          "| Projected | "
          ∷ money d.committed_projected_usd
          ∷ " | "
          ∷ money d.projected_monthly_usd
          ∷ " |\n"
          ∷ [])
      ∷ concat (
          "| **Change** | **"
          ∷ committed_change d
          ∷ "** | **"
          ∷ signed_money d.delta_monthly_usd
          ∷ "** |\n"
          ∷ [])
      ∷ "\n"
      ∷ []

  -- `writeCost`
  unfoldable pub cost_section : Verdict F → List String
  unfolding row join
  cost_section v =
      let d = v.cost.delta in
      concat ("### Cost - " ∷ status_text v.cost.passed ∷ "\n\n" ∷ [])
      ∷ (figures v.currency d
          ++ (burst_lines (sub d.delta_monthly_usd d.committed_delta_usd)
              ++ (table (changed_rows d.workloads) ++ map caveat v.cost.warnings)))
