-- ===== src/Report/Entries.antt =====
-- report.go: what the sections hold.
use mathlib.Core.List.{Memᴰ}
use mathlib.Core.List.Memᴰ
use cost_risk_aware_gitops_p.Prelude.{
  ◌≡◌, refl, subst, String, false, ◌&&◌, is_empty, List, ◌++◌, map, join, dedupe_mem, arith,
}
use cost_risk_aware_gitops_p.Cost.Delta.{WorkloadDelta, Delta}
use cost_risk_aware_gitops_p.Policy.{Violation}
use cost_risk_aware_gitops_p.Verdict.{PolicyVerdict}
use cost_risk_aware_gitops_p.Report.Sections.{
  bullet, table, blocking_item, warning_item, blocking_section, warnings_section, policy_findings,
  policy_section, flag_text, workload_flags, collect_flags, assumptions_section,
}
use cost_risk_aware_gitops_p.Report.Showing.{listed_mem, is_empty_of_mem}

-- The workload's flags, each with its reference.
pub workload_flags_mem :
    {F : Type 0} {w : WorkloadDelta F} {ws : List (WorkloadDelta F)} {f : String}
    → Memᴰ w ws
    → Memᴰ f w.flags
    → Memᴰ (flag_text w f) (workload_flags ws)
unfolding workload_flags
workload_flags_mem {w} {f} (Memᴰ.head {x} {xs} e) m =
    subst (λ y. Memᴰ (flag_text w f) (map (flag_text y) y.flags ++ workload_flags xs)) e
      (Memᴰ.append_left (workload_flags xs) (Memᴰ.map (flag_text w) m))
workload_flags_mem (Memᴰ.tail {x} n) m =
    Memᴰ.append_right (map (flag_text x) x.flags) (workload_flags_mem n m)

pub assumptions_mem :
    {F : Type 0} (d : Delta F) {f : String}
    → Memᴰ f (collect_flags d)
    → Memᴰ (bullet f) (assumptions_section d)
unfolding assumptions_section
assumptions_mem d m = listed_mem _ _ (Memᴰ.map bullet (dedupe_mem m))

-- The sections of the findings are written where there is one of any kind.
pub findings_mem :
    (p : PolicyVerdict) {s : String}
    → (is_empty p.blocking && (is_empty p.warnings && is_empty p.errors)) ≡ false
    → Memᴰ s (policy_findings p)
    → Memᴰ s (policy_section p)
unfolding policy_section
findings_mem p found m = rw found (Memᴰ.tail m)

pub blocking_mem :
    (p : PolicyVerdict) {viol : Violation}
    → Memᴰ viol p.blocking
    → Memᴰ (blocking_item viol) (policy_section p)
blocking_mem p m =
    let given = is_empty_of_mem m in
    findings_mem p (ground arith) (Memᴰ.append_left _ (listed_mem _ _ (Memᴰ.map blocking_item m)))

pub warning_mem :
    (p : PolicyVerdict) {viol : Violation}
    → Memᴰ viol p.warnings
    → Memᴰ (warning_item viol) (policy_section p)
warning_mem p m =
    let given = is_empty_of_mem m in
    findings_mem p (ground arith) (
      Memᴰ.append_right (blocking_section p.blocking)
        (Memᴰ.append_left _ (listed_mem _ _ (Memᴰ.map warning_item m))))

pub error_mem :
    (p : PolicyVerdict) {e : String} → Memᴰ e p.errors → Memᴰ (bullet e) (policy_section p)
error_mem p m =
    let given = is_empty_of_mem m in
    findings_mem p (ground arith) (
      Memᴰ.append_right (blocking_section p.blocking)
        (Memᴰ.append_right (warnings_section p.warnings) (listed_mem _ _ (Memᴰ.map bullet m))))

pub table_mem : {r : String} {rs : List String} → Memᴰ r rs → Memᴰ (join "\n" rs) (table rs)
table_mem (Memᴰ.head e) = Memᴰ.tail (Memᴰ.tail (Memᴰ.head refl))
table_mem (Memᴰ.tail {xs} m) = Memᴰ.tail (Memᴰ.tail (Memᴰ.head refl))
