-- ===== src/Report/Completeness.antt =====
-- report.go: what the comment shows of the verdict, and what it does not.
use mathlib.Core.List.{Memᴰ}
use mathlib.Core.List.Memᴰ
use Prim.Native.String
use text.Mathlib.TextLemmas.{append-nil}
use cost_risk_aware_gitops_p.Prelude.{
  keep_mem, ◌≡◌, refl, sym, ap, String, true, List, [], ◌∷◌, ◌++◌, map, concat, join,
}
use cost_risk_aware_gitops_p.Float64.{Float64}
use cost_risk_aware_gitops_p.Cost.Delta.{WorkloadDelta}
use cost_risk_aware_gitops_p.Policy.{Violation}
use cost_risk_aware_gitops_p.Verdict.{Verdict}
use cost_risk_aware_gitops_p.Report.Sections.{
  bullet, caveat, is_changed, table, blocking_item, warning_item, figures, burst_lines,
  policy_section, flag_text, collect_flags, assumptions_section, row, changed_rows, cost_section,
}
use cost_risk_aware_gitops_p.Report.{
  marker, headline, fault_text, root_line, opening, reasons_section, basis, preamble,
  provenance_section, markdown,
}
use cost_risk_aware_gitops_p.Report.Showing.{
  Shows, Shows-trans, Shows_of_mem, Shows-join, listed_mem,
}
use cost_risk_aware_gitops_p.Report.Entries.{
  workload_flags_mem, assumptions_mem, blocking_mem, warning_mem, error_mem, table_mem,
}

module _ {F : Type 0} ⦃fl : Float64 F⦄ where
  open fl use {sub}

  -- What the comment on a pull request shows of the verdict. The errors of the cost sub-gate, which
  -- `Aggregate` says are printed in their own section, are not part of it.
  pub record IsComplete (v : Verdict F) (text : String) : Type 0 where
    pub begins :
        (rest : String) × (text
          ≡ concat (marker ∷ "\n## " ∷ headline v.decision ∷ "\n\n" ∷ rest ∷ []))
    pub notes : (n : String) → Memᴰ n v.notes → Shows text (caveat n)
    pub reasons : (r : String) → Memᴰ r v.reasons → Shows text (bullet r)
    pub rows :
        (w : WorkloadDelta F)
        → Memᴰ w v.cost.delta.workloads
        → is_changed w.change ≡ true
        → Shows text (row w)
    pub cost_warnings : (s : String) → Memᴰ s v.cost.warnings → Shows text (caveat s)
    pub blocking : (x : Violation) → Memᴰ x v.policy.blocking → Shows text (blocking_item x)
    pub warnings : (x : Violation) → Memᴰ x v.policy.warnings → Shows text (warning_item x)
    pub policy_errors : (e : String) → Memᴰ e v.policy.errors → Shows text (bullet e)
    pub flags : (f : String) → Memᴰ f v.cost.delta.flags → Shows text (bullet f)
    pub workload_flags :
        (w : WorkloadDelta F) (f : String)
        → Memᴰ w v.cost.delta.workloads
        → Memᴰ f w.flags
        → Shows text (bullet (flag_text w f))
    pub roots : (r : String) → Memᴰ r v.evaluated_roots → Shows text (root_line r)
    -- The text would be the same with any other errors of the cost sub-gate.
    pub cost_errors_unread :
        (es : List String) → markdown (record v { cost = record v.cost { errors = es } }) ≡ text

  module _ (v : Verdict F) where
    in_preamble : {s : String} → Memᴰ s (preamble v) → Shows (markdown v) s
    unfolding markdown
    in_preamble m = Shows_of_mem (Memᴰ.append_left _ m)

    in_cost : {s : String} → Memᴰ s (cost_section v) → Shows (markdown v) s
    unfolding markdown
    in_cost m = Shows_of_mem (Memᴰ.append_right (preamble v) (Memᴰ.append_left _ m))

    in_policy : {s : String} → Memᴰ s (policy_section v.policy) → Shows (markdown v) s
    unfolding markdown
    in_policy m =
        Shows_of_mem (
          Memᴰ.append_right (preamble v)
            (Memᴰ.append_right (cost_section v) (Memᴰ.append_left _ m)))

    in_assumptions : {s : String} → Memᴰ s (assumptions_section v.cost.delta) → Shows (markdown v) s
    unfolding markdown
    in_assumptions m = Shows_of_mem (
        Memᴰ.append_right (preamble v) (
          Memᴰ.append_right (cost_section v)
            (Memᴰ.append_right (policy_section v.policy) (Memᴰ.append_left _ m))))

    in_provenance : {s : String} → Memᴰ s (provenance_section v) → Shows (markdown v) s
    unfolding markdown
    in_provenance m = Shows_of_mem (
        Memᴰ.append_right (preamble v) (
          Memᴰ.append_right (cost_section v) (
            Memᴰ.append_right (policy_section v.policy)
              (Memᴰ.append_right (assumptions_section v.cost.delta) m))))

    markdown-begins :
        (rest : String) × (markdown v
          ≡ concat (marker ∷ "\n## " ∷ headline v.decision ∷ "\n\n" ∷ rest ∷ []))
    unfolding markdown preamble concat
    markdown-begins =
        let below =
          fault_text v.decision
          ∷ ((map caveat v.notes ++ reasons_section v.reasons)
              ++ (cost_section v
                  ++ (policy_section v.policy
                      ++ (assumptions_section v.cost.delta ++ provenance_section v)))) in
        (
          concat below,
          ap
              (λ r.
                String.◌++◌ marker
                  (String.◌++◌ "\n## " (String.◌++◌ (headline v.decision) (String.◌++◌ "\n\n" r))))
              (sym (append-nil (concat below))),
        )

    note_mem : {n : String} → Memᴰ n v.notes → Memᴰ (caveat n) (preamble v)
    unfolding preamble
    note_mem m =
        Memᴰ.append_right (opening v.decision)
          (Memᴰ.append_left (reasons_section v.reasons) (Memᴰ.map caveat m))

    reason_mem : {r : String} → Memᴰ r v.reasons → Memᴰ (bullet r) (preamble v)
    unfolding preamble
    reason_mem m =
        Memᴰ.append_right (opening v.decision)
          (Memᴰ.append_right (map caveat v.notes) (listed_mem _ _ (Memᴰ.map bullet m)))

    rows_mem :
        {w : WorkloadDelta F}
        → Memᴰ w v.cost.delta.workloads
        → is_changed w.change ≡ true
        → Memᴰ (join "\n" (changed_rows v.cost.delta.workloads)) (cost_section v)
    unfolding cost_section
    rows_mem m h =
        let d = v.cost.delta in
        Memᴰ.tail (
          Memᴰ.append_right (figures v.currency d) (
            Memᴰ.append_right (burst_lines (sub d.delta_monthly_usd d.committed_delta_usd)) (
              Memᴰ.append_left (map caveat v.cost.warnings)
                (table_mem (Memᴰ.map row (keep_mem (λ w. is_changed w.change) m h))))))

    cost_warning_mem : {s : String} → Memᴰ s v.cost.warnings → Memᴰ (caveat s) (cost_section v)
    unfolding cost_section
    cost_warning_mem m =
        let d = v.cost.delta in
        Memᴰ.tail (
          Memᴰ.append_right (figures v.currency d) (
            Memᴰ.append_right (burst_lines (sub d.delta_monthly_usd d.committed_delta_usd))
              (Memᴰ.append_right (table (changed_rows d.workloads)) (Memᴰ.map caveat m))))

    root_mem : {r : String} → Memᴰ r v.evaluated_roots → Memᴰ (root_line r) (provenance_section v)
    unfolding provenance_section
    root_mem m = Memᴰ.append_right (basis v) (listed_mem _ _ (Memᴰ.map root_line m))

  markdown-cost_errors :
      (v : Verdict F) (es : List String)
      → markdown (record v { cost = record v.cost { errors = es } }) ≡ markdown v
  unfolding markdown preamble cost_section provenance_section
  markdown-cost_errors v es = refl

  -- The comment begins with the marker and the headline of the decision, and it shows every note,
  -- reason, cost warning, blocking violation, other violation, error of the policy sub-gate, assumption
  -- of the comparison or of a workload, and evaluated root of the verdict, and the row of every
  -- workload whose cost or replica count changed. The errors of the cost sub-gate are not shown: the
  -- comment is the same whatever they are, when the rest of the verdict is.
  pub markdown-IsComplete : (v : Verdict F) → IsComplete v (markdown v)
  unfolding collect_flags
  markdown-IsComplete v = record {
    begins = markdown-begins v;
    notes = λ n m. in_preamble v (note_mem v m);
    reasons = λ r m. in_preamble v (reason_mem v m);
    rows = λ w m h.
        let changed = Memᴰ.map row (keep_mem (λ w. is_changed w.change) m h) in
        Shows-trans (in_cost v (rows_mem v m h)) (Shows-join "\n" _ changed);
    cost_warnings = λ s m. in_cost v (cost_warning_mem v m);
    blocking = λ x m. in_policy v (blocking_mem v.policy m);
    warnings = λ x m. in_policy v (warning_mem v.policy m);
    policy_errors = λ e m. in_policy v (error_mem v.policy m);
    flags = λ f m. in_assumptions v (assumptions_mem v.cost.delta (Memᴰ.append_left _ m));
    workload_flags = λ w f m n. in_assumptions v (
        assumptions_mem v.cost.delta
          (Memᴰ.append_right v.cost.delta.flags (workload_flags_mem m n)));
    roots = λ r m. in_provenance v (root_mem v m);
    cost_errors_unread = markdown-cost_errors v;
  }
