-- ===== src/Report.antt =====
-- gate/internal/report/report.go: the comment on a pull request, in the order in which it is written.
pub mod Sections
pub mod Showing
pub mod Entries
pub mod Completeness
use cost_risk_aware_gitops_p.Prelude.{String, List, [], ◌∷◌, ◌++◌, map, concat, show_int}
use cost_risk_aware_gitops_p.Float64.{Float64}
use cost_risk_aware_gitops_p.Verdict.{Decision, pass, fail, inconclusive, undecided, Verdict}
use cost_risk_aware_gitops_p.Report.Sections.{
  bullet, caveat, listed, cost_section, policy_section, assumptions_section,
}

-- `Marker`
abbrev pub marker : String
marker = "<!-- cost-risk-aware-gitops-platform:gate-report -->"

abbrev pub headline : Decision → String
headline pass = "✅ Gate passed"
headline fail = "❌ Gate failed, merge blocked"
headline inconclusive = "⚠\u{fe0f} Gate inconclusive, merge blocked"
headline undecided = ""

abbrev pub fault_text : Decision → String
fault_text pass = ""
fault_text fail = ""
fault_text inconclusive =
    "The gate could not complete its evaluation, so it did not pass the change. This is a fault in the gate or its inputs, not necessarily a problem with your manifests.\n\n"
fault_text undecided = ""

abbrev pub root_line : String → String
root_line r = concat ("- `" ∷ r ∷ "`\n" ∷ [])

abbrev pub opening : Decision → List String
opening d = marker ∷ "\n## " ∷ headline d ∷ "\n\n" ∷ fault_text d ∷ []

abbrev pub reasons_section : List String → List String
reasons_section rs = listed "**Why:**\n\n" "\n" (map bullet rs)

abbrev pub roots_section : List String → List String
roots_section rs =
    listed "<details><summary>Evaluated manifest roots</summary>\n\n" "\n</details>\n"
      (map root_line rs)

module _ {F : Type 0} where
  -- The lines above the sections.
  unfoldable pub preamble : Verdict F → List String
  unfolding listed
  preamble v = opening v.decision ++ (map caveat v.notes ++ reasons_section v.reasons)

  abbrev pub basis : Verdict F → List String
  basis v =
      "---\n\n"
      ∷ concat (
          "Cost is modelled from reserved **requests**, priced with pricing table v"
          ∷ show_int v.pricing_version
          ∷ " ("
          ∷ v.pricing_source
          ∷ "). "
          ∷ [])
      ∷ "The cluster is local, so no money is actually spent, these figures model what the same workload would cost on a cloud provider, and M4 measures live consumption against the same rates after deploy.\n\n"
      ∷ []

  -- `writeProvenance`
  unfoldable pub provenance_section : Verdict F → List String
  unfolding listed
  provenance_section v = basis v ++ roots_section v.evaluated_roots

module _ {F : Type 0} ⦃fl : Float64 F⦄ where
  -- What is written, piece by piece.
  unfoldable pub pieces : Verdict F → List String
  unfolding preamble cost_section policy_section assumptions_section provenance_section
  pieces v =
      preamble v
      ++ (cost_section v
          ++ (policy_section v.policy
              ++ (assumptions_section v.cost.delta ++ provenance_section v)))

  -- `Markdown`
  unfoldable pub markdown : Verdict F → String
  unfolding pieces
  markdown v = concat (pieces v)
