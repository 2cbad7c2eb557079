-- ===== src/Gate/Output.antt =====
-- main.go: `emit` and the exit codes.
pub mod Codes
use cost_risk_aware_gitops_p.Prelude.{
  String, Bool, ◌||◌, ℕ, concat, [], ◌∷◌, quote, str_eq, lowers_to, if◌then◌else◌,
}
use cost_risk_aware_gitops_p.Float64.{Float64}
use cost_risk_aware_gitops_p.Results.{Result, ok, err, ◌>>=◌, errorf, wrap}
use cost_risk_aware_gitops_p.Verdict.{Decision, pass, fail, inconclusive, undecided, Verdict}

abbrev pub exit_pass : ℕ
exit_pass = 0

abbrev pub exit_fail : ℕ
exit_fail = 1

abbrev pub exit_inconclusive : ℕ
exit_inconclusive = 2

-- `report.Markdown`, `json.MarshalIndent` and `os.WriteFile`.
pub record Outputs (F : Type 0) : Type 0 where
  pub markdown : Verdict F → String
  pub json : Verdict F → Result String
  pub write_file : (path text : String) → Result (Unit {0})

-- What was written, to standard output where the path is empty, and the exit code.
pub record Emitted : Type 0 where
  pub path : String
  pub text : String
  pub code : ℕ

-- The `switch` on the decision.
unfoldable pub exit_code : Decision → Result ℕ
exit_code pass = ok exit_pass
exit_code fail = ok exit_fail
exit_code inconclusive = ok exit_inconclusive
exit_code undecided = err (errorf "internal error: verdict has no decision")

module _ {F : Type 0} where
  -- The report in the format that was asked for.
  unfoldable pub render_report : Outputs F → Verdict F → (format : String) → Result String
  render_report outputs v format =
      if lowers_to format "markdown" || lowers_to format "md"
      then ok (outputs.markdown v)
      else if lowers_to format "json"
      then (do raw ← wrap "encode verdict" (outputs.json v); ok (concat (raw ∷ "\n" ∷ [])))
      else err
          (errorf (concat ("unknown format " ∷ quote format ∷ " (expected markdown or json)" ∷ [])))

  unfoldable pub deliver : Outputs F → (path text : String) → Result (Unit {0})
  deliver outputs path text =
      if str_eq path "" then ok tt else wrap "write report" (outputs.write_file path text)

  -- `emit`
  unfoldable pub emit : Outputs F → Verdict F → (format path : String) → Result Emitted
  unfolding render_report deliver
  emit outputs v format path = do
    text ← render_report outputs v format
    _ ← deliver outputs path text
    code ← exit_code v.decision
    ok (record { path = path; text = text; code = code })

-- `evaluateCmd`: an error exits as inconclusive.
abbrev pub exit_status : Result Emitted → ℕ
exit_status (ok emitted) = emitted.code
exit_status (err e) = exit_inconclusive
