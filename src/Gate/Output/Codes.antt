-- ===== src/Gate/Output/Codes.antt =====
-- The exit codes of the command, by what the verdict decided.
use cost_risk_aware_gitops_p.Prelude.{◌≡◌, refl, ap, ◌∙◌, String, ℕ, arith}
use cost_risk_aware_gitops_p.Results.{Result, ok, err, ok_inj, bind_ok}
use cost_risk_aware_gitops_p.Verdict.{Decision, pass, fail, inconclusive, undecided, Verdict}
use cost_risk_aware_gitops_p.Gate.Output.{
  Outputs, Emitted, emit, render_report, deliver, exit_code, exit_status,
}

exit_code_zero : (d : Decision) (n : ℕ) → exit_code d ≡ ok n → n ≡ 0 → d ≡ pass
unfolding exit_code
exit_code_zero pass n e z = refl
exit_code_zero fail n e z = ground arith
exit_code_zero inconclusive n e z = ground arith
exit_code_zero undecided n e z = ground arith

-- A status of 0 was emitted.
pub status_zero :
    (m : Result Emitted) → exit_status m ≡ 0 → (x : Emitted) × (m ≡ ok x) × (x.code ≡ 0)
status_zero (ok x) z = (x, refl, z)
status_zero (err e) z = ground arith

module _ {F : Type 0} where
  pub emit_code :
      (outputs : Outputs F) (v : Verdict F) (format path : String) (x : Emitted)
      → emit outputs v format path ≡ ok x
      → exit_code v.decision ≡ ok x.code
  unfolding emit
  emit_code outputs v format path x e =
      let (text, _, e₁) = bind_ok (render_report outputs v format) _ x e in
      let (_, _, e₂) = bind_ok (deliver outputs path text) _ x e₁ in
      let (code, coded, e₃) = bind_ok (exit_code v.decision) _ x e₂ in
      coded ∙ ap (λ y. ok y.code) (ok_inj _ x e₃)

  -- Only a pass is emitted with the code 0.
  pub emit_pass :
      (outputs : Outputs F) (v : Verdict F) (format path : String) (x : Emitted)
      → emit outputs v format path ≡ ok x
      → x.code ≡ 0
      → v.decision ≡ pass
  emit_pass outputs v format path x e z =
      exit_code_zero v.decision x.code (emit_code outputs v format path x e) z
