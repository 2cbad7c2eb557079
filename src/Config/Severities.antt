-- ===== src/Config/Severities.antt =====
-- The severities of the policy sub-gate: overrides, and what blocks.
use cost_risk_aware_gitops_p.Prelude.{
  ◌≡◌, refl, ◌≢◌, ◌↔◌, false, List, [], ◌∷◌, String, arith, All, eq_iff,
}
use cost_risk_aware_gitops_p.Config.{PolicyConfig, severity_in, blocks}

-- A severity is none of those listed.
abbrev pub Unlisted : List String → String → Type 0
Unlisted listed s = All (λ t. t ≢ s) listed

severity_in_iff :
    (s : String) (listed : List String) → (severity_in s listed ≡ false) ↔ Unlisted listed s
unfolding severity_in
severity_in_iff s [] = (λ _. tt, λ _. refl)
severity_in_iff s (t ∷ ts) =
    let same = eq_iff t s in
    let rest = severity_in_iff s ts in (λ h. ground arith, λ h. ground arith)

pub blocks_iff :
    (cfg : PolicyConfig) (s : String) → (blocks cfg s ≡ false) ↔ Unlisted cfg.fail_on_severity s
unfolding blocks
blocks_iff cfg s = severity_in_iff s cfg.fail_on_severity
