-- ===== src/Policy.antt =====
-- gate/internal/policy/policy.go: violations and their results.
pub mod Engine
use cost_risk_aware_gitops_p.Prelude.{String, List}
use cost_risk_aware_gitops_p.Cost.Types.{ref_of}

pub record Violation : Type 0 where
  pub rule : String
  pub severity : String
  pub message : String
  pub kind : String
  pub namespace : String
  pub name : String
  pub remediation : String

-- `Violation.Ref`
abbrev pub ref : Violation → String
ref v = ref_of v.kind v.namespace v.name

pub record PolicyResult : Type 0 where
  pub violations : List Violation
  pub errors : List String
