-- ===== src/Verdict.antt =====
-- gate/internal/verdict/verdict.go: the two sub-gates and the merge decision.
pub mod CostGate
pub mod PolicyGate
pub mod Aggregate
use cost_risk_aware_gitops_p.Prelude.{String, Bool, true, false, List}
use cost_risk_aware_gitops_p.Prelude.Int.{ℤ}
use cost_risk_aware_gitops_p.Cost.Delta.{Delta}
use cost_risk_aware_gitops_p.Policy.{Violation}

-- `undecided` is the empty string, the zero value of the type.
pub data Decision : Type 0 where
  pass fail inconclusive undecided : Decision

-- `Decision.Blocks`
abbrev pub is_blocking : Decision → Bool
is_blocking pass = false
is_blocking fail = true
is_blocking inconclusive = true
is_blocking undecided = true

pub record CostVerdict (F : Type 0) : Type 0 where
  pub delta : Delta F
  pub passed : Bool
  pub warned : Bool
  pub fired : List String
  pub warnings : List String
  pub errors : List String

pub record PolicyVerdict : Type 0 where
  pub blocking : List Violation
  pub warnings : List Violation
  pub errors : List String
  pub passed : Bool

pub record Verdict (F : Type 0) : Type 0 where
  pub decision : Decision
  pub reasons : List String
  pub notes : List String
  pub cost : CostVerdict F
  pub policy : PolicyVerdict
  pub pricing_version : ℤ
  pub pricing_source : String
  pub currency : String
  pub base_ref : String
  pub head_ref : String
  pub evaluated_roots : List String
