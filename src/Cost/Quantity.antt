-- ===== src/Cost/Quantity.antt =====
-- cost.go: `parseQuantity` and `intOrDefault`. `resource.Quantity` of Kubernetes is a parameter.
use cost_risk_aware_gitops_p.Prelude.{String, [], ◌∷◌, concat}
use cost_risk_aware_gitops_p.Prelude.Int.{ℤ}
use cost_risk_aware_gitops_p.Float64.{Float64}
use cost_risk_aware_gitops_p.Results.{Result, ok, err, errorf}
use cost_risk_aware_gitops_p.Json.{Value, null, bool, int, int64, float, text, arr, obj}

-- A `resource.Quantity`, by the two readings that the source takes of one.
pub record Quantity : Type 0 where
  pub milli_value : ℤ
  pub value : ℤ

-- `resource.ParseQuantity` and `resource.NewQuantity(n, DecimalSI)`.
pub record Quantities : Type 0 where
  pub parse : String → Result Quantity
  pub of_int : ℤ → Quantity

-- `%T`
abbrev pub type_name : {F : Type 0} → Value F → String
type_name null = "<nil>"
type_name (bool b) = "bool"
type_name (int n) = "int"
type_name (int64 n) = "int64"
type_name (float x) = "float64"
type_name (text s) = "string"
type_name (arr vs) = "[]interface {}"
type_name (obj fs) = "map[string]interface {}"

module _ {F : Type 0} ⦃fl : Float64 F⦄ ⦃qs : Quantities⦄ where
  unfoldable pub parse_quantity : Value F → Result Quantity
  parse_quantity (text t) = qs.parse t
  parse_quantity (int t) = ok (qs.of_int t)
  parse_quantity (int64 t) = ok (qs.of_int t)
  parse_quantity (float t) = qs.parse (fl.show_shortest t)
  parse_quantity v = err (errorf (concat ("unsupported quantity type " ∷ type_name v ∷ [])))

module _ {F : Type 0} ⦃fl : Float64 F⦄ where
  unfoldable pub int_or_default : Value F → ℤ → ℤ
  int_or_default (int t) default = t
  int_or_default (int64 t) default = t
  int_or_default (float t) default = fl.to_int t
  int_or_default _ default = default
