-- ===== src/Json.antt =====
-- Decoded YAML: Go's `any` as the source takes it apart, by type assertions and map lookups.
-- A map is its fields; a lookup finds the first of a key, as a decoder keeps one value per key.
use cost_risk_aware_gitops_p.Prelude.{
  Bool, String, str_eq, Option, none, some, List, [], ◌∷◌, if◌then◌else◌,
}
use cost_risk_aware_gitops_p.Prelude.Int.{ℤ}

mutual
  -- `int` and `int64` are two types in Go; a number that was decoded as neither is a `float64`.
  pub data Value (F : Type 0) : Type 0 where
    null : Value F
    bool : Bool → Value F
    int : ℤ → Value F
    int64 : ℤ → Value F
    float : F → Value F
    text : String → Value F
    arr : Items F → Value F
    obj : Fields F → Value F

  pub data Items (F : Type 0) : Type 0 where
    nil : Items F
    cons : Value F → Items F → Items F

  pub data Fields (F : Type 0) : Type 0 where
    end : Fields F
    field : String → Value F → Fields F → Fields F

module _ {F : Type 0} where
  -- `v, ok := m[key]`
  unfoldable pub lookup : String → Fields F → Option (Value F)
  lookup key end = none
  lookup key (field k v fs) = if str_eq k key then some v else lookup key fs

  -- `m[key]`: a missing key reads as nil.
  abbrev or_null : Option (Value F) → Value F
  or_null none = null
  or_null (some v) = v

  unfoldable pub index : Fields F → String → Value F
  unfolding lookup
  index m key = or_null (lookup key m)

  -- `s, _ := v.(string)`
  unfoldable pub as_string : Value F → String
  as_string (text s) = s
  as_string _ = ""

  -- `m, _ := v.(map[string]any)`: `none` is the nil map.
  unfoldable pub as_map? : Value F → Option (Fields F)
  as_map? (obj fs) = some fs
  as_map? _ = none

  -- A nil map reads as one with no key.
  unfoldable pub as_map : Value F → Fields F
  as_map (obj fs) = fs
  as_map _ = end

  abbrev to_list : Items F → List (Value F)
  to_list nil = []
  to_list (cons v vs) = v ∷ to_list vs

  -- `xs, _ := v.([]any)`: a nil slice has no element.
  unfoldable pub as_list : Value F → List (Value F)
  as_list (arr vs) = to_list vs
  as_list _ = []
