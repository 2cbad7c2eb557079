-- ===== src/Cost/Containers.antt =====
-- cost.go: what a container, a pod and a volume claim request.
pub mod Figures
use cost_risk_aware_gitops_p.Prelude.{
  String, Bool, ◌*◌, List, [], ◌∷◌, ◌++◌, Option, none, some, concat, quote, str_eq, if◌then◌else◌,
}
use cost_risk_aware_gitops_p.Prelude.Int.{ℤ, pos}
use cost_risk_aware_gitops_p.Float64.{Float64, zero_f}
use cost_risk_aware_gitops_p.Results.{Result, ok, ◌>>=◌, wrap}
use cost_risk_aware_gitops_p.Json.{Value, Fields, text, lookup, index, as_string, as_map?, as_map}
use cost_risk_aware_gitops_p.Pricing.{Table}
use cost_risk_aware_gitops_p.Cost.Types.{Resources, no_resources}
use cost_risk_aware_gitops_p.Cost.Quantity.{Quantity, Quantities, parse_quantity}

-- A container's request of one resource, and the flags that its pricing raises.
abbrev pub Flagged : Type 0 → Type 0
Flagged A = A × List String

-- How the flags spell a resource.
abbrev shown : String → String
shown resource = if str_eq resource "cpu" then "CPU" else resource

abbrev bytes_per_gib : ℤ
bytes_per_gib = pos (1024 * 1024 * 1024)

module _ {F : Type 0} ⦃fl : Float64 F⦄ where
  open fl use {div, add, of_int}

  -- `float64(q.MilliValue()) / 1000.0`
  abbrev pub cores : Quantity → F
  cores q = div (of_int q.milli_value) (of_int (pos 1000))

  -- `float64(q.Value()) / bytesPerGiB`
  abbrev pub gib : Quantity → F
  gib q = div (of_int q.value) (of_int bytes_per_gib)

  module _ ⦃qs : Quantities⦄ where
    -- One of the two resources that have a default: read from the requests, or else from the pricing
    -- table, which may ask for the assumption to be flagged.
    unfoldable pub priced_request :
        (resource : String) (read : Quantity → F) (fallback name : String) (flag : Bool)
        → Option (Value F)
        → Result (Flagged F)
    priced_request resource read fallback name flag (some raw) = do
      q ←
          wrap (concat ("container " ∷ quote name ∷ " " ∷ resource ∷ " request" ∷ []))
            (parse_quantity raw)
      ok (read q, [])
    priced_request resource read fallback name flag none = do
      let default : Value F = text fallback
      q ← wrap (concat ("pricing table missingRequests." ∷ resource ∷ [])) (parse_quantity default)
      ok (read q, if flag then assumed ∷ [] else [])
      where
        assumed : String
        assumed = concat (
            "container "
            ∷ quote name
            ∷ " declares no "
            ∷ shown resource
            ∷ " request; priced at the assumed default "
            ∷ fallback
            ∷ [])

    unfoldable pub ephemeral_storage : (name : String) → Option (Value F) → Result F
    ephemeral_storage name none = ok zero_f
    ephemeral_storage name (some eph) = do
      q ←
          wrap (concat ("container " ∷ quote name ∷ " ephemeral-storage request" ∷ []))
            (parse_quantity eph)
      ok (gib q)

    unfoldable pub container_requests : Table F → Fields F → Result (Flagged (Resources F))
    container_requests table container = do
      let name = as_string (index container "name")
      let requests = as_map (index (as_map (index container "resources")) "requests")
      let missing = table.spec.missing_requests
      (cpu, cpu_flags) ←
          priced_request "cpu" cores missing.cpu name missing.flag (lookup "cpu" requests)
      (memory, memory_flags) ←
          priced_request "memory" gib missing.memory name missing.flag (lookup "memory" requests)
      storage ← ephemeral_storage name (lookup "ephemeral-storage" requests)
      ok (
        record { cpu_cores = cpu; memory_gib = memory; storage_gib = storage },
        cpu_flags ++ memory_flags,
      )

    unfoldable pub container_from : Table F → Option (Fields F) → Result (Flagged (Resources F))
    container_from table none = ok (no_resources, [])
    container_from table (some container) = container_requests table container

    -- `containerResources`
    unfoldable pub container_resources : Table F → Value F → Result (Flagged (Resources F))
    unfolding container_from container_requests
    container_resources table container = container_from table (as_map? container)
