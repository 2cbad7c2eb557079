-- ===== src/Gate/Rates.antt =====
-- main.go: `loadPricingTables` and `ratesChanged`.
pub mod Same
use cost_risk_aware_gitops_p.Prelude.{
  String, Bool, true, false, not, ◌&&◌, ◌||◌, str_eq, bool_eq, if◌then◌else◌,
}
use cost_risk_aware_gitops_p.Prelude.Int.{ℤ}
use cost_risk_aware_gitops_p.Float64.{Float64}
use cost_risk_aware_gitops_p.Results.{Result, ok, err, ◌>>=◌, wrap}
use cost_risk_aware_gitops_p.Pricing.{Rate, Rates, MissingRequests, Table}

abbrev pub missing_eq : MissingRequests → MissingRequests → Bool
missing_eq a b = str_eq a.cpu b.cpu && (str_eq a.memory b.memory && bool_eq a.flag b.flag)

abbrev pub no_base_note : String
no_base_note =
    "no pricing table exists at the base commit, so the baseline was priced with the incoming rates; the delta reflects manifest changes only"

-- What `loadPricingTables` returns.
pub record Tables (F : Type 0) : Type 0 where
  pub base : Table F
  pub head : Table F
  pub note : String

module _ {F : Type 0} where
  -- A base table that does not exist is replaced by the head's, and the note says so.
  unfoldable pub base_or_head : Table F → Result (Table F) → Result (Tables F)
  base_or_head head (ok base) = ok (record { base = base; head = head; note = "" })
  base_or_head head (err e) =
      if e.not_exist
      then ok (record { base = head; head = head; note = no_base_note })
      else wrap "pricing table at base" (err e)

  -- `loadPricingTables`, over `pricing.Load` at the path in each tree.
  unfoldable pub load_pricing_tables : (base head : Result (Table F)) → Result (Tables F)
  unfolding base_or_head
  load_pricing_tables base head = do
    head_table ← wrap "pricing table at head" head
    base_or_head head_table base

module _ {F : Type 0} ⦃fl : Float64 F⦄ where
  open fl use {eq}

  abbrev pub rate_eq : Rate F → Rate F → Bool
  rate_eq a b = str_eq a.unit b.unit && (eq a.price b.price && bool_eq a.flag b.flag)

  abbrev pub rates_eq : Rates F → Rates F → Bool
  rates_eq a b = rate_eq a.cpu b.cpu && (rate_eq a.memory b.memory && rate_eq a.storage b.storage)

  -- `ratesChanged`
  unfoldable pub rates_changed : Table F → Table F → Bool
  rates_changed base head =
      not (rates_eq base.spec.rates head.spec.rates)
      || not (eq base.spec.hours_per_month head.spec.hours_per_month)
      || not (missing_eq base.spec.missing_requests head.spec.missing_requests)
      || not (str_eq base.spec.currency head.spec.currency)
