-- ===== src/Pricing/Validity.antt =====
-- What `validate` accepts, and what `Load` hands on.
use cost_risk_aware_gitops_p.Prelude.{◌≡◌, ◌↔◌, false, String, str_eq, arith}
use cost_risk_aware_gitops_p.Float64.{Float64, zero_f}
use cost_risk_aware_gitops_p.Results.{Result, ok}
use cost_risk_aware_gitops_p.Pricing.{Table, validate, load}

module _ {F : Type 0} ⦃fl : Float64 F⦄ where
  open fl use {lt, le}

  pub record IsValid (t : Table F) : Type 0 where
    pub hours_pos : le t.spec.hours_per_month zero_f ≡ false
    pub cpu_nonneg : lt t.spec.rates.cpu.price zero_f ≡ false
    pub memory_nonneg : lt t.spec.rates.memory.price zero_f ≡ false
    pub storage_nonneg : lt t.spec.rates.storage.price zero_f ≡ false
    pub currency_set : str_eq t.spec.currency "" ≡ false

  -- `validate` accepts a table exactly when its month has hours, no rate is negative and the currency
  -- is named.
  pub validate-table_iff : (t : Table F) → (validate t ≡ ok tt) ↔ IsValid t
  unfolding validate
  validate-table_iff t = (λ h. ground arith, λ v. ground arith)

  -- A table that `Load` returns has passed `validate`.
  pub load-table-IsValid :
      (read_file : String → Result String) (unmarshal : String → Result (Table F)) (path : String)
      {t : Table F}
      → load read_file unmarshal path ≡ ok t
      → IsValid t
  unfolding load
  load-table-IsValid read_file unmarshal path h = ground arith
