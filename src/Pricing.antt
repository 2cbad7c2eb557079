-- ===== src/Pricing.antt =====
-- pricing/pricing.go: the rate table that the gate and the exporter share.
pub mod Validity
pub mod Bounds
pub mod Tariff
pub mod Figures
use cost_risk_aware_gitops_p.Prelude.{String, Bool, ◌||◌, str_eq, [], ◌∷◌, concat}
use cost_risk_aware_gitops_p.Prelude.Int.{ℤ}
use cost_risk_aware_gitops_p.Float64.{Float64, zero_f}
use cost_risk_aware_gitops_p.Results.{Result, ok, ◌>>=◌, ◌>>◌, refuse_if, wrap}

pub record Metadata : Type 0 where
  pub name : String
  pub version : ℤ
  pub source : String
  pub retrieved_at : String

pub record Rate (F : Type 0) : Type 0 where
  pub unit : String
  pub price : F
  pub flag : Bool

pub record Rates (F : Type 0) : Type 0 where
  pub cpu : Rate F
  pub memory : Rate F
  pub storage : Rate F

pub record Defaults (F : Type 0) : Type 0 where
  pub unknown_resource : Rate F

pub record MissingRequests : Type 0 where
  pub cpu : String
  pub memory : String
  pub flag : Bool

pub record Spec (F : Type 0) : Type 0 where
  pub currency : String
  pub hours_per_month : F
  pub rates : Rates F
  pub defaults : Defaults F
  pub missing_requests : MissingRequests

pub record Table (F : Type 0) : Type 0 where
  pub api_version : String
  pub kind : String
  pub metadata : Metadata
  pub spec : Spec F

module _ {F : Type 0} ⦃fl : Float64 F⦄ where
  open fl use {add, mul, lt, le}

  unfoldable pub validate : Table F → Result (Unit {0})
  validate t = do
    refuse_if (le t.spec.hours_per_month zero_f) "spec.hoursPerMonth must be > 0"
    refuse_if
        (lt t.spec.rates.cpu.price zero_f
          || lt t.spec.rates.memory.price zero_f
          || lt t.spec.rates.storage.price zero_f)
        "rates must not be negative"
    refuse_if (str_eq t.spec.currency "") "spec.currency is required"
    ok tt

  -- `Load`, over `os.ReadFile` and `yaml.UnmarshalStrict`.
  unfoldable pub load :
      (read_file : String → Result String) (unmarshal : String → Result (Table F)) (path : String)
      → Result (Table F)
  unfolding validate
  load read_file unmarshal path = do
    raw ← wrap "read pricing table" (read_file path)
    t ← wrap (concat ("parse pricing table " ∷ path ∷ [])) (unmarshal raw)
    wrap (concat ("invalid pricing table " ∷ path ∷ [])) (validate t)
    ok t

  -- `HourlyUSD`
  unfoldable pub hourly_usd : Table F → (cpu_cores memory_gib storage_gib : F) → F
  hourly_usd t cpu_cores memory_gib storage_gib =
      add (add (mul cpu_cores t.spec.rates.cpu.price) (mul memory_gib t.spec.rates.memory.price))
        (mul storage_gib t.spec.rates.storage.price)

  -- `MonthlyUSD`
  unfoldable pub monthly_usd : Table F → (cpu_cores memory_gib storage_gib : F) → F
  unfolding hourly_usd
  monthly_usd t cpu_cores memory_gib storage_gib =
      mul (hourly_usd t cpu_cores memory_gib storage_gib) t.spec.hours_per_month
