-- ===== src/Pricing/Figures.antt =====
-- The fields of a rate table that no figure depends on.
use cost_risk_aware_gitops_p.Prelude.{◌≡◌, refl, String}
use cost_risk_aware_gitops_p.Float64.{Float64}
use cost_risk_aware_gitops_p.Pricing.{Metadata, Defaults, Table, hourly_usd, monthly_usd}

-- What a document says besides its rates, hours and defaults for missing requests.
pub record Title (F : Type 0) : Type 0 where
  pub api_version : String
  pub kind : String
  pub metadata : Metadata
  pub currency : String
  pub defaults : Defaults F

module _ {F : Type 0} where
  abbrev pub title_of : Table F → Title F
  title_of t = record {
    api_version = t.api_version;
    kind = t.kind;
    metadata = t.metadata;
    currency = t.spec.currency;
    defaults = t.spec.defaults;
  }

  -- The same figures under another title.
  abbrev pub retitled : Table F → Title F → Table F
  retitled t title = record t {
    api_version = title.api_version;
    kind = title.kind;
    metadata = title.metadata;
    spec = record t.spec { currency = title.currency; defaults = title.defaults };
  }

  pub retitled_eq :
      (t u : Table F)
      → t.spec.rates ≡ u.spec.rates
      → t.spec.hours_per_month ≡ u.spec.hours_per_month
      → t.spec.missing_requests ≡ u.spec.missing_requests
      → retitled t (title_of u) ≡ u
  retitled_eq t u e f g = λ i. record u {
    spec = record u.spec { rates = e i; hours_per_month = f i; missing_requests = g i };
  }

module _ {F : Type 0} ⦃fl : Float64 F⦄ where
  pub monthly_usd-retitled :
      (t : Table F) (title : Title F) (c m s : F)
      → monthly_usd (retitled t title) c m s ≡ monthly_usd t c m s
  unfolding monthly_usd hourly_usd
  monthly_usd-retitled t title c m s = refl
