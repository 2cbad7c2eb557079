-- ===== src/Pricing/Tariff.antt =====
-- pricing.go: what a rate table charges once `Load` has returned it.
use cost_risk_aware_gitops_p.Prelude.{◌≡◌, sym, ap, ◌∙◌, true, false, String, str_eq}
use cost_risk_aware_gitops_p.Float64.{Float64, IsIeee, zero_f}
use cost_risk_aware_gitops_p.Results.{Result, ok}
use cost_risk_aware_gitops_p.Pricing.{Table, hourly_usd, monthly_usd, load}
use cost_risk_aware_gitops_p.Pricing.Validity.{IsValid, load-table-IsValid}
use cost_risk_aware_gitops_p.Pricing.Bounds.{monthly_usd_mono, monthly_usd_nonneg, monthly_usd_zero}

module _ {F : Type 0} ⦃fl : Float64 F⦄ where
  open fl use {add, mul, le}

  -- The rules of charging under a table.
  pub record IsTariff (t : Table F) : Type 0 where
    -- Each kind of capacity on its own is charged at its own rate, for the hours of the month.
    pub cpu_alone :
        (c : F)
        → monthly_usd t c zero_f zero_f ≡ mul (mul c t.spec.rates.cpu.price) t.spec.hours_per_month
    pub memory_alone :
        (m : F)
        → monthly_usd t zero_f m zero_f
          ≡ mul (mul m t.spec.rates.memory.price) t.spec.hours_per_month
    pub storage_alone :
        (s : F)
        → monthly_usd t zero_f zero_f s
          ≡ mul (mul s t.spec.rates.storage.price) t.spec.hours_per_month
    -- An hour of several costs what each costs on its own, added up.
    pub together :
        (c m s : F)
        → hourly_usd t c m s
          ≡ add
              (add (hourly_usd t c zero_f zero_f) (hourly_usd t zero_f m zero_f))
              (hourly_usd t zero_f zero_f s)
    pub nothing : monthly_usd t zero_f zero_f zero_f ≡ zero_f
    pub never_less :
        (c m s c' m' s' : F)
        → le c c' ≡ true
        → le m m' ≡ true
        → le s s' ≡ true
        → le (monthly_usd t c m s) (monthly_usd t c' m' s') ≡ true
    pub never_negative :
        (c m s : F)
        → le zero_f c ≡ true
        → le zero_f m ≡ true
        → le zero_f s ≡ true
        → le zero_f (monthly_usd t c m s) ≡ true
    pub in_currency : str_eq t.spec.currency "" ≡ false

  module _ (laws : IsIeee F) (t : Table F) where
    open laws use {add_comm, zero-add, zero-mul}

    add-zero : (a : F) → add a zero_f ≡ a
    add-zero a = add_comm a zero_f ∙ zero-add a

    hourly_usd-cpu : (c : F) → hourly_usd t c zero_f zero_f ≡ mul c t.spec.rates.cpu.price
    unfolding hourly_usd
    hourly_usd-cpu c =
        rw (hourly_usd, zero-mul t.spec.rates.memory.price, zero-mul t.spec.rates.storage.price)
          (add-zero (add (mul c t.spec.rates.cpu.price) zero_f)
            ∙ add-zero (mul c t.spec.rates.cpu.price))

    hourly_usd-memory : (m : F) → hourly_usd t zero_f m zero_f ≡ mul m t.spec.rates.memory.price
    unfolding hourly_usd
    hourly_usd-memory m =
        rw (hourly_usd, zero-mul t.spec.rates.cpu.price, zero-mul t.spec.rates.storage.price)
          (add-zero (add zero_f (mul m t.spec.rates.memory.price))
            ∙ zero-add (mul m t.spec.rates.memory.price))

    hourly_usd-storage : (s : F) → hourly_usd t zero_f zero_f s ≡ mul s t.spec.rates.storage.price
    unfolding hourly_usd
    hourly_usd-storage s =
        rw
          (
            hourly_usd,
            zero-mul t.spec.rates.cpu.price,
            zero-mul t.spec.rates.memory.price,
            zero-add zero_f,
          )
          (zero-add (mul s t.spec.rates.storage.price))

    hourly_usd-together :
        (c m s : F)
        → hourly_usd t c m s
          ≡ add
              (add (hourly_usd t c zero_f zero_f) (hourly_usd t zero_f m zero_f))
              (hourly_usd t zero_f zero_f s)
    unfolding hourly_usd
    hourly_usd-together c m s = λ i.
        add (add (sym (hourly_usd-cpu c) i) (sym (hourly_usd-memory m) i))
          (sym (hourly_usd-storage s) i)

    IsValid-IsTariff : IsValid t → IsTariff t
    unfolding monthly_usd
    IsValid-IsTariff valid = record {
      cpu_alone = λ c. ap (λ x. mul x t.spec.hours_per_month) (hourly_usd-cpu c);
      memory_alone = λ m. ap (λ x. mul x t.spec.hours_per_month) (hourly_usd-memory m);
      storage_alone = λ s. ap (λ x. mul x t.spec.hours_per_month) (hourly_usd-storage s);
      together = hourly_usd-together;
      nothing = monthly_usd_zero laws t valid;
      never_less = monthly_usd_mono laws t valid;
      never_negative = monthly_usd_nonneg laws t valid;
      in_currency = valid.currency_set;
    }

    -- A table that `Load` returns charges each kind of capacity on its own at its own rate for the
    -- hours of the month, and an hour of several kinds at the sum; it charges nothing for nothing,
    -- never less for more capacity, and never a negative amount for capacity that is not negative;
    -- and it names its currency. The arithmetic is IEEE 754's without a NaN or an overflow.
    pub load-IsTariff :
        (read_file : String → Result String) (unmarshal : String → Result (Table F)) (path : String)
        → load read_file unmarshal path ≡ ok t
        → IsTariff t
    load-IsTariff read_file unmarshal path h =
        IsValid-IsTariff (load-table-IsValid read_file unmarshal path h)
