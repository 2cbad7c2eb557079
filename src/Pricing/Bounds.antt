-- ===== src/Pricing/Bounds.antt =====
-- Under a valid table, prices are not negative and do not fall as the capacity grows.
use cost_risk_aware_gitops_p.Prelude.{◌≡◌, true, false, arith, subst}
use cost_risk_aware_gitops_p.Float64.{Float64, IsIeee, zero_f}
use cost_risk_aware_gitops_p.Pricing.{Table, hourly_usd, monthly_usd}
use cost_risk_aware_gitops_p.Pricing.Validity.{IsValid}

module _ {F : Type 0} ⦃fl : Float64 F⦄ (laws : IsIeee F) where
  open fl use {add, mul, lt, le}
  open laws use {
    le_refl, le_trans, add_comm, zero-add, add_mono, zero-mul, mul_mono, lt-eq-not-le, le_of_lt,
  }

  pub le_of_not-lt : (a b : F) → lt a b ≡ false → le b a ≡ true
  le_of_not-lt a b h = ground (arith, lt-eq-not-le a b)

  pub add_mono₂ : (a b c d : F) → le a b ≡ true → le c d ≡ true → le (add a c) (add b d) ≡ true
  add_mono₂ a b c d h k = le_trans (add a c) (add b c) (add b d) (add_mono a b c h) (
      subst (λ x. le x (add b d) ≡ true) (add_comm c b)
        (subst (λ x. le (add c b) x ≡ true) (add_comm d b) (add_mono c d b k)))

  module _ (t : Table F) (valid : IsValid t) where
    pub hourly_usd_mono :
        (c m s c' m' s' : F)
        → le c c' ≡ true
        → le m m' ≡ true
        → le s s' ≡ true
        → le (hourly_usd t c m s) (hourly_usd t c' m' s') ≡ true
    unfolding hourly_usd
    hourly_usd_mono c m s c' m' s' h k l =
        add_mono₂ _ _ _ _
          (add_mono₂ _ _ _ _ (mul_mono c c' _ (le_of_not-lt _ _ valid.cpu_nonneg) h)
            (mul_mono m m' _ (le_of_not-lt _ _ valid.memory_nonneg) k))
          (mul_mono s s' _ (le_of_not-lt _ _ valid.storage_nonneg) l)

    -- Under a table that passed `validate`, a month of at least the capacity costs at least as much.
    pub monthly_usd_mono :
        (c m s c' m' s' : F)
        → le c c' ≡ true
        → le m m' ≡ true
        → le s s' ≡ true
        → le (monthly_usd t c m s) (monthly_usd t c' m' s') ≡ true
    unfolding monthly_usd
    monthly_usd_mono c m s c' m' s' h k l =
        mul_mono _ _ _
          (ground (
            arith,
            lt-eq-not-le zero_f t.spec.hours_per_month,
            le_of_lt zero_f t.spec.hours_per_month,
            valid.hours_pos,
          ))
          (hourly_usd_mono c m s c' m' s' h k l)

    pub monthly_usd_zero : monthly_usd t zero_f zero_f zero_f ≡ zero_f
    unfolding monthly_usd hourly_usd
    monthly_usd_zero = ground (
      arith,
      zero-mul t.spec.rates.cpu.price,
      zero-mul t.spec.rates.memory.price,
      zero-mul t.spec.rates.storage.price,
      zero-mul t.spec.hours_per_month,
      zero-add zero_f,
    )

    -- No capacity, none of it negative, has a negative price.
    pub monthly_usd_nonneg :
        (c m s : F)
        → le zero_f c ≡ true
        → le zero_f m ≡ true
        → le zero_f s ≡ true
        → le zero_f (monthly_usd t c m s) ≡ true
    monthly_usd_nonneg c m s h k l =
        subst (λ x. le x (monthly_usd t c m s) ≡ true) monthly_usd_zero
          (monthly_usd_mono zero_f zero_f zero_f c m s h k l)
