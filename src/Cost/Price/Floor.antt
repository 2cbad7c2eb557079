-- ===== src/Cost/Price/Floor.antt =====
-- What an autoscaled workload commits to, next to what it authorises.
use cost_risk_aware_gitops_p.Prelude.{◌≡◌, subst, true, some}
use cost_risk_aware_gitops_p.Prelude.Int.{ℤ, leb_ℤ}
use cost_risk_aware_gitops_p.Float64.{Float64, IsIeee, zero_f}
use cost_risk_aware_gitops_p.Pricing.{Table}
use cost_risk_aware_gitops_p.Pricing.Validity.{IsValid}
use cost_risk_aware_gitops_p.Pricing.Bounds.{monthly_usd_mono}
use cost_risk_aware_gitops_p.Cost.Types.{Resources, Workload}
use cost_risk_aware_gitops_p.Cost.Kinds.{Calculator}
use cost_risk_aware_gitops_p.Cost.Autoscaling.{ScaleTarget, AutoscaleBounds, Autoscalers, bounds_of}
use cost_risk_aware_gitops_p.Cost.Price.Commitment.{IsCharged, static, scaled, unscheduled, cost_at}

-- No autoscaler has its minimum above its maximum.
abbrev pub IsOrdered : Autoscalers → Type 0
IsOrdered found =
    (t : ScaleTarget) (b : AutoscaleBounds) → bounds_of t found ≡ some b → leb_ℤ b.min b.max ≡ true

module _ {F : Type 0} ⦃fl : Float64 F⦄ where
  open fl use {le, mul, of_int}

  -- No dimension is negative.
  pub record IsNonnegative (r : Resources F) : Type 0 where
    pub cpu : le zero_f r.cpu_cores ≡ true
    pub memory : le zero_f r.memory_gib ≡ true
    pub storage : le zero_f r.storage_gib ≡ true

  pub IsNonnegative-prop : (r : Resources F) → IsProp (IsNonnegative r)
  IsNonnegative-prop r = hlevel

  module _ (laws : IsIeee F) where
    open laws use {mul_mono, mul_comm, of_int_mono, le_refl}

    mul_mono_right :
        (a b c : F) → le zero_f a ≡ true → le b c ≡ true → le (mul a b) (mul a c) ≡ true
    mul_mono_right a b c h k =
        subst (λ x. le x (mul a c) ≡ true) (mul_comm b a)
          (subst (λ x. le (mul b a) x ≡ true) (mul_comm c a) (mul_mono b c a h k))

    -- More replicas of the same resources do not cost less.
    pub cost_at_mono :
        (t : Table F)
        → IsValid t
        → (r : Resources F) → IsNonnegative r
        → (m n : ℤ) → leb_ℤ m n ≡ true
        → le (cost_at t r m) (cost_at t r n) ≡ true
    cost_at_mono t valid r nonneg m n h =
        monthly_usd_mono laws t valid _ _ _ _ _ _
          (mul_mono_right r.cpu_cores _ _ nonneg.cpu (of_int_mono m n h))
          (mul_mono_right r.memory_gib _ _ nonneg.memory (of_int_mono m n h))
          (mul_mono_right r.storage_gib _ _ nonneg.storage (of_int_mono m n h))

    -- A workload that is charged as `IsCharged` says commits to at most what it authorises.
    pub floor_le_monthly :
        (c : Calculator F)
        → IsValid c.table
        → IsOrdered c.autoscalers
        → (w : Workload F) → IsNonnegative w.per_replica
        → IsCharged c w
        → le w.floor_monthly_usd w.monthly_usd ≡ true
    floor_le_monthly c valid ordered w nonneg (static no_bounds fixed month floor) =
        rw floor (le_refl w.monthly_usd)
    floor_le_monthly c valid ordered w nonneg (scaled b found auto replicas month floor) =
        rw (floor, month)
          (cost_at_mono c.table valid w.per_replica nonneg b.min b.max (ordered _ b found))
    floor_le_monthly c valid ordered w nonneg (unscheduled job month floor) =
        rw (floor, month) (le_refl zero_f)
