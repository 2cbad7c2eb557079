-- ===== src/Cost/Estimating/Committed.antt =====
-- An estimate never commits to more than it authorises.
use cost_risk_aware_gitops_p.Prelude.{
  ◌≡◌, refl, ap, ◌∙◌, sym, subst, true, List, [], ◌∷◌, All, All-perm, Option, none, some,
}
use cost_risk_aware_gitops_p.Float64.{Float64, IsIeee, zero_f}
use cost_risk_aware_gitops_p.Results.{ok, bind_ok, ok_inj}
use cost_risk_aware_gitops_p.Pricing.Validity.{IsValid}
use cost_risk_aware_gitops_p.Pricing.Bounds.{add_mono₂}
use cost_risk_aware_gitops_p.Cost.Types.{Workload, Estimate}
use cost_risk_aware_gitops_p.Cost.Quantity.{Quantities}
use cost_risk_aware_gitops_p.Cost.Autoscaling.{Object, collect_autoscalers}
use cost_risk_aware_gitops_p.Cost.Kinds.{Calculator}
use cost_risk_aware_gitops_p.Cost.Price.{price}
use cost_risk_aware_gitops_p.Cost.Price.Commitment.{IsCharged, price-IsCharged}
use cost_risk_aware_gitops_p.Cost.Price.Floor.{
  IsOrdered, IsNonnegative, IsNonnegative-prop, floor_le_monthly,
}
use cost_risk_aware_gitops_p.Cost.Estimating.{estimate}
use cost_risk_aware_gitops_p.Cost.Estimating.Totals.{
  with_priced, with_autoscalers, priced_each, sum_usd, estimate-IsEstimateOf,
}

module _ {F : Type 0} ⦃fl : Float64 F⦄ where
  open fl use {le, add}

  with_priced-IsCharged :
      (c : Calculator F) (priced : Option (Workload F)) (ws : List (Workload F))
      → ((w : Workload F) → priced ≡ some w → IsCharged c w)
      → All (IsCharged c) ws
      → All (IsCharged c) (with_priced priced ws)
  with_priced-IsCharged c none ws h hs = hs
  with_priced-IsCharged c (some w) ws h hs = (h w refl, hs)

  priced_each-IsCharged :
      ⦃qs : Quantities⦄
      → (c : Calculator F) (objects : List (Object F)) (ws : List (Workload F))
      → priced_each c objects ≡ ok ws
      → All (IsCharged c) ws
  unfolding priced_each
  priced_each-IsCharged c [] ws e = subst (All (IsCharged c)) (ok_inj [] ws e) tt
  priced_each-IsCharged c (object ∷ objects) ws e =
      let (priced, this, rest) = bind_ok (price c object) _ ws e in
      let (vs, others, last) =
        bind_ok (priced_each c objects) (λ vs. ok (with_priced priced vs)) ws rest in
      subst (All (IsCharged c)) (ok_inj (with_priced priced vs) ws last) (
        with_priced-IsCharged c priced vs (λ w h. price-IsCharged c object w (this ∙ ap ok h))
          (priced_each-IsCharged c objects vs others))

  module _ (laws : IsIeee F) where
    sum_usd_mono :
        (c : Calculator F)
        → IsValid c.table
        → IsOrdered c.autoscalers
        → (a b : F) → le a b ≡ true
        → (ws : List (Workload F)) → All (λ w. IsNonnegative w.per_replica) ws
        → All (IsCharged c) ws
        → le (sum_usd (λ w. w.floor_monthly_usd) a ws) (sum_usd (λ w. w.monthly_usd) b ws) ≡ true
    sum_usd_mono c valid ordered a b h [] nonneg charged = h
    sum_usd_mono c valid ordered a b h (w ∷ ws) (n, ns) (p, ps) =
        sum_usd_mono c valid ordered (add a w.floor_monthly_usd) (add b w.monthly_usd)
          (add_mono₂ laws a b _ _ h (floor_le_monthly laws c valid ordered w n p)) ws ns ps

    -- Where the rates are valid, every autoscaler's minimum is at most its maximum, and no workload of
    -- the estimate requests a negative amount, the committed monthly figure of an estimate is at most
    -- its monthly figure. The arithmetic is IEEE 754's, as `IsIeee` says.
    pub committed_le_monthly :
        ⦃qs : Quantities⦄
        → (c : Calculator F) (objects : List (Object F)) (est : Estimate F) → IsValid c.table
        → IsOrdered (collect_autoscalers objects)
        → All (λ w. IsNonnegative w.per_replica) est.workloads
        → estimate c objects ≡ ok est
        → le est.committed_monthly_usd est.monthly_usd ≡ true
    committed_le_monthly c objects est valid ordered nonneg e =
        let c' = with_autoscalers c objects in
        let (ws, each, est_of) = estimate-IsEstimateOf c objects est e in
        subst (λ x. le x est.monthly_usd ≡ true) (sym est_of.committed)
          (subst (λ x. le (sum_usd (λ w. w.floor_monthly_usd) zero_f ws) x ≡ true)
            (sym est_of.monthly)
            (sum_usd_mono c' valid ordered zero_f zero_f (laws.le_refl zero_f) ws
              (All-perm (λ w. IsNonnegative w.per_replica) (λ w. IsNonnegative-prop w.per_replica)
                est_of.same nonneg)
              (priced_each-IsCharged c' objects ws each)))
