-- ===== src/Cost/Delta/Changes.antt =====
-- What a row says of its reference: added, removed, modified or unchanged.
use cost_risk_aware_gitops_p.Prelude.{
  ◌≡◌, refl, sym, inl, inr, ◌⊎◌, ◌↔◌, ◌≢◌, true, Bool-cases, Option, none, some, arith, String,
}
use cost_risk_aware_gitops_p.Prelude.Int.{eqb_ℤ, eqb_ℤ_iff}
use cost_risk_aware_gitops_p.Float64.{Float64, IsIeee, zero_f}
use cost_risk_aware_gitops_p.Cost.Types.{Workload}
use cost_risk_aware_gitops_p.Cost.Delta.{
  Change, added, removed, modified, unchanged, change_of, delta_of,
}

module _ {F : Type 0} ⦃fl : Float64 F⦄ where
  open fl use {eq, sub}

  -- A workload that is on both sides and costs the same with the same replicas.
  pub record IsKept (before? after? : Option (Workload F)) : Type 0 where
    pub before : Workload F
    pub after : Workload F
    pub was : before? ≡ some before
    pub is : after? ≡ some after
    pub same_usd : before.monthly_usd ≡ after.monthly_usd
    pub same_replicas : before.replicas ≡ after.replicas

  -- A workload that is on both sides, with another cost or another replica count.
  pub record IsChanged (before? after? : Option (Workload F)) : Type 0 where
    pub before : Workload F
    pub after : Workload F
    pub was : before? ≡ some before
    pub is : after? ≡ some after
    pub differs : (before.monthly_usd ≢ after.monthly_usd) ⊎ (before.replicas ≢ after.replicas)

  -- What each change means.
  abbrev pub Means : Option (Workload F) → Option (Workload F) → Change → Type 0
  Means before? after? added = before? ≡ none
  Means before? after? removed = (before? ≢ none) × (after? ≡ none)
  Means before? after? modified = IsChanged before? after?
  Means before? after? unchanged = IsKept before? after?

  module _ (laws : IsIeee F) where
    open laws use {
      eq_of_eq, eq_refl, sub_self, sub_pos, sub_neg, lt-eq-not-le, le_antisymm, le_refl,
    }

    eq_sub_zero : (a b : F) → (eq (sub a b) zero_f ≡ true) ↔ (a ≡ b)
    eq_sub_zero a b = (
      (λ h.
          let gone = eq_of_eq (sub a b) zero_f h in
          le_antisymm a b
            (ground (
              arith,
              gone,
              sub_pos a b,
              lt-eq-not-le b a,
              lt-eq-not-le zero_f zero_f,
              le_refl zero_f,
            ))
            (ground (
              arith,
              gone,
              sub_neg a b,
              lt-eq-not-le a b,
              lt-eq-not-le zero_f zero_f,
              le_refl zero_f,
            ))),
      (λ h. rw (h, sub_self b) (eq_refl zero_f)),
    )

    -- Whatever is on the two sides, the change that a row names is what happened: the workload is new,
    -- it is gone, it is on both sides with another monthly figure or replica count, or it is on both
    -- sides with the same.
    pub delta_of-Means :
        (r : String) (before? after? : Option (Workload F))
        → Means before? after? (delta_of r before? after?).change
    unfolding delta_of change_of
    delta_of-Means r none after? = refl
    delta_of-Means r (some before) none = (λ h. ground arith, refl)
    delta_of-Means r (some before) (some after) =
        let same_usd = eq_sub_zero after.monthly_usd before.monthly_usd in
        let same_replicas = eqb_ℤ_iff before.replicas after.replicas in
        elim (Bool-cases (eq (sub after.monthly_usd before.monthly_usd) zero_f)) [
          | inr e ↦ rw e (record {
            before = before;
            after = after;
            was = refl;
            is = refl;
            differs = inl (λ h. ground (arith, e, same_usd.1 (sym h)));
          })
          | inl e ↦ elim (Bool-cases (eqb_ℤ before.replicas after.replicas)) [
            | inr f ↦
                rw (e, f)
                  (record {
                    before = before;
                    after = after;
                    was = refl;
                    is = refl;
                    differs = inr (λ h. ground (arith, f, same_replicas.1 h));
                  })
            | inl f ↦
                rw (e, f)
                  (record {
                    before = before;
                    after = after;
                    was = refl;
                    is = refl;
                    same_usd = sym (same_usd.0 e);
                    same_replicas = same_replicas.0 f;
                  })
          ]
        ]
