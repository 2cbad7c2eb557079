-- ===== src/Cost/Delta/Rows.antt =====
-- The rows of a comparison: one for each reference, with what changed.
use mathlib.Core.List.{Perm}
use cost_risk_aware_gitops_p.Prelude.{
  ◌≡◌, sym, subst, inl, inr, true, false, ◌||◌, Bool-cases, List, [], ◌++◌, map, arith, contains,
  IsDistinct, contains-nil, contains-append, contains-dedupe_onto, dedupe_onto-IsDistinct, String,
  sort-perm, IsSorted, sort-IsSorted, IsWeakOrder, str_lt-IsWeakOrder,
}
use cost_risk_aware_gitops_p.Float64.{Float64, IsIeee}
use cost_risk_aware_gitops_p.Cost.Types.{Estimate, ref}
use cost_risk_aware_gitops_p.Cost.Delta.{
  WorkloadDelta, by_ref, refs_of, delta_of, delta_less, workload_deltas, compare_estimates,
}

module _ {F : Type 0} ⦃fl : Float64 F⦄ where
  open fl use {lt, le, eq}

  -- The row of a reference.
  abbrev pub row : Estimate F → Estimate F → String → WorkloadDelta F
  row base head r = delta_of r (by_ref r base.workloads) (by_ref r head.workloads)

  -- What the rows of a comparison are.
  pub record AreRowsOf (rows : List (WorkloadDelta F)) (base head : Estimate F) (refs : List String)
      : Type 0 where
    pub distinct : IsDistinct refs
    pub covers :
        (r : String)
        → contains r refs
          ≡ (contains r (map ref base.workloads) || contains r (map ref head.workloads))
    pub same : Perm rows (map (row base head) refs)
    pub sorted : IsSorted delta_less rows

  module _ (laws : IsIeee F) where
    open laws use {le_refl, le_trans, le_antisymm, lt-eq-not-le, le_of_lt, eq_of_eq, eq_refl}

    delta_less_asymm : (a b : WorkloadDelta F) → delta_less a b ≡ true → delta_less b a ≡ false
    delta_less_asymm a b h =
        let x = a.delta_usd in
        let y = b.delta_usd in
        ground (
          arith,
          eq_of_eq x y,
          eq_of_eq y x,
          eq_refl x,
          eq_refl y,
          lt-eq-not-le x y,
          le_of_lt y x,
          str_lt-IsWeakOrder.asymm a.ref b.ref,
        )

    le_of_not-delta_less :
        (a b : WorkloadDelta F) → delta_less a b ≡ false → le a.delta_usd b.delta_usd ≡ true
    le_of_not-delta_less a b h =
        let x = a.delta_usd in
        let y = b.delta_usd in ground (arith, eq_of_eq x y, le_refl x, lt-eq-not-le y x)

    delta_less_neg_trans :
        (a b c : WorkloadDelta F)
        → delta_less a b ≡ false
        → delta_less b c ≡ false
        → delta_less a c ≡ false
    delta_less_neg_trans a b c h k =
        let x = a.delta_usd in
        let y = b.delta_usd in
        let z = c.delta_usd in
        let x_le_y = le_of_not-delta_less a b h in
        let y_le_z = le_of_not-delta_less b c k in
        let x_le_z = le_trans x y z x_le_y y_le_z in
        elim (Bool-cases (eq x z)) [
          | inl e ↦
              let x_is_z = eq_of_eq x z e in
              let x_is_y =
                le_antisymm x y x_le_y (subst (λ w. le y w ≡ true) (sym x_is_z) y_le_z) in
              ground
                (arith, eq_refl y, x_is_z, x_is_y, str_lt-IsWeakOrder.neg_trans a.ref b.ref c.ref)
          | inr e ↦ ground (arith, lt-eq-not-le z x)
        ]

    delta_less-IsWeakOrder : IsWeakOrder (delta_less {F = F})
    delta_less-IsWeakOrder = record { asymm = delta_less_asymm; neg_trans = delta_less_neg_trans }

    -- A comparison has one row for each reference of either side, no reference twice, the largest
    -- increase first and by reference where increases are equal. The arithmetic is IEEE 754's.
    pub compare_estimates-AreRowsOf :
        (base head : Estimate F) (estate : F)
        → (refs : List String) × AreRowsOf
            (compare_estimates base head estate).workloads
            base
            head
            refs
    unfolding compare_estimates workload_deltas refs_of
    compare_estimates-AreRowsOf base head estate = (
      refs_of base head,
      record {
        distinct = dedupe_onto-IsDistinct [] (map ref base.workloads ++ map ref head.workloads);
        covers = λ r. ground (
          arith,
          contains-dedupe_onto r [] (map ref base.workloads ++ map ref head.workloads),
          contains-append r (map ref base.workloads) (map ref head.workloads),
          contains-nil r,
        );
        same = sort-perm delta_less (workload_deltas base head);
        sorted = sort-IsSorted delta_less delta_less-IsWeakOrder (workload_deltas base head);
      },
    )
