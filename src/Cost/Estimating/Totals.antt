-- ===== src/Cost/Estimating/Totals.antt =====
-- `Estimate` against a description of it: price every object on its own, keep those that are priced,
-- add up, and sort.
use mathlib.Core.List.{Perm, append_assoc, append-nil}
use cost_risk_aware_gitops_p.Prelude.{
  ◌≡◌, refl, ap, ◌∙◌, ◌↔◌, sym, subst, inl, inr, List, [], ◌∷◌, ◌++◌, Option, none, some, sort,
  sort-perm, sort-IsSorted, IsSorted, IsWeakOrder, str_lt-IsWeakOrder,
}
use cost_risk_aware_gitops_p.Float64.{Float64, zero_f}
use cost_risk_aware_gitops_p.Results.{
  Result, Error, ok, err, ◌>>=◌, bind_err_iff, Result-cases, bind_ok, ok_inj,
}
use cost_risk_aware_gitops_p.Cost.Types.{
  Workload, Estimate, Resources, ref, no_resources, add_resources,
}
use cost_risk_aware_gitops_p.Cost.Quantity.{Quantities}
use cost_risk_aware_gitops_p.Cost.Autoscaling.{Object, collect_autoscalers}
use cost_risk_aware_gitops_p.Cost.Kinds.{Calculator}
use cost_risk_aware_gitops_p.Cost.Price.{price}
use cost_risk_aware_gitops_p.Cost.Estimating.{
  no_estimate, add_workload, ref_less, price_objects, estimate,
}

module _ {F : Type 0} where
  abbrev pub with_priced : Option (Workload F) → List (Workload F) → List (Workload F)
  with_priced none ws = ws
  with_priced (some w) ws = w ∷ ws

module _ {F : Type 0} ⦃fl : Float64 F⦄ where
  open fl use {add}

  -- The sum of a part of each workload, from the left.
  abbrev pub sum_usd : (Workload F → F) → F → List (Workload F) → F
  sum_usd part a [] = a
  sum_usd part a (w ∷ ws) = sum_usd part (add a (part w)) ws

  abbrev pub sum_total : Resources F → List (Workload F) → Resources F
  sum_total r [] = r
  sum_total r (w ∷ ws) = sum_total (add_resources r w.total) ws

  -- An estimate after more workloads.
  extended : Estimate F → List (Workload F) → Estimate F
  extended est ws = record est {
    workloads = est.workloads ++ ws;
    monthly_usd = sum_usd (λ w. w.monthly_usd) est.monthly_usd ws;
    committed_monthly_usd = sum_usd (λ w. w.floor_monthly_usd) est.committed_monthly_usd ws;
    total = sum_total est.total ws;
  }

  extended-nil : (est : Estimate F) → extended est [] ≡ est
  unfolding extended
  extended-nil est = ap (λ ws. record est { workloads = ws }) (append-nil est.workloads)

  extended-add_workload :
      (est : Estimate F) (priced : Option (Workload F)) (ws : List (Workload F))
      → extended (add_workload est priced) ws ≡ extended est (with_priced priced ws)
  unfolding extended
  extended-add_workload est none ws = refl
  extended-add_workload est (some w) ws =
      ap (λ vs. record (extended (add_workload est (some w)) ws) { workloads = vs })
        (append_assoc est.workloads (w ∷ []) ws)

  module _ ⦃qs : Quantities⦄ where
    -- The workloads of the objects that are priced, in the objects' order.
    unfoldable pub priced_each : Calculator F → List (Object F) → Result (List (Workload F))
    priced_each c [] = ok []
    priced_each c (object ∷ objects) = do
      priced ← price c object
      ws ← priced_each c objects
      ok (with_priced priced ws)

    price_objects_lem :
        (c : Calculator F) (est : Estimate F) (objects : List (Object F))
        → price_objects c est objects ≡ (priced_each c objects >>= λ ws. ok (extended est ws))
    unfolding price_objects priced_each
    price_objects_lem c est [] = ap ok (sym (extended-nil est))
    price_objects_lem c est (object ∷ objects) = elim (Result-cases (price c object)) [
      | inl (priced, e) ↦ elim (Result-cases (priced_each c objects)) [
        | inl (ws, f) ↦
            let ih = price_objects_lem c (add_workload est priced) objects in
            rw (e, ih, f) (ap ok (extended-add_workload est priced ws))
        | inr (x, f) ↦
            let ih = price_objects_lem c (add_workload est priced) objects in rw (e, ih, f) refl
      ]
      | inr (x, e) ↦ rw e refl
    ]

    -- What `Estimate` returns for these workloads.
    pub record IsEstimateOf (est : Estimate F) (ws : List (Workload F)) : Type 0 where
      pub sorted : IsSorted ref_less est.workloads
      pub same : Perm est.workloads ws
      pub monthly : est.monthly_usd ≡ sum_usd (λ w. w.monthly_usd) zero_f ws
      pub committed : est.committed_monthly_usd ≡ sum_usd (λ w. w.floor_monthly_usd) zero_f ws
      pub total : est.total ≡ sum_total no_resources ws

    abbrev pub with_autoscalers : Calculator F → List (Object F) → Calculator F
    with_autoscalers c objects = record c { autoscalers = collect_autoscalers objects }

    ref_less-IsWeakOrder : IsWeakOrder (ref_less {F = F})
    ref_less-IsWeakOrder = record {
      asymm = λ a b. str_lt-IsWeakOrder.asymm (ref a) (ref b);
      neg_trans = λ a b c. str_lt-IsWeakOrder.neg_trans (ref a) (ref b) (ref c);
    }

    -- The workloads sorted and added up.
    summary : List (Workload F) → Estimate F
    summary ws = record (extended no_estimate ws) { workloads = sort ref_less ws }

    summary-IsEstimateOf : (ws : List (Workload F)) → IsEstimateOf (summary ws) ws
    unfolding summary extended
    summary-IsEstimateOf ws = record {
      sorted = sort-IsSorted ref_less ref_less-IsWeakOrder ws;
      same = sort-perm ref_less ws;
      monthly = refl;
      committed = refl;
      total = refl;
    }

    estimate_lem :
        (c : Calculator F) (objects : List (Object F))
        → estimate c objects
          ≡ (priced_each (with_autoscalers c objects) objects >>= λ ws. ok (summary ws))
    unfolding estimate summary extended
    estimate_lem c objects =
        let c' = with_autoscalers c objects in
        elim (Result-cases (priced_each c' objects)) [
          | inl (ws, e) ↦ rw (price_objects_lem c' no_estimate objects, e, extended) refl
          | inr (x, e) ↦ rw (price_objects_lem c' no_estimate objects, e) refl
        ]

    -- Where `Estimate` returns an estimate, its workloads are those of the objects that are priced
    -- one by one under the autoscalers of all of them, sorted by their references, and its figures are
    -- theirs, added up.
    pub estimate-IsEstimateOf :
        (c : Calculator F) (objects : List (Object F)) (est : Estimate F)
        → estimate c objects ≡ ok est
        → (ws : List (Workload F)) × (priced_each (with_autoscalers c objects) objects ≡ ok ws)
          × IsEstimateOf est ws
    estimate-IsEstimateOf c objects est e =
        let (ws, each, whole) =
          bind_ok (priced_each (with_autoscalers c objects) objects) (λ ws. ok (summary ws)) est
            (sym (estimate_lem c objects) ∙ e) in
        (
          ws,
          each,
          subst (λ x. IsEstimateOf x ws) (ok_inj (summary ws) est whole) (summary-IsEstimateOf ws),
        )

    -- `Estimate` fails exactly where an object does, with the error of the first that does.
    pub estimate_err_iff :
        (c : Calculator F) (objects : List (Object F)) (x : Error)
        → (estimate c objects ≡ err x) ↔ (priced_each (with_autoscalers c objects) objects ≡ err x)
    estimate_err_iff c objects x =
        rw (estimate_lem c objects)
          (bind_err_iff (priced_each (with_autoscalers c objects) objects) summary x)
