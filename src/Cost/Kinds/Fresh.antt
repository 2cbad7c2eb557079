-- ===== src/Cost/Kinds/Fresh.antt =====
-- What the `switch` of `price` leaves: a workload that no autoscaler was looked up for yet.
use cost_risk_aware_gitops_p.Prelude.{
  ◌≡◌, refl, subst, Bool, true, false, ◌||◌, str_eq, [], ◌∷◌, if◌then◌else◌,
}
use cost_risk_aware_gitops_p.Float64.{Float64, zero_f}
use cost_risk_aware_gitops_p.Results.{Result, ok, ◌>>=◌, wrap, bind_ok, ok_inj}
use cost_risk_aware_gitops_p.Json.{Value, Fields, index, as_map}
use cost_risk_aware_gitops_p.Cost.Types.{Workload}
use cost_risk_aware_gitops_p.Cost.Quantity.{Quantities}
use cost_risk_aware_gitops_p.Cost.Pods.{pod_resources, pod_spec_from}
use cost_risk_aware_gitops_p.Cost.Autoscaling.{Object}
use cost_risk_aware_gitops_p.Cost.Kinds.{
  Calculator, Switched, unpriced, finished, requested, switch_kind, controller, daemon_set, pod,
  claim, claimed_storage, is_null, is_controller, labelled, named, job_flag,
}

module _ {F : Type 0} ⦃fl : Float64 F⦄ where
  -- What the `switch` leaves: no autoscaler was looked up for it yet.
  pub data IsFresh : Switched F → Type 0 where
    unpriced_fresh : IsFresh unpriced
    finished_fresh :
        (w : Workload F)
        → (str_eq w.kind "Job" || str_eq w.kind "CronJob") ≡ true
        → w.monthly_usd ≡ zero_f
        → w.floor_monthly_usd ≡ zero_f
        → IsFresh (finished w)
    requested_fresh : (w : Workload F) → w.autoscaled ≡ false → IsFresh (requested w)

  module _ ⦃qs : Quantities⦄ where
    -- A chain that ends in a workload with no autoscaler.
    IsFreshAfter : Result (Switched F) → Type 0
    IsFreshAfter m = (s : Switched F) → m ≡ ok s → IsFresh s

    after_bind :
        {A : Type 0} (m : Result A) (k : A → Result (Switched F))
        → ((a : A) → IsFreshAfter (k a))
        → IsFreshAfter (m >>= k)
    unfolding IsFreshAfter
    after_bind m k fresh s e = let (a, _, last) = bind_ok m k s e in fresh a s last

    after_ok : (s : Switched F) → IsFresh s → IsFreshAfter (ok s)
    unfolding IsFreshAfter
    after_ok s fresh s' e = subst IsFresh (ok_inj s s' e) fresh

    after_if :
        (b : Bool) (m n : Result (Switched F))
        → (b ≡ true → IsFreshAfter m)
        → IsFreshAfter n
        → IsFreshAfter (if b then m else n)
    after_if true m n h k = h refl
    after_if false m n h k = k

    module _ (c : Calculator F) (w : Workload F) (fresh : w.autoscaled ≡ false) where
      controller-IsFreshAfter : (spec : Fields F) → IsFreshAfter (controller c w spec)
      unfolding controller
      controller-IsFreshAfter spec =
          after_if (is_null (pod_spec_from spec)) _ _ (λ _. after_ok unpriced unpriced_fresh)
            (after_bind (wrap (labelled w.kind w) (pod_resources c.table (pod_spec_from spec))) _
              λ (per, flags).
                after_bind (wrap (labelled w.kind w) (claimed_storage w.kind spec per)) _
                  λ per_replica. after_ok _ (requested_fresh _ fresh))

      daemon_set-IsFreshAfter : (spec : Fields F) → IsFreshAfter (daemon_set c w spec)
      unfolding daemon_set
      daemon_set-IsFreshAfter spec =
          after_if (is_null (pod_spec_from spec)) _ _ (λ _. after_ok unpriced unpriced_fresh)
            (after_bind _ _ λ (per, flags). after_ok _ (requested_fresh _ fresh))

      pod-IsFreshAfter : (spec : Value F) → IsFreshAfter (pod c w spec)
      unfolding pod
      pod-IsFreshAfter spec = after_bind _ _ λ (per, flags). after_ok _ (requested_fresh _ fresh)

      claim-IsFreshAfter : (spec : Fields F) → IsFreshAfter (claim w spec)
      unfolding claim
      claim-IsFreshAfter spec = after_bind _ _ λ storage. after_ok _ (requested_fresh _ fresh)

    switch_kind-IsFreshAfter :
        (c : Calculator F) (object : Object F) → IsFreshAfter (switch_kind c object (named object))
    unfolding switch_kind
    switch_kind-IsFreshAfter c object =
        let w = named object in
        let spec = as_map (index object "spec") in
        after_if (is_controller w.kind) _ _ (λ _. controller-IsFreshAfter c w refl spec)
          (after_if (str_eq w.kind "DaemonSet") _ _ (λ _. daemon_set-IsFreshAfter c w refl spec)
            (after_if (str_eq w.kind "Pod") _ _
              (λ _. pod-IsFreshAfter c w refl (index object "spec"))
              (after_if (str_eq w.kind "PersistentVolumeClaim") _ _
                (λ _. claim-IsFreshAfter c w refl spec)
                (after_if (str_eq w.kind "Job" || str_eq w.kind "CronJob") _ _
                  (λ job.
                    after_ok _ (finished_fresh (record w { flags = job_flag ∷ [] }) job refl refl))
                  (after_ok unpriced unpriced_fresh)))))

    -- Whatever the object, no autoscaler was looked up for what the `switch` leaves.
    pub switch_kind-IsFresh :
        (c : Calculator F) (object : Object F) (s : Switched F)
        → switch_kind c object (named object) ≡ ok s
        → IsFresh s
    unfolding IsFreshAfter
    switch_kind-IsFresh c object s e = switch_kind-IsFreshAfter c object s e
