-- ===== src/Cost/Pods/Formula.antt =====
-- `podResources` meets a formula after the scheduler's: what runs together is summed, what runs one at a time
-- counts by its greatest.
use mathlib.Core.List.{append-nil, append_assoc}
use cost_risk_aware_gitops_p.Prelude.{
  ◌≡◌, refl, ap, ◌∙◌, sym, inl, inr, Bool, true, false, List, [], ◌∷◌, ◌++◌, String, if◌then◌else◌,
}
use cost_risk_aware_gitops_p.Float64.{Float64, zero_f, max_f}
use cost_risk_aware_gitops_p.Results.{Result, ok, err, ◌>>=◌, bind_same, Result-cases}
use cost_risk_aware_gitops_p.Json.{Value, Fields, obj, index, as_list, as_map?}
use cost_risk_aware_gitops_p.Pricing.{Table}
use cost_risk_aware_gitops_p.Cost.Types.{Resources, no_resources, add_resources}
use cost_risk_aware_gitops_p.Cost.Quantity.{Quantities}
use cost_risk_aware_gitops_p.Cost.Containers.{Flagged, container_resources}
use cost_risk_aware_gitops_p.Cost.Pods.{
  Pod, is_sidecar, add_init, effective, add_containers, add_init_containers, pod_resources,
  pod_from,
}

-- A container that was priced: whether it is a sidecar, what it requests, and its flags.
pub record Priced (F : Type 0) : Type 0 where
  pub sidecar : Bool
  pub resources : Resources F
  pub flags : List String

module _ {F : Type 0} where
  -- The containers that are held together, and those that run one at a time.
  abbrev pub sidecars : List (Priced F) → List (Priced F)
  sidecars [] = []
  sidecars (c ∷ cs) = if c.sidecar then c ∷ sidecars cs else sidecars cs

  abbrev pub ordinary : List (Priced F) → List (Priced F)
  ordinary [] = []
  ordinary (c ∷ cs) = if c.sidecar then ordinary cs else c ∷ ordinary cs

  abbrev pub all_flags : List (Priced F) → List String
  all_flags [] = []
  all_flags (c ∷ cs) = c.flags ++ all_flags cs

module _ {F : Type 0} ⦃fl : Float64 F⦄ where
  open fl use {add}

  -- Sums and greatest values, one dimension at a time, from the left.
  abbrev pub sum_from : F → (Resources F → F) → List (Priced F) → F
  sum_from a part [] = a
  sum_from a part (c ∷ cs) = sum_from (add a (part c.resources)) part cs

  abbrev pub greatest_from : F → (Resources F → F) → List (Priced F) → F
  greatest_from a part [] = a
  greatest_from a part (c ∷ cs) = greatest_from (max_f a (part c.resources)) part cs

  abbrev pub cpu : Resources F → F
  cpu r = r.cpu_cores

  abbrev pub memory : Resources F → F
  memory r = r.memory_gib

  abbrev pub storage : Resources F → F
  storage r = r.storage_gib

  -- The formula: for CPU and memory the larger of what is held together and of the largest ordinary
  -- init container; for storage their sum. `apps` are the app containers, `inits` the init containers.
  pub formula : (apps inits : List (Priced F)) → Flagged (Resources F)
  formula apps inits =
      let held = apps ++ sidecars inits in
      let alone = ordinary inits in
      (
        record {
          cpu_cores = max_f (sum_from zero_f cpu held) (greatest_from zero_f cpu alone);
          memory_gib = max_f (sum_from zero_f memory held) (greatest_from zero_f memory alone);
          storage_gib = add (sum_from zero_f storage held) (greatest_from zero_f storage alone);
        },
        all_flags held,
      )

  sum_resources : Resources F → List (Priced F) → Resources F
  sum_resources r cs = record {
    cpu_cores = sum_from r.cpu_cores cpu cs;
    memory_gib = sum_from r.memory_gib memory cs;
    storage_gib = sum_from r.storage_gib storage cs;
  }

  greatest_resources : Resources F → List (Priced F) → Resources F
  greatest_resources r cs = record {
    cpu_cores = greatest_from r.cpu_cores cpu cs;
    memory_gib = greatest_from r.memory_gib memory cs;
    storage_gib = greatest_from r.storage_gib storage cs;
  }

  -- What the loop over the app containers returns, and the variables after the loop over the rest.
  summed : Resources F → List String → List (Priced F) → Flagged (Resources F)
  summed r f cs = (sum_resources r cs, f ++ all_flags cs)

  after_inits : Pod F → List (Priced F) → Pod F
  after_inits p cs = record {
    running = sum_resources p.running (sidecars cs);
    max_init = greatest_resources p.max_init (ordinary cs);
    flags = p.flags ++ all_flags (sidecars cs);
  }

  summed-cons :
      (r : Resources F) (f : List String) (c : Priced F) (cs : List (Priced F))
      → summed (add_resources r c.resources) (f ++ c.flags) cs ≡ summed r f (c ∷ cs)
  unfolding summed sum_resources
  summed-cons r f c cs =
      ap (λ g. (sum_resources r (c ∷ cs), g)) (append_assoc f c.flags (all_flags cs))

  summed-nil : (r : Resources F) (f : List String) → summed r f [] ≡ (r, f)
  unfolding summed sum_resources
  summed-nil r f = ap (λ g. (r, g)) (append-nil f)

  after_inits-nil : (p : Pod F) → after_inits p [] ≡ p
  unfolding after_inits sum_resources greatest_resources
  after_inits-nil p = ap (λ g. record p { flags = g }) (append-nil p.flags)

  after_inits-cons :
      (p : Pod F) (b : Bool) (r : Resources F) (f : List String) (cs : List (Priced F))
      → after_inits (add_init p b r f) cs
        ≡ after_inits p (record { sidecar = b; resources = r; flags = f } ∷ cs)
  unfolding after_inits sum_resources greatest_resources
  after_inits-cons p true r f cs =
      ap (λ g. record (after_inits (add_init p true r f) cs) { flags = g })
        (append_assoc p.flags f (all_flags (sidecars cs)))
  after_inits-cons p false r f cs = refl

  -- The two loops, then what is reserved.
  sum_from-append :
      (a : F) (part : Resources F → F) (xs ys : List (Priced F))
      → sum_from a part (xs ++ ys) ≡ sum_from (sum_from a part xs) part ys
  sum_from-append a part [] ys = refl
  sum_from-append a part (x ∷ xs) ys = sum_from-append (add a (part x.resources)) part xs ys

  all_flags-append : (xs ys : List (Priced F)) → all_flags (xs ++ ys) ≡ all_flags xs ++ all_flags ys
  all_flags-append [] ys = refl
  all_flags-append (x ∷ xs) ys =
      ap (x.flags ++◌) (all_flags-append xs ys)
      ∙ sym (append_assoc x.flags (all_flags xs) (all_flags ys))

  first_pod : List (Priced F) → Pod F
  first_pod apps = record {
    running = (summed no_resources [] apps).0;
    max_init = no_resources;
    flags = (summed no_resources [] apps).1;
  }

  reserved_lem :
      (apps inits : List (Priced F))
      → (effective (after_inits (first_pod apps) inits), (after_inits (first_pod apps) inits).flags)
        ≡ formula apps inits
  unfolding formula first_pod summed after_inits sum_resources greatest_resources
  reserved_lem apps inits = simp (
    sum_from-append zero_f cpu apps (sidecars inits),
    sum_from-append zero_f memory apps (sidecars inits),
    sum_from-append zero_f storage apps (sidecars inits),
    all_flags-append apps (sidecars inits),
  )

  push : Priced F → Result (List (Priced F)) → Result (List (Priced F))
  push c m = m >>= λ cs. ok (c ∷ cs)

  bind-push :
      {B : Type 0} (c : Priced F) (m : Result (List (Priced F))) (k : List (Priced F) → Result B)
      → (push c m >>= k) ≡ (m >>= λ cs. k (c ∷ cs))
  unfolding push
  bind-push c (ok cs) k = refl
  bind-push c (err e) k = refl

  module _ ⦃qs : Quantities⦄ (table : Table F) where
    -- Every container priced, in order; the first that cannot be is the error.
    pub price_all : List (Value F) → Result (List (Priced F))
    price_all [] = ok []
    price_all (c ∷ cs) = do
      (r, f) ← container_resources table c
      push (record { sidecar = is_sidecar c; resources = r; flags = f }) (price_all cs)

    add_containers_lem :
        (r : Resources F) (f : List String) (cs : List (Value F))
        → add_containers table r f cs ≡ (price_all cs >>= λ priced. ok (summed r f priced))
    unfolding add_containers price_all
    add_containers_lem r f [] = ap ok (sym (summed-nil r f))
    add_containers_lem r f (c ∷ cs) = elim (Result-cases (container_resources table c)) [
      | inl ((q, g), e) ↦
          let this : Priced F = record { sidecar = is_sidecar c; resources = q; flags = g } in
          rw (e, bind-push this (price_all cs) (λ priced. ok (summed r f priced)))
            (add_containers_lem (add_resources r q) (f ++ g) cs
              ∙ bind_same (price_all cs) (λ priced. ap ok (summed-cons r f this priced)))
      | inr (x, e) ↦ rw e
    ]

    add_init_containers_lem :
        (p : Pod F) (cs : List (Value F))
        → add_init_containers table p cs ≡ (price_all cs >>= λ priced. ok (after_inits p priced))
    unfolding add_init_containers price_all
    add_init_containers_lem p [] = ap ok (sym (after_inits-nil p))
    add_init_containers_lem p (c ∷ cs) = elim (Result-cases (container_resources table c)) [
      | inl ((q, g), e) ↦
          let this : Priced F = record { sidecar = is_sidecar c; resources = q; flags = g } in
          rw (e, bind-push this (price_all cs) (λ priced. ok (after_inits p priced)))
            (add_init_containers_lem (add_init p (is_sidecar c) q g) cs
              ∙ bind_same (price_all cs)
                  (λ priced. ap ok (after_inits-cons p (is_sidecar c) q g priced)))
      | inr (x, e) ↦ rw e
    ]

    inits_lem :
        (apps : List (Priced F)) (cs : List (Value F))
        → (add_init_containers table (first_pod apps) cs >>= λ p. ok (effective p, p.flags))
          ≡ (price_all cs >>= λ inits. ok (formula apps inits))
    inits_lem apps cs = elim (Result-cases (price_all cs)) [
      | inl (inits, e) ↦
          rw (add_init_containers_lem (first_pod apps) cs, e) (ap ok (reserved_lem apps inits))
      | inr (x, e) ↦ rw (add_init_containers_lem (first_pod apps) cs, e) refl
    ]

    -- A pod requests what the formula gives for its containers, once each of them could be priced.
    pub pod_resources_lem :
        (spec : Fields F)
        → pod_resources table (obj spec) ≡ (
            price_all (as_list (index spec "containers")) >>= λ apps.
            price_all (as_list (index spec "initContainers")) >>= λ inits. ok (formula apps inits))
    unfolding pod_resources pod_from as_map? first_pod
    pod_resources_lem spec =
        let apps = as_list (index spec "containers") in
        elim (Result-cases (price_all apps)) [
          | inl (priced, e) ↦
              rw (add_containers_lem no_resources [] apps, e)
                (inits_lem priced (as_list (index spec "initContainers")))
          | inr (x, e) ↦ rw (add_containers_lem no_resources [] apps, e) refl
        ]
