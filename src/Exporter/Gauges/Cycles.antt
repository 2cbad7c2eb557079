-- ===== src/Exporter/Gauges/Cycles.antt =====
-- costexporter/main.go: the gauges show the last cycle that succeeded.
use mathlib.Core.List.{append-nil, append_assoc}
use cost_risk_aware_gitops_p.Prelude.{
  ◌≡◌, refl, sym, ap, subst, ◌∙◌, ◌⊎◌, inl, inr, ℕ, ◌+◌, Bool, true, false, Bool-cases,
  if◌then◌else◌, Option, none, some, List, [], ◌∷◌, ◌++◌, All, All-append, arith,
}
use cost_risk_aware_gitops_p.Results.{Error, Result, ok, err}
use cost_risk_aware_gitops_p.App.Queue.{Time}
use cost_risk_aware_gitops_p.Exporter.Attribution.{Key, key_eq, Cost, key_of}
use cost_risk_aware_gitops_p.Exporter.Attribution.Entries.{key_eq_iff, key_eq_sym}
use cost_risk_aware_gitops_p.Exporter.Gauges.{
  Gauge, read, set, Gauges, Cycle, new_gauges, reset, set_cost, set_costs, publish, collect_cycles,
}

module _ {F : Type 0} where
  read-set :
      (k j : Key) (v : F) (g : Gauge F)
      → read j (set k v g) ≡ (if key_eq j k then some v else read j g)
  unfolding read set
  read-set k j v [] = refl
  read-set k j v ((i, w) ∷ g) = elim (Bool-cases (key_eq k i)) [
    | inl e ↦ let same = ap (key_eq j) ((key_eq_iff k i).0 e) in ground (arith, e, same)
    | inr n ↦ elim (Bool-cases (key_eq j i)) [
      | inl e ↦
          let other = ap (λ i. key_eq k i) (sym ((key_eq_iff j i).0 e)) in
          let apart = key_eq_sym k j false (sym other ∙ n) in ground (arith, n, e, apart)
      | inr m ↦ ground (arith, n, m, read-set k j v g)
    ]
  ]

  -- The last cost of a key.
  abbrev pub last_cost : Key → Option (Cost F) → List (Cost F) → Option (Cost F)
  last_cost k o [] = o
  last_cost k o (c ∷ cs) = last_cost k (if key_eq k (key_of c.usage) then some c else o) cs

  abbrev figure : (Cost F → F) → Option (Cost F) → Option F
  figure f none = none
  figure f (some c) = some (f c)

  -- The gauges read, of each key, the figures of its cost among these.
  pub record Shows (o : Key → Option (Cost F)) (g : Gauges F) : Type 0 where
    pub hourly : (k : Key) → read k g.cost_hourly ≡ figure (λ c. c.hourly_usd) (o k)
    pub monthly : (k : Key) → read k g.cost_monthly ≡ figure (λ c. c.monthly_usd) (o k)
    pub cores : (k : Key) → read k g.cpu_cores ≡ figure (λ c. c.usage.cpu_cores) (o k)
    pub memory : (k : Key) → read k g.memory_gib ≡ figure (λ c. c.usage.memory_gib) (o k)

  with_cost : Cost F → (Key → Option (Cost F)) → Key → Option (Cost F)
  with_cost c o k = if key_eq k (key_of c.usage) then some c else o k

  figure_if :
      (f : Cost F → F) (b : Bool) (c : Cost F) (o : Option (Cost F))
      → (if b then some (f c) else figure f o) ≡ figure f (if b then some c else o)
  figure_if f true c o = refl
  figure_if f false c o = refl

  set-figure :
      (f : Cost F → F) (c : Cost F) (o : Key → Option (Cost F)) (g : Gauge F)
      → ((k : Key) → read k g ≡ figure f (o k))
      → (k : Key) → read k (set (key_of c.usage) (f c) g) ≡ figure f (with_cost c o k)
  unfolding with_cost
  set-figure f c o g shows k =
      read-set (key_of c.usage) k (f c) g
      ∙ ap (λ r. if key_eq k (key_of c.usage) then some (f c) else r) (shows k)
      ∙ figure_if f (key_eq k (key_of c.usage)) c (o k)

  set_cost-Shows :
      (c : Cost F) (o : Key → Option (Cost F)) (g : Gauges F)
      → Shows o g
      → Shows (with_cost c o) (set_cost c g)
  unfolding set_cost
  set_cost-Shows c o g s = record {
    hourly = set-figure (λ c. c.hourly_usd) c o g.cost_hourly s.hourly;
    monthly = set-figure (λ c. c.monthly_usd) c o g.cost_monthly s.monthly;
    cores = set-figure (λ c. c.usage.cpu_cores) c o g.cpu_cores s.cores;
    memory = set-figure (λ c. c.usage.memory_gib) c o g.memory_gib s.memory;
  }

  set_costs-Shows :
      (cs : List (Cost F)) (o : Key → Option (Cost F)) (g : Gauges F)
      → Shows o g
      → Shows (λ k. last_cost k (o k) cs) (set_costs cs g)
  unfolding set_costs with_cost
  set_costs-Shows [] o g s = s
  set_costs-Shows (c ∷ cs) o g s =
      set_costs-Shows cs (with_cost c o) (set_cost c g) (set_cost-Shows c o g s)

  -- Shows says nothing of the other two series.
  Shows-kept :
      (o : Key → Option (Cost F)) (g : Gauges F) (n : ℕ) (t : Option Time)
      → Shows o g
      → Shows o (record g { collection_errors = n; last_success = t })
  Shows-kept o g n t s = record {
    hourly = s.hourly;
    monthly = s.monthly;
    cores = s.cores;
    memory = s.memory;
  }

  reset-Shows : (g : Gauges F) → Shows (λ k. none) (reset g)
  unfolding read
  reset-Shows g = record {
    hourly = λ k. refl;
    monthly = λ k. refl;
    cores = λ k. refl;
    memory = λ k. refl;
  }

  abbrev pub HasFailed : Cycle F → Type 0
  HasFailed c = (e : Error) × (c.collected ≡ err e)

  abbrev pub failures : List (Cycle F) → ℕ
  failures [] = 0
  failures (c ∷ cs) = (elim c.collected [ ok _ ↦ 0 | err _ ↦ 1 ]) + failures cs

  -- The last cycle that succeeded, and the failures since.
  pub record LastSuccess (cycles : List (Cycle F)) : Type 0 where
    pub before : List (Cycle F)
    pub cycle : Cycle F
    pub since : List (Cycle F)
    pub costs : List (Cost F)
    pub split : cycles ≡ before ++ cycle ∷ since
    pub succeeded : cycle.collected ≡ ok costs
    pub failed : All HasFailed since

  -- What a scrape sees after these cycles.
  pub Scraped : List (Cycle F) → Gauges F → Type 0
  Scraped seen g =
      (g.collection_errors ≡ failures seen)
      × ((All HasFailed seen × Shows (λ k. none) g × (g.last_success ≡ none))
          ⊎ ((l : LastSuccess seen) × Shows (λ k. last_cost k none l.costs) g
              × (g.last_success ≡ some l.cycle.published)))

  failures-append : (xs ys : List (Cycle F)) → failures (xs ++ ys) ≡ failures xs + failures ys
  failures-append [] ys = omega arith
  failures-append (x ∷ xs) ys = omega (arith, failures-append xs ys)

  set_costs-kept :
      (cs : List (Cost F)) (g : Gauges F)
      → ((set_costs cs g).collection_errors ≡ g.collection_errors)
  unfolding set_costs set_cost
  set_costs-kept [] g = refl
  set_costs-kept (c ∷ cs) g = set_costs-kept cs (set_cost c g)

  publish-Scraped :
      (seen : List (Cycle F)) (c : Cycle F) (collected : Result (List (Cost F))) (g : Gauges F)
      → c.collected ≡ collected
      → Scraped seen g
      → Scraped (seen ++ c ∷ []) (publish collected c.published g)
  unfolding Scraped publish
  publish-Scraped seen c (ok cs) g e (n, _) =
      let longer = failures-append seen (c ∷ []) in
      let none_failed : failures (c ∷ []) ≡ 0 = rw e refl in
      (
        set_costs-kept cs (reset g) ∙ n ∙ omega (arith, longer, none_failed),
        inr (
          record {
            before = seen;
            cycle = c;
            since = [];
            costs = cs;
            split = refl;
            succeeded = e;
            failed = tt;
          },
          Shows-kept (λ k. last_cost k none cs) (set_costs cs (reset g)) _ _
              (set_costs-Shows cs (λ k. none) (reset g) (reset-Shows g)),
          refl,
        ),
      )
  publish-Scraped seen c (err x) g e (n, before) =
      let longer = failures-append seen (c ∷ []) in
      let one_failed : failures (c ∷ []) ≡ 1 = rw e refl in
      (omega (arith, longer, one_failed, n), unchanged before)
    where
      unchanged :
          (All HasFailed seen × Shows (λ k. none) g × (g.last_success ≡ none))
            ⊎ ((l : LastSuccess seen) × Shows (λ k. last_cost k none l.costs) g
                × (g.last_success ≡ some l.cycle.published))
          → (All HasFailed (seen ++ c ∷ [])
              × Shows (λ k. none) (record g { collection_errors = g.collection_errors + 1 })
              × (g.last_success ≡ none))
            ⊎ ((l : LastSuccess (seen ++ c ∷ [])) × Shows
                  (λ k. last_cost k none l.costs)
                  (record g { collection_errors = g.collection_errors + 1 })
                × (g.last_success ≡ some l.cycle.published))
      unchanged (inl (f, s, t)) =
          inl (All-append HasFailed seen (c ∷ []) f ((x, e), tt), Shows-kept (λ k. none) g _ _ s, t)
      unchanged (inr (l, s, t)) = inr (
        record {
          before = l.before;
          cycle = l.cycle;
          since = l.since ++ c ∷ [];
          costs = l.costs;
          split =
              ap (λ s. s ++ c ∷ []) l.split ∙ append_assoc l.before (l.cycle ∷ l.since) (c ∷ []);
          succeeded = l.succeeded;
          failed = All-append HasFailed l.since (c ∷ []) l.failed ((x, e), tt);
        },
        Shows-kept (λ k. last_cost k none l.costs) g _ _ s,
        t,
      )

  collect_cycles-from :
      (seen cycles : List (Cycle F)) (g : Gauges F)
      → Scraped seen g
      → Scraped (seen ++ cycles) (collect_cycles cycles g)
  unfolding collect_cycles
  collect_cycles-from seen [] g s = subst (λ seen. Scraped seen g) (sym (append-nil seen)) s
  collect_cycles-from seen (c ∷ cs) g s =
      let g' = publish c.collected c.published g in
      subst (λ seen. Scraped seen (collect_cycles cs g')) (append_assoc seen (c ∷ []) cs)
        (collect_cycles-from (seen ++ c ∷ []) cs g' (publish-Scraped seen c c.collected g refl s))

  -- After whatever cycles, the errors counted are the cycles that failed. Either none has succeeded
  -- and the gauges are empty; or they show the costs of the last that has, with its time, whatever
  -- has failed since, and nothing for a workload that is not among them.
  pub collect_cycles-Scraped :
      (cycles : List (Cycle F)) → Scraped cycles (collect_cycles cycles new_gauges)
  unfolding Scraped read
  collect_cycles-Scraped cycles = collect_cycles-from [] cycles new_gauges (
    refl,
    inl (
      tt,
      record { hourly = λ k. refl; monthly = λ k. refl; cores = λ k. refl; memory = λ k. refl },
      refl,
    ),
  )
