-- ===== src/Exporter/Attribution/Outcome.antt =====
-- attribution.go: `Collect` returns the costs of the samples, or the error of a query.
use cost_risk_aware_gitops_p.Prelude.{
  ◌≡◌, refl, sym, ap, ◌∙◌, ◌⊎◌, inl, inr, String, List, [], ◌∷◌, ◌++◌, map, sort,
}
use cost_risk_aware_gitops_p.Float64.{Float64}
use cost_risk_aware_gitops_p.Results.{Error, Result, ok, err, wrap, Result-cases, ◌>>=◌}
use cost_risk_aware_gitops_p.Pricing.{Table}
use cost_risk_aware_gitops_p.Exporter.Prometheus.{Sample}
use cost_risk_aware_gitops_p.Exporter.Attribution.{
  asking, Usage, Cost, Query, add_samples, collect_usage, cost_of, cost_less, collect,
}
use cost_risk_aware_gitops_p.Exporter.Attribution.Costs.{AreAttributed, costs-AreAttributed}
use cost_risk_aware_gitops_p.Exporter.Attribution.Footprint.{
  Read, read_each, add_reads, add_samples-read,
}

module _ {F : Type 0} ⦃fl : Float64 F⦄ (table : Table F)
    (prom : (text : String) → Result (List (Sample F))) where
  -- Every query is answered, and the samples are these, in their order.
  abbrev pub Answered : List Query → List (Read F) → Type 0
  Answered [] xs = xs ≡ []
  Answered (q ∷ qs) xs =
      (ss : List (Sample F)) × (rest : List (Read F)) × (prom q.text ≡ ok ss)
      × (xs ≡ read_each q ss ++ rest)
      × Answered qs rest

  -- A query fails.
  pub record Fails (order : List Query) : Type 0 where
    pub before : List Query
    pub query : Query
    pub after : List Query
    pub failure : Error
    pub split : order ≡ before ++ query ∷ after
    pub failed : prom query.text ≡ err failure

  -- Either every query is answered, and the map has been filled from the samples; or one fails.
  IsFilled : (order : List Query) (usage : List (Usage F)) → Result (List (Usage F)) → Type 0
  IsFilled order usage res =
      ((xs : List (Read F)) × Answered order xs × (res ≡ ok (add_reads usage xs)))
      ⊎ (Fails order × ((e : Error) × (res ≡ err e)))

  collect_usage-nil : (usage : List (Usage F)) → collect_usage prom [] usage ≡ ok usage
  unfolding collect_usage
  collect_usage-nil usage = refl

  Fails-cons : (q : Query) (qs : List Query) → Fails qs → Fails (q ∷ qs)
  Fails-cons q qs f = record {
    before = q ∷ f.before;
    query = f.query;
    after = f.after;
    failure = f.failure;
    split = ap (λ l. q ∷ l) f.split;
    failed = f.failed;
  }

  collect_usage-ok :
      (q : Query) (qs : List Query) (usage : List (Usage F)) (ss : List (Sample F))
      → prom q.text ≡ ok ss
      → collect_usage prom (q ∷ qs) usage ≡ collect_usage prom qs (add_samples q usage ss)
  unfolding collect_usage
  collect_usage-ok q qs usage ss e =
      ap (λ r. wrap (asking q) r >>= λ ss. collect_usage prom qs (add_samples q usage ss)) e

  collect_usage-err :
      (q : Query) (qs : List Query) (usage : List (Usage F)) (x : Error)
      → prom q.text ≡ err x
      → (e : Error) × (collect_usage prom (q ∷ qs) usage ≡ err e)
  unfolding collect_usage
  collect_usage-err q qs usage x e =
      (_, ap (λ r. wrap (asking q) r >>= λ ss. collect_usage prom qs (add_samples q usage ss)) e)

  collect_usage-IsFilled :
      (order : List Query) (usage : List (Usage F))
      → IsFilled order usage (collect_usage prom order usage)
  unfolding IsFilled
  collect_usage-IsFilled [] usage = inl ([], refl, collect_usage-nil usage)
  collect_usage-IsFilled (q ∷ qs) usage = elim (Result-cases (prom q.text)) [
    | inl (ss, e) ↦
        let step = collect_usage-ok q qs usage ss e in
        elim (collect_usage-IsFilled qs (add_samples q usage ss)) [
          | inl (xs, a, r) ↦ inl (
            read_each q ss ++ xs,
            (ss, xs, e, refl, a),
            step ∙ r ∙ ap ok (sym (add_samples-read q usage ss xs)),
          )
          | inr (f, (x, r)) ↦ inr (Fails-cons q qs f, (x, step ∙ r))
        ]
    | inr (x, e) ↦ inr (
      record { before = []; query = q; after = qs; failure = x; split = refl; failed = e },
      collect_usage-err q qs usage x e,
    )
  ]

  -- Whatever the order in which the queries are made: either every one is answered, and `Collect`
  -- returns costs that are in order, one for each workload and basis that a sample is of and none
  -- for any other, each priced from the last value that was read of its CPU and of its memory, 0
  -- where none was; or a query fails, and `Collect` returns an error.
  pub collect_lem :
      (order : List Query)
      → ((xs : List (Read F)) × Answered order xs
          × ((cs : List (Cost F)) × (collect prom table order ≡ ok cs) × AreAttributed table xs cs))
        ⊎ (Fails order × ((e : Error) × (collect prom table order ≡ err e)))
  unfolding collect IsFilled
  collect_lem order = elim (collect_usage-IsFilled order []) [
    | inl (xs, a, r) ↦ inl (
      xs,
      a,
      (
        sort cost_less (map (cost_of table) (add_reads [] xs)),
        ap (λ r. r >>= λ usage. ok (sort cost_less (map (cost_of table) usage))) r,
        costs-AreAttributed table xs,
      ),
    )
    | inr (f, (x, r)) ↦
        inr (f, (x, ap (λ r. r >>= λ usage. ok (sort cost_less (map (cost_of table) usage))) r))
  ]
