-- ===== src/Exporter/Attribution/Costs.antt =====
-- attribution.go: the costs that `Collect` returns.
use cost_risk_aware_gitops_p.Prelude.{
  ◌≡◌, refl, sym, ap, ◌∙◌, inl, inr, ℕ, ◌+◌, Bool-cases, if◌then◌else◌, none, some, List, [], ◌∷◌,
  map, All, All-sort, sort, insert_sorted, IsSorted, sort-IsSorted, IsWeakOrder,
  text_less-IsWeakOrder, text_then-IsWeakOrder, arith,
}
use cost_risk_aware_gitops_p.Float64.{Float64, zero_f}
use cost_risk_aware_gitops_p.Pricing.{Table, hourly_usd}
use cost_risk_aware_gitops_p.Exporter.Attribution.{
  basis_text, Key, key_eq, key_less, Usage, Cost, key_of, cost_of, cost_less,
}
use cost_risk_aware_gitops_p.Exporter.Attribution.Entries.{
  key_eq_iff, find, count, AreDistinct, one_if_some, count-find,
}
use cost_risk_aware_gitops_p.Exporter.Attribution.Footprint.{
  Read, footprint, any_of, usage_read, add_reads, add_reads-AreDistinct, find-reads,
}

key_less-IsWeakOrder : IsWeakOrder key_less
unfolding key_less
key_less-IsWeakOrder =
    text_then-IsWeakOrder (λ k. k.namespace) _
      (text_then-IsWeakOrder (λ k. k.workload) _ (text_less-IsWeakOrder (λ k. basis_text k.basis)))

module _ {F : Type 0} ⦃fl : Float64 F⦄ where
  open fl use {mul}

  -- How many costs there are of a key.
  abbrev pub count_costs : Key → List (Cost F) → ℕ
  count_costs k [] = 0
  count_costs k (c ∷ cs) = (if key_eq k (key_of c.usage) then 1 else 0) + count_costs k cs

  count_costs-insert :
      (k : Key) (c : Cost F) (cs : List (Cost F))
      → count_costs k (insert_sorted cost_less c cs) ≡ count_costs k (c ∷ cs)
  unfolding insert_sorted
  count_costs-insert k c [] = refl
  count_costs-insert k c (d ∷ cs) = elim (Bool-cases (cost_less d c)) [
    | inl l ↦ rw l (omega (arith, count_costs-insert k c cs))
    | inr n ↦ rw n refl
  ]

  count_costs-sort :
      (k : Key) (cs : List (Cost F)) → count_costs k (sort cost_less cs) ≡ count_costs k cs
  unfolding sort
  count_costs-sort k [] = refl
  count_costs-sort k (c ∷ cs) =
      count_costs-insert k c (sort cost_less cs)
      ∙ ap (λ n. (if key_eq k (key_of c.usage) then 1 else 0) + n) (count_costs-sort k cs)

  module _ (table : Table F) where
    count_costs-map :
        (k : Key) (us : List (Usage F)) → count_costs k (map (cost_of table) us) ≡ count k us
    unfolding cost_of
    count_costs-map k [] = refl
    count_costs-map k (u ∷ us) =
        ap (λ n. (if key_eq k (key_of u) then 1 else 0) + n) (count_costs-map k us)

    -- A cost is priced from its own usage, which is what was read for its key.
    pub record IsPriced (xs : List (Read F)) (c : Cost F) : Type 0 where
      pub read : c.usage ≡ usage_read (key_of c.usage) xs
      pub hourly : c.hourly_usd ≡ hourly_usd table c.usage.cpu_cores c.usage.memory_gib zero_f
      pub monthly : c.monthly_usd ≡ mul c.hourly_usd table.spec.hours_per_month

    footprint-some :
        (k : Key) (xs : List (Read F)) (u : Usage F) → footprint k xs ≡ some u → u ≡ usage_read k xs
    footprint-some k xs u h = elim (Bool-cases (any_of k xs)) [
      | inl e ↦ ground arith
      | inr n ↦ ground arith
    ]

    cost_of-IsPriced :
        (xs : List (Read F)) (u : Usage F)
        → footprint (key_of u) xs ≡ some u
        → IsPriced xs (cost_of table u)
    unfolding cost_of
    cost_of-IsPriced xs u h = record {
      read = footprint-some (key_of u) xs u h;
      hourly = refl;
      monthly = refl;
    }

    -- Each entry is found by its key.
    found-cons :
        (u : Usage F) (us vs : List (Usage F))
        → find (key_of u) us ≡ none
        → All (λ v. find (key_of v) us ≡ some v) vs
        → All (λ v. find (key_of v) (u ∷ us) ≡ some v) vs
    unfolding find
    found-cons u us [] n f = tt
    found-cons u us (v ∷ vs) n (h, f) = (
      elim (Bool-cases (key_eq (key_of v) (key_of u))) [
        | inl e ↦
            let same = ap (λ k. find k us) ((key_eq_iff (key_of v) (key_of u)).0 e) in
            ground (arith, same)
        | inr e ↦ rw e h
      ],
      found-cons u us vs n f,
    )

    entries-found :
        (us : List (Usage F)) → AreDistinct us → All (λ u. find (key_of u) us ≡ some u) us
    unfolding find
    entries-found [] d = tt
    entries-found (u ∷ us) (n, d) =
        let same = (key_eq_iff (key_of u) (key_of u)).1 refl in
        (rw same refl, found-cons u us us n (entries-found us d))

    All-IsPriced :
        (xs : List (Read F)) (us : List (Usage F))
        → All (λ u. footprint (key_of u) xs ≡ some u) us
        → All (IsPriced xs) (map (cost_of table) us)
    All-IsPriced xs [] h = tt
    All-IsPriced xs (u ∷ us) (h, hs) = (cost_of-IsPriced xs u h, All-IsPriced xs us hs)

    -- What the costs say of the samples: they are in order, each is what its key's samples give, and
    -- each key has one cost if a sample is of it, and else none.
    pub record AreAttributed (xs : List (Read F)) (cs : List (Cost F)) : Type 0 where
      pub ordered : IsSorted cost_less cs
      pub priced : All (IsPriced xs) cs
      pub once : (k : Key) → count_costs k cs ≡ (if any_of k xs then 1 else 0)

    found-by_footprint :
        (xs : List (Read F)) (us vs : List (Usage F))
        → ((k : Key) → find k us ≡ footprint k xs)
        → All (λ u. find (key_of u) us ≡ some u) vs
        → All (λ u. footprint (key_of u) xs ≡ some u) vs
    found-by_footprint xs us [] h f = tt
    found-by_footprint xs us (v ∷ vs) h (e, f) =
        (sym (h (key_of v)) ∙ e, found-by_footprint xs us vs h f)

    one_if_footprint :
        (k : Key) (xs : List (Read F))
        → one_if_some (footprint k xs) ≡ (if any_of k xs then 1 else 0)
    one_if_footprint k xs = ground arith

    cost_less-IsWeakOrder : IsWeakOrder {A = Cost F} cost_less
    cost_less-IsWeakOrder = record {
      asymm = λ a b. key_less-IsWeakOrder.asymm (key_of a.usage) (key_of b.usage);
      neg_trans = λ a b c.
          key_less-IsWeakOrder.neg_trans (key_of a.usage) (key_of b.usage) (key_of c.usage);
    }

    pub costs-AreAttributed :
        (xs : List (Read F))
        → AreAttributed xs (sort cost_less (map (cost_of table) (add_reads [] xs)))
    costs-AreAttributed xs =
        let us = add_reads [] xs in
        let distinct = add_reads-AreDistinct [] xs tt in
        record {
          ordered = sort-IsSorted cost_less cost_less-IsWeakOrder (map (cost_of table) us);
          priced = All-sort cost_less (IsPriced xs) (map (cost_of table) us) (
              All-IsPriced xs us
                (found-by_footprint xs us us (λ k. find-reads k xs) (entries-found us distinct)));
          once = λ k.
              count_costs-sort k (map (cost_of table) us)
              ∙ count_costs-map k us
              ∙ count-find k us distinct
              ∙ ap one_if_some (find-reads k xs)
              ∙ one_if_footprint k xs;
        }
