-- ===== src/Gate/Rates/Same.antt =====
-- Where `ratesChanged` says no, the two tables price every set of objects alike.
use cost_risk_aware_gitops_p.Prelude.{
  ◌≡◌, ap, ◌∙◌, sym, Bool, true, false, not, ◌&&◌, ◌||◌, str_eq, eq_iff, bool_eq, List, arith,
}
use cost_risk_aware_gitops_p.Prelude.Int.{ℤ}
use cost_risk_aware_gitops_p.Float64.{Float64, IsIeee}
use cost_risk_aware_gitops_p.Pricing.{Rate, Rates, MissingRequests, Table}
use cost_risk_aware_gitops_p.Pricing.Figures.{retitled_eq, title_of}
use cost_risk_aware_gitops_p.Cost.Quantity.{Quantities}
use cost_risk_aware_gitops_p.Cost.Autoscaling.{Object, Autoscalers}
use cost_risk_aware_gitops_p.Cost.Kinds.{Calculator}
use cost_risk_aware_gitops_p.Cost.Estimating.{estimate}
use cost_risk_aware_gitops_p.Cost.Estimating.Figures.{estimate-with_title}
use cost_risk_aware_gitops_p.Gate.Rates.{missing_eq, rate_eq, rates_eq, rates_changed}

both : (a b : Bool) → (a && b) ≡ true → (a ≡ true) × (b ≡ true)
both a b h = (ground arith, ground arith)

eq_of_bool_eq : (a b : Bool) → bool_eq a b ≡ true → a ≡ b
eq_of_bool_eq true b h = sym h
eq_of_bool_eq false b h = ground arith

eq_of_missing_eq : (a b : MissingRequests) → missing_eq a b ≡ true → a ≡ b
eq_of_missing_eq a b h =
    let (cpu, rest) = both (str_eq a.cpu b.cpu) _ h in
    let (memory, flag) = both (str_eq a.memory b.memory) _ rest in
    let p = (eq_iff a.cpu b.cpu).0 cpu in
    let q = (eq_iff a.memory b.memory).0 memory in
    let r = eq_of_bool_eq a.flag b.flag flag in λ i. record { cpu = p i; memory = q i; flag = r i }

module _ {F : Type 0} ⦃fl : Float64 F⦄ (laws : IsIeee F) where
  open fl use {eq}
  open laws use {eq_of_eq}

  eq_of_rate_eq : (a b : Rate F) → rate_eq a b ≡ true → a ≡ b
  eq_of_rate_eq a b h =
      let (unit, rest) = both (str_eq a.unit b.unit) _ h in
      let (price, flag) = both (eq a.price b.price) _ rest in
      let p = (eq_iff a.unit b.unit).0 unit in
      let q = eq_of_eq a.price b.price price in
      let r = eq_of_bool_eq a.flag b.flag flag in
      λ i. record { unit = p i; price = q i; flag = r i }

  eq_of_rates_eq : (a b : Rates F) → rates_eq a b ≡ true → a ≡ b
  eq_of_rates_eq a b h =
      let (cpu, rest) = both (rate_eq a.cpu b.cpu) _ h in
      let (memory, storage) = both (rate_eq a.memory b.memory) _ rest in
      let p = eq_of_rate_eq a.cpu b.cpu cpu in
      let q = eq_of_rate_eq a.memory b.memory memory in
      let r = eq_of_rate_eq a.storage b.storage storage in
      λ i. record { cpu = p i; memory = q i; storage = r i }

  unchanged_parts :
      (base head : Table F)
      → rates_changed base head ≡ false
      → (rates_eq base.spec.rates head.spec.rates ≡ true)
        × (eq base.spec.hours_per_month head.spec.hours_per_month ≡ true)
        × (missing_eq base.spec.missing_requests head.spec.missing_requests ≡ true)
  unfolding rates_changed
  unchanged_parts base head h =
      none_of (rates_eq base.spec.rates head.spec.rates)
        (eq base.spec.hours_per_month head.spec.hours_per_month)
        (missing_eq base.spec.missing_requests head.spec.missing_requests)
        (str_eq base.spec.currency head.spec.currency) h
    where
      none_of :
          (a b c d : Bool)
          → (not a || not b || not c || not d) ≡ false
          → (a ≡ true) × (b ≡ true) × (c ≡ true)
      none_of a b c d h = (ground arith, ground arith, ground arith)

  -- Where `ratesChanged` finds no change between two tables, every set of objects has the same
  -- estimate, or the same error, under both: no field that it skips affects a figure.
  pub rates_unchanged_estimate :
      ⦃qs : Quantities⦄
      → (base head : Table F) → rates_changed base head ≡ false
      → (nodes : ℤ) (known : Autoscalers) (objects : List (Object F))
      → estimate (record { table = base; assumed_node_count = nodes; autoscalers = known }) objects
        ≡ estimate
            (record { table = head; assumed_node_count = nodes; autoscalers = known })
            objects
  rates_unchanged_estimate base head h nodes known objects =
      let (rates, hours, missing) = unchanged_parts base head h in
      let same =
        retitled_eq base head (eq_of_rates_eq _ _ rates) (eq_of_eq _ _ hours)
          (eq_of_missing_eq _ _ missing) in
      let on : Table F → Calculator F =
        λ t. record { table = t; assumed_node_count = nodes; autoscalers = known } in
      sym (estimate-with_title (on base) (title_of head) objects)
      ∙ ap (λ t. estimate (on t) objects) same
