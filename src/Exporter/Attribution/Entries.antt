-- ===== src/Exporter/Attribution/Entries.antt =====
-- attribution.go: the map of usages has one entry for a key, and an update reaches no other.
use cost_risk_aware_gitops_p.Prelude.{
  ◌≡◌, refl, sym, ap, ◌∙◌, ◌↔◌, inl, inr, ℕ, ◌+◌, Bool, true, false, Bool-cases, if◌then◌else◌,
  eq_iff, Option, none, some, List, [], ◌∷◌, arith,
}
use cost_risk_aware_gitops_p.Float64.{Float64}
use cost_risk_aware_gitops_p.Exporter.Attribution.{
  Basis, requested, actual, basis_eq, Key, key_eq, Usage, Resource, cpu, memory, key_of,
  fresh_usage, set_figure, update,
}

basis_eq_iff : (a b : Basis) → (basis_eq a b ≡ true) ↔ (a ≡ b)
basis_eq_iff requested requested = (λ _. refl, λ _. refl)
basis_eq_iff requested actual = (λ h. cc, λ h. cc)
basis_eq_iff actual requested = (λ h. cc, λ h. cc)
basis_eq_iff actual actual = (λ _. refl, λ _. refl)

pub key_eq_iff : (a b : Key) → (key_eq a b ≡ true) ↔ (a ≡ b)
unfolding key_eq
key_eq_iff a b =
    let n = eq_iff a.namespace b.namespace in
    let w = eq_iff a.workload b.workload in
    let t = basis_eq_iff a.basis b.basis in (λ h. ground arith, λ h. ground arith)

pub key_eq_sym : (a b : Key) (c : Bool) → key_eq a b ≡ c → key_eq b a ≡ c
key_eq_sym a b true e = (key_eq_iff b a).1 (sym ((key_eq_iff a b).0 e))
key_eq_sym a b false e = elim (Bool-cases (key_eq b a)) [
  | inl h ↦ let back = (key_eq_iff a b).1 (sym ((key_eq_iff b a).0 h)) in ground arith
  | inr h ↦ h
]

module _ {F : Type 0} where
  -- `usage[k]`
  unfoldable pub find : Key → List (Usage F) → Option (Usage F)
  find k [] = none
  find k (u ∷ us) = if key_eq k (key_of u) then some u else find k us

  abbrev pub count : Key → List (Usage F) → ℕ
  count k [] = 0
  count k (u ∷ us) = (if key_eq k (key_of u) then 1 else 0) + count k us

  abbrev pub AreDistinct : List (Usage F) → Type 0
  AreDistinct [] = Unit
  AreDistinct (u ∷ us) = (find (key_of u) us ≡ none) × AreDistinct us

  abbrev pub one_if_some : Option (Usage F) → ℕ
  one_if_some none = 0
  one_if_some (some u) = 1

  pub count-find :
      (k : Key) (us : List (Usage F)) → AreDistinct us → count k us ≡ one_if_some (find k us)
  unfolding find
  count-find k [] d = refl
  count-find k (u ∷ us) (n, d) = elim (Bool-cases (key_eq k (key_of u))) [
    | inl e ↦
        let same = (key_eq_iff k (key_of u)).0 e in
        let others = ap (λ k. find k us) same ∙ n in ground (arith, e, others, count-find k us d)
    | inr e ↦ ground (arith, e, count-find k us d)
  ]

module _ {F : Type 0} ⦃fl : Float64 F⦄ where
  abbrev pub or_fresh : Key → Option (Usage F) → Usage F
  or_fresh k none = fresh_usage k
  or_fresh k (some u) = u

  module _ (k : Key) (f : Usage F → Usage F) (keeps : (u : Usage F) → key_of (f u) ≡ key_of u) where
    pub find-update_self :
        (us : List (Usage F)) → find k (update k f us) ≡ some (f (or_fresh k (find k us)))
    unfolding find update
    find-update_self [] =
        let e = (key_eq_iff k (key_of (f (fresh_usage k)))).1 (sym (keeps (fresh_usage k))) in
        ground arith
    find-update_self (u ∷ us) = elim (Bool-cases (key_eq k (key_of u))) [
      | inl e ↦ let kept = ap (key_eq k) (keeps u) in ground (arith, e, kept)
      | inr e ↦ ground (arith, e, find-update_self us)
    ]

    pub find-update_ne :
        (j : Key) (us : List (Usage F)) → key_eq j k ≡ false → find j (update k f us) ≡ find j us
    unfolding find update
    find-update_ne j [] n = let kept = ap (key_eq j) (keeps (fresh_usage k)) in ground arith
    find-update_ne j (u ∷ us) n = elim (Bool-cases (key_eq k (key_of u))) [
      | inl e ↦
          let kept = ap (key_eq j) (keeps u) in
          let same = ap (key_eq j) ((key_eq_iff k (key_of u)).0 e) in ground (arith, e, kept, same)
      | inr e ↦ ground (arith, e, find-update_ne j us n)
    ]

    pub update-AreDistinct : (us : List (Usage F)) → AreDistinct us → AreDistinct (update k f us)
    unfolding find update
    update-AreDistinct [] d = (refl, tt)
    update-AreDistinct (u ∷ us) (n, d) = elim (Bool-cases (key_eq k (key_of u))) [
      | inl e ↦ let kept = ap (λ k. find k us) (keeps u) in ground (arith, e, kept)
      | inr e ↦ rw e (
        find-update_ne (key_of u) us (key_eq_sym k (key_of u) false e) ∙ n,
        update-AreDistinct us d,
      )
    ]

  pub set_figure-key : (r : Resource) (v : F) (u : Usage F) → key_of (set_figure r v u) ≡ key_of u
  unfolding set_figure
  set_figure-key cpu v u = refl
  set_figure-key memory v u = refl
