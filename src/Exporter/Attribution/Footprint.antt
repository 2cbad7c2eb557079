-- ===== src/Exporter/Attribution/Footprint.antt =====
-- attribution.go: what the map holds for a key, by the samples that were read.
use cost_risk_aware_gitops_p.Prelude.{
  ◌≡◌, refl, sym, ap, subst, ◌∙◌, inl, inr, Bool, true, false, not, ◌&&◌, Bool-cases, if◌then◌else◌,
  Option, none, some, List, [], ◌∷◌, ◌++◌, arith,
}
use cost_risk_aware_gitops_p.Float64.{Float64, zero_f}
use cost_risk_aware_gitops_p.Exporter.Prometheus.{Sample}
use cost_risk_aware_gitops_p.Exporter.Attribution.{
  Key, key_eq, Usage, Query, Resource, cpu, memory, fresh_usage, set_figure, sample_key,
  is_unlabelled, add_sample, add_samples, bytes_per_gib,
}
use cost_risk_aware_gitops_p.Exporter.Attribution.Entries.{
  key_eq_iff, find, AreDistinct, or_fresh, find-update_self, find-update_ne, update-AreDistinct,
  set_figure-key,
}

-- A sample, and the query that it answers.
pub record Read (F : Type 0) : Type 0 where
  pub query : Query
  pub sample : Sample F

module _ {F : Type 0} ⦃fl : Float64 F⦄ where
  open fl use {div, of_int}

  abbrev pub read_key : Read F → Key
  read_key x = sample_key x.query x.sample

  -- A sample of the workload and basis `k`.
  abbrev pub is_of : Key → Read F → Bool
  is_of k x = not (is_unlabelled (read_key x)) && key_eq k (read_key x)

  -- The last value that was read of a resource, or the one from before.
  abbrev pub last_cpu : Key → F → List (Read F) → F
  last_cpu k v [] = v
  last_cpu k v (x ∷ xs) =
      last_cpu k
        (if is_of k x then (elim x.query.resource [ cpu ↦ x.sample.value | memory ↦ v ]) else v) xs

  abbrev pub last_memory : Key → F → List (Read F) → F
  last_memory k v [] = v
  last_memory k v (x ∷ xs) =
      last_memory k
        (if is_of k x
          then (elim x.query.resource [
            | cpu ↦ v
            | memory ↦ div x.sample.value (of_int bytes_per_gib)
          ])
          else v)
        xs

  -- The entry of a key: none where nothing was read of it, and else the last values of its two
  -- resources, 0 where there is none.
  abbrev pub usage_read : Key → List (Read F) → Usage F
  usage_read k xs = record (fresh_usage k) {
    cpu_cores = last_cpu k zero_f xs;
    memory_gib = last_memory k zero_f xs;
  }

  abbrev pub any_of : Key → List (Read F) → Bool
  any_of k [] = false
  any_of k (x ∷ xs) = if is_of k x then true else any_of k xs

  abbrev pub footprint : Key → List (Read F) → Option (Usage F)
  footprint k xs = if any_of k xs then some (usage_read k xs) else none

  -- The loops over the samples, at once.
  abbrev pub add_reads : List (Usage F) → List (Read F) → List (Usage F)
  add_reads usage [] = usage
  add_reads usage (x ∷ xs) = add_reads (add_sample x.query usage x.sample) xs

  abbrev pub read_each : Query → List (Sample F) → List (Read F)
  read_each q [] = []
  read_each q (s ∷ ss) = record { query = q; sample = s } ∷ read_each q ss

  pub add_samples-read :
      (q : Query) (usage : List (Usage F)) (ss : List (Sample F)) (xs : List (Read F))
      → add_reads usage (read_each q ss ++ xs) ≡ add_reads (add_samples q usage ss) xs
  unfolding add_samples
  add_samples-read q usage [] xs = refl
  add_samples-read q usage (s ∷ ss) xs = add_samples-read q (add_sample q usage s) ss xs

  add_sample-AreDistinct :
      (x : Read F) (usage : List (Usage F))
      → AreDistinct usage
      → AreDistinct (add_sample x.query usage x.sample)
  unfolding add_sample
  add_sample-AreDistinct x usage d = elim (Bool-cases (is_unlabelled (read_key x))) [
    | inl u ↦ rw u d
    | inr l ↦ rw l (
        update-AreDistinct (read_key x) (set_figure x.query.resource x.sample.value)
          (set_figure-key x.query.resource x.sample.value) usage d)
  ]

  pub add_reads-AreDistinct :
      (usage : List (Usage F)) (xs : List (Read F))
      → AreDistinct usage
      → AreDistinct (add_reads usage xs)
  add_reads-AreDistinct usage [] d = d
  add_reads-AreDistinct usage (x ∷ xs) d =
      add_reads-AreDistinct (add_sample x.query usage x.sample) xs
        (add_sample-AreDistinct x usage d)

  -- One sample, at the entry of `k`.
  abbrev step_entry : Key → Option (Usage F) → Read F → Option (Usage F)
  step_entry k o x =
      if is_of k x then some (set_figure x.query.resource x.sample.value (or_fresh k o)) else o

  find-add_sample_self :
      (x : Read F) (usage : List (Usage F))
      → find (read_key x) (add_sample x.query usage x.sample)
        ≡ step_entry (read_key x) (find (read_key x) usage) x
  unfolding add_sample
  find-add_sample_self x usage =
      let k = read_key x in
      let same = (key_eq_iff k k).1 refl in
      let updated =
        find-update_self k (set_figure x.query.resource x.sample.value)
          (set_figure-key x.query.resource x.sample.value) usage in
      ground (arith, same, updated)

  find-add_sample :
      (k : Key) (x : Read F) (usage : List (Usage F))
      → find k (add_sample x.query usage x.sample) ≡ step_entry k (find k usage) x
  unfolding add_sample
  find-add_sample k x usage = elim (Bool-cases (key_eq k (read_key x))) [
    | inl e ↦
        subst (λ j. find j (add_sample x.query usage x.sample) ≡ step_entry j (find j usage) x)
          (sym ((key_eq_iff k (read_key x)).0 e)) (find-add_sample_self x usage)
    | inr n ↦
        let other =
          find-update_ne (read_key x) (set_figure x.query.resource x.sample.value)
            (set_figure-key x.query.resource x.sample.value) k usage n in
        ground (arith, n, other)
  ]

  abbrev step_entries : Key → Option (Usage F) → List (Read F) → Option (Usage F)
  step_entries k o [] = o
  step_entries k o (x ∷ xs) = step_entries k (step_entry k o x) xs

  find-add_reads :
      (k : Key) (usage : List (Usage F)) (xs : List (Read F))
      → find k (add_reads usage xs) ≡ step_entries k (find k usage) xs
  find-add_reads k usage [] = refl
  find-add_reads k usage (x ∷ xs) =
      find-add_reads k (add_sample x.query usage x.sample) xs
      ∙ ap (λ o. step_entries k o xs) (find-add_sample k x usage)

  abbrev with_last : Key → Usage F → List (Read F) → Usage F
  with_last k u xs = record u {
    cpu_cores = last_cpu k u.cpu_cores xs;
    memory_gib = last_memory k u.memory_gib xs;
  }

  set_figure_lem :
      (r : Resource) (v : F) (u : Usage F)
      → set_figure r v u ≡ record u {
        cpu_cores = elim r [ cpu ↦ v | memory ↦ u.cpu_cores ];
        memory_gib = elim r [ cpu ↦ u.memory_gib | memory ↦ div v (of_int bytes_per_gib) ];
      }
  unfolding set_figure
  set_figure_lem cpu v u = refl
  set_figure_lem memory v u = refl

  step_entries-some :
      (k : Key) (xs : List (Read F)) (u : Usage F)
      → step_entries k (some u) xs ≡ some (with_last k u xs)
  step_entries-some k [] u = refl
  step_entries-some k (x ∷ xs) u = elim (Bool-cases (is_of k x)) [
    | inl e ↦ rw (e, set_figure_lem x.query.resource x.sample.value u) (step_entries-some k xs _)
    | inr n ↦ rw n (step_entries-some k xs u)
  ]

  step_entries-none : (k : Key) (xs : List (Read F)) → step_entries k none xs ≡ footprint k xs
  step_entries-none k [] = refl
  step_entries-none k (x ∷ xs) = elim (Bool-cases (is_of k x)) [
    | inl e ↦
        rw (e, set_figure_lem x.query.resource x.sample.value (fresh_usage k))
          (step_entries-some k xs _)
    | inr n ↦ rw n (step_entries-none k xs)
  ]

  -- The map, after the samples that were read.
  pub find-reads : (k : Key) (xs : List (Read F)) → find k (add_reads [] xs) ≡ footprint k xs
  unfolding find
  find-reads k xs = find-add_reads k [] xs ∙ step_entries-none k xs
