-- ===== src/Dashboard/Drift/Awaiting.antt =====
-- runs.go: what the wait for a revert has seen when it ends well.
use cost_risk_aware_gitops_p.Prelude.{
  ◌≡◌, ◌≢◌, refl, sym, ap, subst, ◌∙◌, Bool, true, false, str_eq, eq_iff, Option, none, some,
  String, List, [], ◌∷◌, ◌++◌, All, arith,
}
use cost_risk_aware_gitops_p.Prelude.Int.{ltb_ℤ}
use cost_risk_aware_gitops_p.Results.{Error, Result, ok, err}
use cost_risk_aware_gitops_p.Dashboard.Demo.{drift_timeout, Events, Deployment}
use cost_risk_aware_gitops_p.Dashboard.Load.{Outcome, done_with}
use cost_risk_aware_gitops_p.Dashboard.Drift.{
  Look, current_limit, reverted_event, still_event, check_deadline, check_reverted, check_read,
  check_tick, await_revert,
}

-- The deployment was read, with this limit or another.
pub record Reads (x : Look) : Type 0 where
  pub dep : Deployment
  pub read : x.deployment ≡ ok dep

-- A look found what is declared; those before it, which could be read too, did not.
pub record Reverts (declared : String) (xs : List Look) (events : Events) : Type 0 where
  pub before : List Look
  pub hit : Look
  pub after : List Look
  pub split : xs ≡ before ++ hit ∷ after
  pub drifted : All (λ x. (r : Reads x) × (current_limit r.dep ≢ declared)) before
  pub seen : Reads hit
  pub restored : current_limit seen.dep ≡ declared
  pub earlier : Events
  pub told : events ≡ earlier ++ reverted_event declared hit ∷ []

module _ (declared : String) where
  Reverts-later :
      (x : Look) (xs : List Look) (events : Events) (r : Reads x)
      → current_limit r.dep ≢ declared
      → Reverts declared xs events
      → Reverts declared (x ∷ xs) events
  Reverts-later x xs events r other v = record {
    before = x ∷ v.before;
    hit = v.hit;
    after = v.after;
    split = ap (λ l. x ∷ l) v.split;
    drifted = ((r, other), v.drifted);
    seen = v.seen;
    restored = v.restored;
    earlier = v.earlier;
    told = v.told;
  }

  check_deadline-done :
      (late : Bool) (told : Events) (later : Outcome (Unit {0}) × Events)
      → (check_deadline declared late told later).0 ≡ done_with tt
      → check_deadline declared late told later ≡ later
  check_deadline-done true told later h = ground arith
  check_deadline-done false told later h = refl

  module _ (x : Look) (xs : List Look) (later : Events → Outcome (Unit {0}) × Events)
      (reverts_later : (told : Events)
        → (later told).0 ≡ done_with tt
        → Reverts declared xs (later told).1) where
    check_reverted-Reverts :
        (reverted : Bool) (r : Reads x) (events : Events)
        → str_eq (current_limit r.dep) declared ≡ reverted
        → (check_reverted declared reverted x (current_limit r.dep) events later).0 ≡ done_with tt
        → Reverts declared
            (x ∷ xs)
            (check_reverted declared reverted x (current_limit r.dep) events later).1
    check_reverted-Reverts true r events s h = record {
      before = [];
      hit = x;
      after = xs;
      split = refl;
      drifted = tt;
      seen = r;
      restored = (eq_iff (current_limit r.dep) declared).0 s;
      earlier = events;
      told = refl;
    }
    check_reverted-Reverts false r events s h =
        let told = events ++ still_event (current_limit r.dep) x ∷ [] in
        let late = ltb_ℤ drift_timeout x.at_deadline in
        let same = check_deadline-done late told (later told) h in
        let other : current_limit r.dep ≢ declared =
          λ e. let equal = (eq_iff (current_limit r.dep) declared).1 e in ground arith in
        Reverts-later x xs (check_deadline declared late told (later told)).1 r other (
          subst (λ o. Reverts declared xs o.1) (sym same)
            (reverts_later told (ap (λ o. o.0) (sym same) ∙ h)))

    check_read-Reverts :
        (read : Result Deployment) (events : Events)
        → x.deployment ≡ read
        → (check_read declared read x events later).0 ≡ done_with tt
        → Reverts declared (x ∷ xs) (check_read declared read x events later).1
    check_read-Reverts (err e) events d h = ground arith
    check_read-Reverts (ok dep) events d h =
        check_reverted-Reverts (str_eq (current_limit dep) declared)
          (record { dep = dep; read = d }) events refl h

    check_tick-Reverts :
        (canceled : Option Error) (events : Events)
        → (check_tick declared canceled x events later).0 ≡ done_with tt
        → Reverts declared (x ∷ xs) (check_tick declared canceled x events later).1
    check_tick-Reverts (some e) events h = ground arith
    check_tick-Reverts none events h = check_read-Reverts x.deployment events refl h

  pub await_revert-Reverts :
      (xs : List Look) (events : Events)
      → (await_revert declared xs events).0 ≡ done_with tt
      → Reverts declared xs (await_revert declared xs events).1
  unfolding await_revert
  await_revert-Reverts [] events h = ground arith
  await_revert-Reverts (x ∷ xs) events h =
      check_tick-Reverts x xs (λ told. await_revert declared xs told)
        (λ told. await_revert-Reverts xs told) x.canceled events h
