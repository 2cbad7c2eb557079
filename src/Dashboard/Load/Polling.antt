-- ===== src/Dashboard/Load/Polling.antt =====
-- runs.go: what `poll` has seen when it returns.
use cost_risk_aware_gitops_p.Prelude.{
  ◌≡◌, refl, ap, Bool, true, false, Option, none, some, String, List, [], ◌∷◌, ◌++◌, All, arith,
}
use cost_risk_aware_gitops_p.Prelude.Int.{ℤ, ◌≤ℤ◌, ltb_ℤ}
use cost_risk_aware_gitops_p.Results.{Error, Result, ok, err}
use cost_risk_aware_gitops_p.Dashboard.Demo.{Duration, Events, Deployment, Range}
use cost_risk_aware_gitops_p.Dashboard.Load.{
  assert_bounds, Reading, Outcome, done_with, is_done, poll, next_tick, check_done, check_range,
  check_deployment,
}

-- The deployment was read, and its replicas are within the range.
pub record IsWithin (range : Range) (x : Reading) : Type 0 where
  pub dep : Deployment
  pub read : x.deployment ≡ ok dep
  pub least : range.min_r ≤ℤ dep.replicas
  pub most : dep.replicas ≤ℤ range.max_r

-- A round of a poll found what it waited for, and every round up to it was within the range.
pub record Reaches (range : Range) (done : ℤ → ℤ → Bool) (xs : List Reading) : Type 0 where
  pub before : List Reading
  pub hit : Reading
  pub after : List Reading
  pub split : xs ≡ before ++ hit ∷ after
  pub within : All (IsWithin range) before
  pub hit_within : IsWithin range hit
  pub depth : ℤ
  pub depth_read : hit.depth ≡ ok depth
  pub found : done hit_within.dep.replicas depth ≡ true

assert_bounds-ok :
    (range : Range) (r : ℤ)
    → assert_bounds range r ≡ ok tt
    → (range.min_r ≤ℤ r) × (r ≤ℤ range.max_r)
unfolding assert_bounds
assert_bounds-ok range r h = (ground arith, ground arith)

module _ (range : Range) (deadline : Duration) (stage : String) (done : ℤ → ℤ → Bool) where
  next_tick-done :
      (late : Bool) (c : Option Error) (told : Events) (later : Outcome ℤ × Events) (p : ℤ)
      (es : Events)
      → next_tick range deadline stage done late c told later ≡ (done_with p, es)
      → later ≡ (done_with p, es)
  next_tick-done true c told later p es h = ground arith
  next_tick-done false (some e) told later p es h = ground arith
  next_tick-done false none told later p es h = h

  is_done-read :
      (r : ℤ) (depth : Result ℤ)
      → is_done done r depth ≡ true
      → (n : ℤ) × (depth ≡ ok n) × (done r n ≡ true)
  is_done-read r (ok n) h = (n, refl, h)
  is_done-read r (err e) h = ground arith

  Reaches-here :
      (x : Reading) (xs : List Reading) (w : IsWithin range x)
      → is_done done w.dep.replicas x.depth ≡ true
      → Reaches range done (x ∷ xs)
  Reaches-here x xs w d =
      let (n, read, found) = is_done-read w.dep.replicas x.depth d in
      record {
        before = [];
        hit = x;
        after = xs;
        split = refl;
        within = tt;
        hit_within = w;
        depth = n;
        depth_read = read;
        found = found;
      }

  Reaches-later :
      (x : Reading) (xs : List Reading)
      → IsWithin range x
      → Reaches range done xs
      → Reaches range done (x ∷ xs)
  Reaches-later x xs w r = record {
    before = x ∷ r.before;
    hit = r.hit;
    after = r.after;
    split = ap (λ l. x ∷ l) r.split;
    within = (w, r.within);
    hit_within = r.hit_within;
    depth = r.depth;
    depth_read = r.depth_read;
    found = r.found;
  }

  module _ (x : Reading) (xs : List Reading) (later : ℤ → Events → Outcome ℤ × Events)
      (reached_later : (peak : ℤ) (told : Events) (p : ℤ) (es : Events)
        → later peak told ≡ (done_with p, es)
        → Reaches range done xs) where
    check_done-Reaches :
        (finished : Bool) (w : IsWithin range x) (peak : ℤ) (told : Events) (p : ℤ) (es : Events)
        → is_done done w.dep.replicas x.depth ≡ finished
        → check_done range deadline stage done finished x peak told later ≡ (done_with p, es)
        → Reaches range done (x ∷ xs)
    check_done-Reaches true w peak told p es d h = Reaches-here x xs w d
    check_done-Reaches false w peak told p es d h = Reaches-later x xs w (
        reached_later peak told p es
          (next_tick-done (ltb_ℤ deadline x.at_deadline) x.canceled told (later peak told) p es h))

    check_range-Reaches :
        (dep : Deployment) (res : Result (Unit {0})) (peak : ℤ) (events : Events) (p : ℤ)
        (es : Events)
        → x.deployment ≡ ok dep
        → assert_bounds range dep.replicas ≡ res
        → check_range range deadline stage done res dep.replicas x peak events later
          ≡ (done_with p, es)
        → Reaches range done (x ∷ xs)
    check_range-Reaches dep (err e) peak events p es d b h = ground arith
    check_range-Reaches dep (ok u) peak events p es d b h =
        let (least, most) = assert_bounds-ok range dep.replicas b in
        check_done-Reaches (is_done done dep.replicas x.depth)
          (record { dep = dep; read = d; least = least; most = most }) _ _ p es refl h

    check_deployment-Reaches :
        (read : Result Deployment) (peak : ℤ) (events : Events) (p : ℤ) (es : Events)
        → x.deployment ≡ read
        → check_deployment range deadline stage done read x peak events later ≡ (done_with p, es)
        → Reaches range done (x ∷ xs)
    check_deployment-Reaches (err e) peak events p es d h = ground arith
    check_deployment-Reaches (ok dep) peak events p es d h =
        check_range-Reaches dep (assert_bounds range dep.replicas) peak events p es d refl h

  pub poll-Reaches :
      (xs : List Reading) (peak : ℤ) (events : Events) (p : ℤ) (es : Events)
      → poll range deadline stage done xs peak events ≡ (done_with p, es)
      → Reaches range done xs
  unfolding poll
  poll-Reaches [] peak events p es h = ground arith
  poll-Reaches (x ∷ xs) peak events p es h =
      check_deployment-Reaches x xs (λ peak told. poll range deadline stage done xs peak told)
        (λ peak told p es. poll-Reaches xs peak told p es) x.deployment peak events p es refl h
