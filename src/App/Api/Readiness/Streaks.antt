-- ===== src/App/Api/Readiness/Streaks.antt =====
-- api/main.go: when the API is ready.
use mathlib.Core.List.{append-nil, append_assoc}
use cost_risk_aware_gitops_p.Prelude.{
  ◌≡◌, refl, sym, ap, subst, ◌∙◌, ◌↔◌, ◌⊎◌, inl, inr, ◌+◌, ◌<◌, true, false, leb, List, [], ◌∷◌,
  ◌++◌, length, length-append, All, All-append, arith,
}
use cost_risk_aware_gitops_p.Prelude.Int.{ℤ}
use cost_risk_aware_gitops_p.Results.{Result, ok, err}
use cost_risk_aware_gitops_p.App.Api.Readiness.{
  Server, new_server, publish, publish_queue_depth, handle_ready,
}

abbrev pub IsFailure : Result ℤ → Type 0
IsFailure (ok n) = ⊥
IsFailure (err e) = Unit

-- The last answer of the queue, and the failures since.
pub record HasLast (probes : List (Result ℤ)) : Type 0 where
  pub before : List (Result ℤ)
  pub depth : ℤ
  pub failures : List (Result ℤ)
  pub split : probes ≡ before ++ ok depth ∷ failures
  pub fail : All IsFailure failures

-- Two failures at most since the last answer.
abbrev pub IsFresh : List (Result ℤ) → Type 0
IsFresh probes = (l : HasLast probes) × (length l.failures < 3)

publish-append :
    (xs ys : List (Result ℤ)) (srv : Server)
    → publish_queue_depth (xs ++ ys) srv ≡ publish_queue_depth ys (publish_queue_depth xs srv)
unfolding publish_queue_depth
publish-append [] ys srv = refl
publish-append (x ∷ xs) ys srv = publish-append xs ys (publish x srv)

-- Over failures alone.
publish-failures :
    (failures : List (Result ℤ)) (srv : Server)
    → All IsFailure failures
    → srv.ready ≡ leb srv.consecutive_failures 2
    → (publish_queue_depth failures srv).ready ≡ leb (srv.consecutive_failures + length failures) 2
unfolding publish_queue_depth publish
publish-failures [] srv f r = r ∙ ap (λ n. leb n 2) (omega arith)
publish-failures (ok n ∷ failures) srv f r = elim f.0 [ ]
publish-failures (err e ∷ failures) srv (_, f) r =
    publish-failures failures (publish (err e) srv) f (ground arith)
    ∙ ap (λ n. leb n 2) (omega arith)

-- What the loop knows after `seen`: the queue has not answered, or the server holds its last answer.
Knows : List (Result ℤ) → Server → Type 0
Knows seen srv =
    (All IsFailure seen × (srv.ready ≡ false))
    ⊎ ((l : HasLast seen) × (srv.consecutive_failures ≡ length l.failures)
        × (srv.ready ≡ leb (length l.failures) 2)
        × (srv.queue_depth ≡ l.depth))

publish-Knows :
    (seen : List (Result ℤ)) (probe : Result ℤ) (srv : Server)
    → Knows seen srv
    → Knows (seen ++ probe ∷ []) (publish probe srv)
unfolding Knows publish
publish-Knows seen (ok n) srv k =
    inr (
      record { before = seen; depth = n; failures = []; split = refl; fail = tt },
      refl,
      refl,
      refl,
    )
publish-Knows seen (err e) srv (inl (f, r)) =
    inl (All-append IsFailure seen (err e ∷ []) f (tt, tt), ground arith)
publish-Knows seen (err e) srv (inr (l, c, r, d)) =
    let longer = length-append l.failures (err e ∷ []) in
    inr (
      record {
        before = l.before;
        depth = l.depth;
        failures = l.failures ++ err e ∷ [];
        split =
            ap (λ s. s ++ err e ∷ []) l.split
            ∙ append_assoc l.before (ok l.depth ∷ l.failures) (err e ∷ []);
        fail = All-append IsFailure l.failures (err e ∷ []) l.fail (tt, tt);
      },
      omega (arith, longer, c),
      ground (arith, longer, c, r),
      d,
    )

publish_queue_depth-Knows :
    (seen probes : List (Result ℤ)) (srv : Server)
    → Knows seen srv
    → Knows (seen ++ probes) (publish_queue_depth probes srv)
unfolding publish_queue_depth
publish_queue_depth-Knows seen [] srv k = subst (λ s. Knows s srv) (sym (append-nil seen)) k
publish_queue_depth-Knows seen (p ∷ probes) srv k =
    subst (λ s. Knows s (publish_queue_depth probes (publish p srv)))
      (append_assoc seen (p ∷ []) probes)
      (publish_queue_depth-Knows (seen ++ p ∷ []) probes (publish p srv)
        (publish-Knows seen p srv k))

after : List (Result ℤ) → Server
after probes = publish_queue_depth probes new_server

after-Knows : (probes : List (Result ℤ)) → Knows probes (after probes)
unfolding after Knows
after-Knows probes = publish_queue_depth-Knows [] probes new_server (inl (tt, refl))

after-IsFresh : (probes : List (Result ℤ)) → (after probes).ready ≡ true → IsFresh probes
unfolding Knows
after-IsFresh probes r = elim (after-Knows probes) [
  | inl (f, n) ↦ ground arith
  | inr (l, c, w, d) ↦ (l, ground arith)
]

IsFresh-ready : (probes : List (Result ℤ)) → IsFresh probes → (after probes).ready ≡ true
unfolding after publish_queue_depth publish
IsFresh-ready probes (l, few) =
    let answered = publish (ok l.depth) (publish_queue_depth l.before new_server) in
    ap (λ p. (after p).ready) l.split
    ∙ ap (λ s. s.ready) (publish-append l.before (ok l.depth ∷ l.failures) new_server)
    ∙ publish-failures l.failures answered l.fail refl
    ∙ ground arith

-- After whatever probes, the readiness probe answers 200 exactly when the queue has answered one and
-- at most two have failed since.
pub handle_ready_iff :
    (probes : List (Result ℤ))
    → ((handle_ready (publish_queue_depth probes new_server)).0 ≡ 200) ↔ IsFresh probes
unfolding handle_ready after
handle_ready_iff probes =
    (λ h. after-IsFresh probes (ground arith), λ f. let r = IsFresh-ready probes f in ground arith)
