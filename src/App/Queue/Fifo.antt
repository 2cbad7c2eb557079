-- ===== src/App/Queue/Fifo.antt =====
-- queue.go: the queue behaves as a first-in first-out queue of payloads.
use mathlib.Core.List.{reverse, reverse-cons, reverse-append}
use cost_risk_aware_gitops_p.Prelude.{
  ◌≡◌, refl, sym, ap, subst, ◌∙◌, ◌⊎◌, inl, inr, String, List, [], ◌∷◌, ◌++◌,
}
use cost_risk_aware_gitops_p.Results.{Result, ok, err, wrap}
use cost_risk_aware_gitops_p.App.Queue.{
  key, Job, Reply, timed_out, values, broken, Redis, IsRedis, Dequeued, got, empty, failed,
  after_marshal, enqueue, dequeued, reply_value, decoded, dequeue,
}

-- The calls that producers and consumers make, and what they return.
pub data Op : Type 0 where
  push : Job → Op
  pop : Op

pub data Answer : Type 0 where
  pushed : Result (Unit {0}) → Answer
  popped : Dequeued → Answer

module _ {Store : Type 0} (r : Redis Store) where
  abbrev push_answer : Result (Unit {0}) × Store → Answer × Store
  push_answer (a, s) = (pushed a, s)

  abbrev pop_answer : Dequeued × Store → Answer × Store
  pop_answer (d, s) = (popped d, s)

  abbrev pub call : Op → Store → Answer × Store
  call (push j) s = push_answer (enqueue r j s)
  call pop s = pop_answer (dequeue r s)

  -- A sequence of calls, by whichever clients.
  abbrev pub run : List Op → Store → List Answer × Store
  run [] s = ([], s)
  run (op ∷ ops) s = let (a, s') = call op s in let (as', t) = run ops s' in (a ∷ as', t)

  -- The queue from `q` to `q'`, oldest payload first.
  abbrev pub Appends : Job → List String → List String → Type 0
  Appends j q q' = (p : String) × (r.marshal j ≡ ok p) × (q' ≡ q ++ p ∷ [])

  abbrev pub Removes : List String → List String → Type 0
  Removes q q' = (p : String) × (q ≡ p ∷ q')

  -- What a first-in first-out queue lets a call answer. An error leaves open whether the call took
  -- effect; an element that does not decode is removed.
  abbrev pub Allows : List String → Op → Answer → List String → Type 0
  Allows q (push j) (pushed (ok _)) q' = Appends j q q'
  Allows q (push j) (pushed (err e)) q' = (q' ≡ q) ⊎ Appends j q q'
  Allows q (push j) (popped d) q' = ⊥
  Allows q pop (pushed a) q' = ⊥
  Allows q pop (popped (got j)) q' = (p : String) × (q ≡ p ∷ q') × (r.unmarshal p ≡ ok j)
  Allows q pop (popped empty) q' = (q ≡ []) × (q' ≡ [])
  Allows q pop (popped (failed f)) q' = (q' ≡ q) ⊎ Removes q q'

  abbrev pub AllowsAll : List String → List Op → List Answer → List String → Type 0
  AllowsAll q [] [] q' = q' ≡ q
  AllowsAll q [] (a ∷ as') q' = ⊥
  AllowsAll q (op ∷ ops) [] q' = ⊥
  AllowsAll q (op ∷ ops) (a ∷ as') q' = (m : List String) × Allows q op a m × AllowsAll m ops as' q'

  module _ {list : Store → List String} (redis : IsRedis r list) where
    abbrev pub queue : Store → List String
    queue s = reverse (list s)

    queue-push : (p : String) (s s' : Store) → list s' ≡ p ∷ list s → queue s' ≡ queue s ++ p ∷ []
    queue-push p s s' e = ap reverse e ∙ reverse-cons p (list s)

    pub queue-pop :
        (v : String) (s s' : Store) → list s ≡ list s' ++ v ∷ [] → queue s ≡ v ∷ queue s'
    queue-pop v s s' e = ap reverse e ∙ reverse-append (list s') (v ∷ [])

    lpush_refines :
        (j : Job) (p : String) (s : Store) (a : Result (Unit {0}))
        → r.marshal j ≡ ok p
        → (r.lpush key p s).0 ≡ a
        → Allows (queue s) (push j) (pushed (wrap "enqueue" a)) (queue (r.lpush key p s).1)
    lpush_refines j p s (ok u) m e =
        (p, m, queue-push p s (r.lpush key p s).1 (redis.lpush_ok p s e))
    lpush_refines j p s (err x) m e = elim (redis.lpush_err p s x e) [
      | inl same ↦ inl (ap reverse same)
      | inr added ↦ inr (p, m, queue-push p s (r.lpush key p s).1 added)
    ]

    after_marshal_refines :
        (j : Job) (s : Store) (m : Result String)
        → r.marshal j ≡ m
        → Allows (queue s) (push j) (pushed (after_marshal r s m).0) (queue (after_marshal r s m).1)
    after_marshal_refines j s (err e) m = inl refl
    after_marshal_refines j s (ok p) m = lpush_refines j p s (r.lpush key p s).0 m refl

    decoded_refines :
        (v : String) (q q' : List String) (job : Result Job)
        → r.unmarshal v ≡ job
        → q ≡ v ∷ q'
        → Allows q pop (popped (decoded r job)) q'
    decoded_refines v q q' (ok j) u e = (v, e, u)
    decoded_refines v q q' (err x) u e = inr (v, e)

    brpop_refines :
        (s : Store) (reply : Reply)
        → (r.brpop key s).0 ≡ reply
        → Allows (queue s) pop (popped (dequeued r reply)) (queue (r.brpop key s).1)
    brpop_refines s timed_out e =
        let (none_before, none_after) = redis.brpop_timed_out s e in
        (ap reverse none_before, ap reverse none_after)
    brpop_refines s (values vs) e =
        let (v, two, last) = redis.brpop_values vs s e in
        let s' = (r.brpop key s).1 in
        subst (λ vs. Allows (queue s) pop (popped (reply_value r vs)) (queue s')) (sym two)
          (decoded_refines v (queue s) (queue s') (r.unmarshal v) refl (queue-pop v s s' last))
    brpop_refines s (broken f) e = elim (redis.brpop_broken f s e) [
      | inl same ↦ inl (ap reverse same)
      | inr (v, last) ↦ inr (v, queue-pop v s (r.brpop key s).1 last)
    ]

    pub call_refines :
        (op : Op) (s : Store) → Allows (queue s) op (call op s).0 (queue (call op s).1)
    unfolding enqueue dequeue
    call_refines (push j) s = after_marshal_refines j s (r.marshal j) refl
    call_refines pop s = brpop_refines s (r.brpop key s).0 refl

    -- Whatever calls the clients make, in whatever order, the answers of `Enqueue` and `Dequeue` are
    -- those that a first-in first-out queue of the stored payloads allows, and the payloads stored
    -- after them are those that it then holds. Redis behaves as `IsRedis` says.
    pub run_refines :
        (ops : List Op) (s : Store) → AllowsAll (queue s) ops (run ops s).0 (queue (run ops s).1)
    run_refines [] s = refl
    run_refines (op ∷ ops) s =
        let (a, s') = call op s in (queue s', call_refines op s, run_refines ops s')
