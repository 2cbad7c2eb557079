-- ===== src/App/Queue/Delivery.antt =====
-- queue.go: every job is received once, in the order of the pushes.
use mathlib.Core.List.{append-nil, append_assoc}
use cost_risk_aware_gitops_p.Prelude.{
  ◌≡◌, refl, sym, ap, subst, ◌∙◌, String, List, [], ◌∷◌, ◌++◌, All,
}
use cost_risk_aware_gitops_p.Results.{ok, err, ok_inj}
use cost_risk_aware_gitops_p.App.Queue.{Job, Redis, IsRedis, got, empty, failed}
use cost_risk_aware_gitops_p.App.Queue.Fifo.{
  Op, push, pop, Answer, pushed, popped, run, AllowsAll, queue, run_refines,
}

module _ {Store : Type 0} (r : Redis Store) where
  -- The jobs of the calls that a run makes, and of its answers.
  abbrev pub jobs_pushed : List Op → List Job
  jobs_pushed [] = []
  jobs_pushed (push j ∷ ops) = j ∷ jobs_pushed ops
  jobs_pushed (pop ∷ ops) = jobs_pushed ops

  abbrev pub jobs_got : List Answer → List Job
  jobs_got [] = []
  jobs_got (popped (got j) ∷ as') = j ∷ jobs_got as'
  jobs_got (popped empty ∷ as') = jobs_got as'
  jobs_got (popped (failed f) ∷ as') = jobs_got as'
  jobs_got (pushed a ∷ as') = jobs_got as'

  -- No call failed.
  abbrev pub IsClean : Answer → Type 0
  IsClean (pushed (ok u)) = Unit
  IsClean (pushed (err e)) = ⊥
  IsClean (popped (got j)) = Unit
  IsClean (popped empty) = Unit
  IsClean (popped (failed f)) = ⊥

  -- The payloads are those of the jobs.
  abbrev pub AreMarshalled : List String → List Job → Type 0
  AreMarshalled [] [] = Unit
  AreMarshalled [] (j ∷ js) = ⊥
  AreMarshalled (p ∷ ps) [] = ⊥
  AreMarshalled (p ∷ ps) (j ∷ js) = (r.marshal j ≡ ok p) × AreMarshalled ps js

  -- The queue held the payloads of `waiting` at first: what was received and what is left are the jobs
  -- that waited and those pushed, in this order.
  pub IsDelivered :
      (waiting : List Job) (ops : List Op) (as' : List Answer) (q' : List String) → Type 0
  IsDelivered waiting ops as' q' =
      (left : List Job) × (waiting ++ jobs_pushed ops ≡ jobs_got as' ++ left)
      × AreMarshalled q' left

  pub AreMarshalled-append :
      (q : List String) (js : List Job) (p : String) (j : Job)
      → AreMarshalled q js
      → r.marshal j ≡ ok p
      → AreMarshalled (q ++ p ∷ []) (js ++ j ∷ [])
  AreMarshalled-append [] [] p j h m = (m, tt)
  AreMarshalled-append [] (k ∷ js) p j h m = elim h [ ]
  AreMarshalled-append (x ∷ q) [] p j h m = elim h [ ]
  AreMarshalled-append (x ∷ q) (k ∷ js) p j (e, h) m = (e, AreMarshalled-append q js p j h m)

  pub AreMarshalled-cons :
      (p : String) (q : List String) (js : List Job)
      → AreMarshalled (p ∷ q) js
      → (j : Job) × (rest : List Job) × (js ≡ j ∷ rest)
        × (r.marshal j ≡ ok p)
        × AreMarshalled q rest
  AreMarshalled-cons p q [] h = elim h [ ]
  AreMarshalled-cons p q (j ∷ js) (m, h) = (j, js, refl, m, h)

  module _ (reads_back : (j : Job) (p : String) → r.marshal j ≡ ok p → r.unmarshal p ≡ ok j) where
    AllowsAll-IsDelivered :
        (ops : List Op) (as' : List Answer) (waiting : List Job) (q q' : List String)
        → AllowsAll r q ops as' q'
        → All IsClean as'
        → AreMarshalled q waiting
        → IsDelivered waiting ops as' q'
    unfolding IsDelivered
    AllowsAll-IsDelivered [] [] waiting q q' e c w =
        (waiting, append-nil waiting, subst (λ q. AreMarshalled q waiting) (sym e) w)
    AllowsAll-IsDelivered [] (_ ∷ as') waiting q q' e c w = elim e [ ]
    AllowsAll-IsDelivered (push j ∷ ops) [] waiting q q' e c w = elim e [ ]
    AllowsAll-IsDelivered (push j ∷ ops) (pushed (err x) ∷ as') waiting q q' e c w = elim c.0 [ ]
    AllowsAll-IsDelivered (push j ∷ ops) (popped _ ∷ as') waiting q q' e c w = elim e.1 [ ]
    AllowsAll-IsDelivered (pop ∷ ops) [] waiting q q' e c w = elim e [ ]
    AllowsAll-IsDelivered (pop ∷ ops) (pushed _ ∷ as') waiting q q' e c w = elim e.1 [ ]
    AllowsAll-IsDelivered (pop ∷ ops) (popped (failed f) ∷ as') waiting q q' e c w = elim c.0 [ ]
    AllowsAll-IsDelivered (push j ∷ ops) (pushed (ok u) ∷ as') waiting q q' (m, (p, e, a), rest)
          (_, c) w =
        let (left, same, l) = AllowsAll-IsDelivered ops as' (waiting ++ j ∷ []) m q' rest c (
          subst (λ q. AreMarshalled q (waiting ++ j ∷ [])) (sym a)
            (AreMarshalled-append q waiting p j w e)) in
        (left, sym (append_assoc waiting (j ∷ []) (jobs_pushed ops)) ∙ same, l)
    AllowsAll-IsDelivered (pop ∷ ops) (popped (got j) ∷ as') waiting q q' (m, (p, e, u), rest)
          (_, c) w =
        let (k, others, front, b, h) =
          AreMarshalled-cons p m waiting (subst (λ q. AreMarshalled q waiting) e w) in
        let same_job = ok_inj k j (sym (reads_back k p b) ∙ u) in
        let (left, same, l) = AllowsAll-IsDelivered ops as' others m q' rest c h in
        (
          left,
          ap (λ w. w ++ jobs_pushed ops) front
              ∙ ap (λ js. k ∷ js) same
              ∙ ap (λ k. k ∷ (jobs_got as' ++ left)) same_job,
          l,
        )
    AllowsAll-IsDelivered (pop ∷ ops) (popped empty ∷ as') waiting q q' (m, (e, a), rest) (_, c) w =
        AllowsAll-IsDelivered ops as' waiting m q' rest c
          (subst (λ q. AreMarshalled q waiting) (e ∙ sym a) w)

  -- Where no call fails, and Redis behaves as `IsRedis` says, the jobs that waited in the store and
  -- those that the run pushes are, in this order, the jobs that its pops return and then those that
  -- are left in the store: none is lost, received twice, or overtaken.
  pub run-IsDelivered :
      {list : Store → List String} (redis : IsRedis r list) (ops : List Op) (s : Store)
      (waiting : List Job)
      → All IsClean (run r ops s).0
      → AreMarshalled (queue r redis s) waiting
      → IsDelivered waiting ops (run r ops s).0 (queue r redis (run r ops s).1)
  run-IsDelivered redis ops s waiting c w =
      AllowsAll-IsDelivered redis.unmarshal_ok ops (run r ops s).0 waiting (queue r redis s)
        (queue r redis (run r ops s).1) (run_refines r redis ops s) c w
