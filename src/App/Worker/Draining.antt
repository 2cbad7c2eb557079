-- ===== src/App/Worker/Draining.antt =====
-- worker/main.go: a consumer that is left alone with a queue empties it.
use mathlib.Core.List.{reverse, reverse-reverse}
use cost_risk_aware_gitops_p.Prelude.{
  ◌≡◌, ◌≢◌, refl, sym, ap, subst, ◌∙◌, ◌⊎◌, inl, inr, ◌+◌, ◌≤◌, false, String, List, [], ◌∷◌, All,
  length, arith,
}
use cost_risk_aware_gitops_p.App.Queue.{
  key, Job, Fault, Reply, timed_out, values, broken, Redis, IsRedis, Dequeued, got, empty, dequeued,
  reply_value, decoded, dequeue,
}
use cost_risk_aware_gitops_p.App.Queue.Fifo.{queue, queue-pop}
use cost_risk_aware_gitops_p.App.Queue.Delivery.{AreMarshalled, AreMarshalled-cons}
use cost_risk_aware_gitops_p.App.Worker.{
  Consumer, Round, return, continue, observe_wait, handle, consume,
}

-- The context is not done, and no other client changes the list.
pub record IsQuiet {Store : Type 0} (list : Store → List String) (round : Round Store)
    : Type 0 where
  pub goes_on : round.canceled ≡ false
  pub alone : (s : Store) → list (round.others s) ≡ list s

module _ {Store : Type 0} (r : Redis Store) {list : Store → List String} (redis : IsRedis r list)
    (answers : (f : Fault) (s : Store) → (r.brpop key s).0 ≢ broken f) where
  -- What a pop gives of the jobs that wait: none, or the first of them.
  Pops : List Job → Dequeued × Store → Type 0
  Pops waiting (d, s') =
      ((waiting ≡ []) × (d ≡ empty) × (list s' ≡ []))
      ⊎ ((j : Job) × (rest : List Job) × (waiting ≡ j ∷ rest)
          × (d ≡ got j)
          × AreMarshalled r (queue r redis s') rest)

  none_waiting : (waiting : List Job) → AreMarshalled r [] waiting → waiting ≡ []
  none_waiting [] w = refl
  none_waiting (j ∷ js) w = elim w [ ]

  reply-Pops :
      (s : Store) (waiting : List Job) (reply : Reply)
      → (r.brpop key s).0 ≡ reply
      → AreMarshalled r (queue r redis s) waiting
      → Pops waiting (dequeued r reply, (r.brpop key s).1)
  unfolding Pops
  reply-Pops s waiting timed_out e w =
      let (none_before, none_after) = redis.brpop_timed_out s e in
      inl (
        none_waiting waiting (subst (λ l. AreMarshalled r (reverse l) waiting) none_before w),
        refl,
        none_after,
      )
  reply-Pops s waiting (broken f) e w = elim (answers f s e) [ ]
  reply-Pops s waiting (values vs) e w =
      let s' = (r.brpop key s).1 in
      let (v, two, last) = redis.brpop_values vs s e in
      let (j, rest, first, m, others) =
        AreMarshalled-cons r v (queue r redis s') waiting
          (subst (λ q. AreMarshalled r q waiting) (queue-pop r redis v s s' last) w) in
      let read : reply_value r (key ∷ v ∷ []) ≡ got j = ap (decoded r) (redis.unmarshal_ok j v m) in
      inr (j, rest, first, ap (reply_value r) two ∙ read, others)

  dequeue-Pops :
      (s : Store) (waiting : List Job)
      → AreMarshalled r (queue r redis s) waiting
      → Pops waiting (dequeue r s)
  unfolding dequeue
  dequeue-Pops s waiting w = reply-Pops s waiting (r.brpop key s).0 refl w

  -- Of the jobs that waited none is left, and each was counted.
  abbrev pub IsDrained : (waiting : List Job) (c : Consumer) → Consumer × Store → Type 0
  IsDrained waiting c end =
      (list end.1 ≡ []) × (end.0.processed_ok ≡ c.processed_ok + length waiting)

  -- A round that finds a job, and one that finds none.
  consume-got :
      (round : Round Store) (rounds : List (Round Store)) (s : Store) (c : Consumer) (j : Job)
      → round.canceled ≡ false
      → (dequeue r (round.others s)).0 ≡ got j
      → consume r (round ∷ rounds) s c
        ≡ consume r rounds (dequeue r (round.others s)).1 (handle round (got j) c).0
  unfolding consume handle
  consume-got round rounds s c j calm d = rw calm (
      ap
        (λ x. elim (handle round x c).1 as (λ n. Consumer × Store) [
          | return ↦ ((handle round x c).0, (dequeue r (round.others s)).1)
          | continue ↦ consume r rounds (dequeue r (round.others s)).1 (handle round x c).0
        ])
        d)

  consume-empty :
      (round : Round Store) (rounds : List (Round Store)) (s : Store) (c : Consumer)
      → round.canceled ≡ false
      → (dequeue r (round.others s)).0 ≡ empty
      → consume r (round ∷ rounds) s c
        ≡ consume r rounds (dequeue r (round.others s)).1 (handle round empty c).0
  unfolding consume handle
  consume-empty round rounds s c calm d = rw calm (
      ap
        (λ x. elim (handle round x c).1 as (λ n. Consumer × Store) [
          | return ↦ ((handle round x c).0, (dequeue r (round.others s)).1)
          | continue ↦ consume r rounds (dequeue r (round.others s)).1 (handle round x c).0
        ])
        d)

  handle-counts :
      (round : Round Store) (j : Job) (c : Consumer)
      → (handle round (got j) c).0.processed_ok ≡ c.processed_ok + 1
  unfolding handle observe_wait
  handle-counts round j c = ground arith

  handle-passes :
      (round : Round Store) (c : Consumer) → (handle round empty c).0.processed_ok ≡ c.processed_ok
  unfolding handle
  handle-passes round c = refl

  no_payloads : (q : List String) → AreMarshalled r q [] → q ≡ []
  no_payloads [] w = refl
  no_payloads (p ∷ q) w = elim w [ ]

  list_of_queue : (s : Store) → AreMarshalled r (queue r redis s) [] → list s ≡ []
  list_of_queue s w = sym (reverse-reverse (list s)) ∙ ap reverse (no_payloads (queue r redis s) w)

  marshalled_alone :
      (round : Round Store) (s : Store) (waiting : List Job)
      → IsQuiet list round
      → AreMarshalled r (queue r redis s) waiting
      → AreMarshalled r (queue r redis (round.others s)) waiting
  marshalled_alone round s waiting calm w =
      subst (λ l. AreMarshalled r (reverse l) waiting) (sym (calm.alone s)) w

  -- A consumer whose context is not done, with a Redis that answers each pop and with no other client,
  -- empties the queue within as many rounds as jobs wait, and counts each of them as processed,
  -- however many more rounds there are.
  pub consume-IsDrained :
      (rounds : List (Round Store)) (s : Store) (c : Consumer) (waiting : List Job)
      → All (IsQuiet list) rounds
      → AreMarshalled r (queue r redis s) waiting
      → length waiting ≤ length rounds
      → IsDrained waiting c (consume r rounds s c)
  unfolding consume Pops
  consume-IsDrained [] s c [] quiet w le = (list_of_queue s w, omega arith)
  consume-IsDrained [] s c (j ∷ js) quiet w le = ground arith
  consume-IsDrained (round ∷ rounds) s c waiting (calm, quiet) w le =
      let alone = marshalled_alone round s waiting calm w in
      elim (dequeue-Pops (round.others s) waiting alone) [
        | inl (none_left, d, gone) ↦
            let c' = (handle round empty c).0 in
            let s' = (dequeue r (round.others s)).1 in
            let nothing = subst (λ l. AreMarshalled r (reverse l) []) (sym gone) tt in
            let (drained, count) = consume-IsDrained rounds s' c' [] quiet nothing (omega arith) in
            let step = consume-empty round rounds s c calm.goes_on d in
            subst (IsDrained waiting c) (sym step)
              (drained, omega (arith, count, handle-passes round c, ap length none_left))
        | inr (j, rest, first, d, others) ↦
            let c' = (handle round (got j) c).0 in
            let s' = (dequeue r (round.others s)).1 in
            let longer = ap length first in
            let (drained, count) =
              consume-IsDrained rounds s' c' rest quiet others (omega (arith, longer)) in
            let step = consume-got round rounds s c j calm.goes_on d in
            subst (IsDrained waiting c) (sym step)
              (drained, omega (arith, count, handle-counts round j c, longer))
      ]
