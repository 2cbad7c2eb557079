-- ===== src/Examples/Apps.antt =====
-- The demo workload over a Redis that keeps one list and always answers.
use mathlib.Core.List.{reverse, reverse-cons, reverse-reverse}
use cost_risk_aware_gitops_p.Prelude.{
  ◌≢◌, ◌≡◌, ◌↔◌, refl, sym, ap, subst, ◌∙◌, inl, ◌*◌, ◌+◌, ◌%◌, ◌^◌, Bool, true, false, ◌&&◌,
  if◌then◌else◌, String, str_eq, eq_iff, some, List, [], ◌∷◌, ◌++◌, length, concat, show_nat,
  show_int, atoi, arith,
}
use cost_risk_aware_gitops_p.Prelude.Int.{ℤ, pos, eqb_ℤ, eqb_ℤ_iff, ◌+ℤ◌, ◌-ℤ◌}
use cost_risk_aware_gitops_p.Results.{Result, ok, err, errorf, ok_inj}
use cost_risk_aware_gitops_p.App.Queue.{
  key, Job, Fault, Reply, timed_out, values, broken, Redis, IsRedis, enqueue, dequeue, depth,
}
use cost_risk_aware_gitops_p.App.Queue.Fifo.{Op, push, pop, run, AllowsAll, queue, run_refines}
use cost_risk_aware_gitops_p.App.Queue.Delivery.{IsDelivered, run-IsDelivered}
use cost_risk_aware_gitops_p.App.Work.{Reading, do_work}
use cost_risk_aware_gitops_p.App.Work.Stopping.{do_work-Stops}
use cost_risk_aware_gitops_p.App.Worker.{Round, starting, consume}
use cost_risk_aware_gitops_p.App.Worker.Draining.{IsQuiet, IsDrained, consume-IsDrained}
use cost_risk_aware_gitops_p.App.Worker.Backoff.{IsAccount, handled, consume_lem}
use cost_risk_aware_gitops_p.App.Api.Readiness.{new_server, publish_queue_depth, handle_ready}
use cost_risk_aware_gitops_p.App.Api.Readiness.Streaks.{IsFresh, handle_ready_iff}
use cost_risk_aware_gitops_p.App.Api.Request.{
  Request, read_request, read_body, override, check_bounds,
}
use cost_risk_aware_gitops_p.App.Api.Enqueue.{Api, job, push_jobs, handle_enqueue}
use cost_risk_aware_gitops_p.App.Api.Enqueue.Accounting.{IsAnswered, handle_enqueue-IsAnswered}

abbrev noon : ℤ
noon = pos 63000000000000000000

abbrev first_job : Job
first_job = job noon (pos 250) 0

abbrev second_job : Job
second_job = job noon (pos 250) 1

abbrev same_job : Job → Job → Bool
same_job a b =
    str_eq a.id b.id && eqb_ℤ a.duration_ms b.duration_ms && eqb_ℤ a.enqueued_at b.enqueued_at

same_job-eq : (a b : Job) → same_job a b ≡ true → a ≡ b
same_job-eq a b h =
    let i = eq_iff a.id b.id in
    let d = eqb_ℤ_iff a.duration_ms b.duration_ms in
    let e = eqb_ℤ_iff a.enqueued_at b.enqueued_at in ground arith

-- A codec that knows two jobs.
abbrev write_known : (is_first is_second : Bool) → Result String
write_known true _ = ok "first"
write_known false true = ok "second"
write_known false false = err (errorf "unknown job")

abbrev write_job : Job → Result String
write_job j = write_known (same_job j first_job) (same_job j second_job)

abbrev read_job : String → Result Job
read_job p =
    if str_eq p "first"
    then ok first_job
    else if str_eq p "second"
    then ok second_job
    else err (errorf "unknown payload")

abbrev pop_last : List String → Reply × List String
pop_last [] = (timed_out, [])
pop_last (p ∷ ps) = (values (key ∷ p ∷ []), reverse ps)

abbrev memory : Redis (List String)
memory = record {
  lpush = λ k p s. (ok tt, p ∷ s);
  brpop = λ k s. pop_last (reverse s);
  llen = λ k s. ok (pos (length s));
  marshal = write_job;
  unmarshal = read_job;
}

abbrev the_list : List String → List String
the_list s = s

pop_last-values :
    (vs : List String) (q : List String)
    → (pop_last q).0 ≡ values vs
    → (v : String) × (vs ≡ key ∷ v ∷ []) × (reverse q ≡ (pop_last q).1 ++ v ∷ [])
pop_last-values vs [] h = ground arith
pop_last-values vs (p ∷ ps) h = (p, ground arith, reverse-cons p ps)

pop_last-timed_out : (q : List String) → (pop_last q).0 ≡ timed_out → q ≡ []
pop_last-timed_out [] h = refl
pop_last-timed_out (p ∷ ps) h = ground arith

pop_last-not_broken : (q : List String) (f : Fault) → (pop_last q).0 ≡ broken f → ⊥
pop_last-not_broken [] f h = ground arith
pop_last-not_broken (p ∷ ps) f h = ground arith

write_known-read :
    (j : Job) (p : String) (is_first is_second : Bool)
    → (is_first ≡ true → j ≡ first_job)
    → (is_second ≡ true → j ≡ second_job)
    → write_known is_first is_second ≡ ok p
    → read_job p ≡ ok j
write_known-read j p true b f g h =
    subst (λ p. read_job p ≡ ok j) (ok_inj "first" p h) (ap ok (sym (f refl)))
write_known-read j p false true f g h =
    subst (λ p. read_job p ≡ ok j) (ok_inj "second" p h) (ap ok (sym (g refl)))
write_known-read j p false false f g h = ground arith

write_job-read : (j : Job) (p : String) → write_job j ≡ ok p → read_job p ≡ ok j
write_job-read j p =
    write_known-read j p (same_job j first_job) (same_job j second_job) (same_job-eq j first_job)
      (same_job-eq j second_job)

reverse-eq_nil : (s : List String) → reverse s ≡ [] → s ≡ []
reverse-eq_nil s e = sym (reverse-reverse s) ∙ ap reverse e

memory-IsRedis : IsRedis memory the_list
memory-IsRedis = record {
  lpush_ok = λ p s h. refl;
  lpush_err = λ p s e h. inl (ground arith);
  brpop_values = λ vs s h.
      let (v, two, last) = pop_last-values vs (reverse s) h in
      (v, two, sym (reverse-reverse s) ∙ last);
  brpop_timed_out = λ s h.
      let none_left = pop_last-timed_out (reverse s) h in
      (reverse-eq_nil s none_left, ap (λ q. (pop_last q).1) none_left);
  brpop_broken = λ f s h. elim (pop_last-not_broken (reverse s) f h) [ ];
  llen_ok = λ n s h. sym (ok_inj (pos (length s)) n h);
  unmarshal_ok = write_job-read;
}

-- Two jobs are put in and taken out, and once more the queue is empty.
abbrev calls : List Op
calls = push first_job ∷ push second_job ∷ pop ∷ pop ∷ pop ∷ []

run_refines_example :
    AllowsAll memory
      (queue memory memory-IsRedis [])
      calls
      (run memory calls []).0
      (queue memory memory-IsRedis (run memory calls []).1)
run_refines_example = run_refines memory memory-IsRedis calls []

run-IsDelivered_example :
    IsDelivered memory [] calls
      (run memory calls []).0
      (queue memory memory-IsRedis (run memory calls []).1)
unfolding enqueue dequeue concat show_nat show_int ◌-ℤ◌
run-IsDelivered_example =
    run-IsDelivered memory memory-IsRedis calls [] [] (tt, (tt, (tt, (tt, (tt, tt))))) tt

-- Two rounds, the second of which ends after the deadline.
abbrev one_round : Reading
one_round = record { now = noon; canceled = false }

abbrev last_round : Reading
last_round = record { now = noon +ℤ pos 2; canceled = false }

do_work-Stops_example :
    do_work noon (pos 1) (one_round ∷ last_round ∷ [])
    ≡ some ((2048 * (length (one_round ∷ []) + 1)) % 2 ^ 64)
unfolding ◌+ℤ◌
do_work-Stops_example =
    do_work-Stops noon (pos 1) (one_round ∷ []) [] last_round refl ((refl, refl), tt) (inl refl)

-- A consumer that finds a job, and then none before its context is done.
abbrev a_round : Round (List String)
a_round = record {
  canceled = false;
  canceled_waiting = false;
  others = λ s. s;
  received = noon;
  started = noon;
  finished = noon;
}

abbrev rounds : List (Round (List String))
rounds = a_round ∷ a_round ∷ record a_round { canceled = true } ∷ []

consume_lem_example :
    IsAccount 0
      (handled memory rounds ("first" ∷ []) starting)
      starting
      (consume memory rounds ("first" ∷ []) starting).0
consume_lem_example = consume_lem memory rounds ("first" ∷ [])

abbrev lost : Result ℤ
lost = err (errorf "connection refused")

handle_ready_iff_example :
    ((handle_ready (publish_queue_depth (ok (pos 3) ∷ lost ∷ lost ∷ []) new_server)).0 ≡ 200)
    ↔ IsFresh (ok (pos 3) ∷ lost ∷ lost ∷ [])
handle_ready_iff_example = handle_ready_iff (ok (pos 3) ∷ lost ∷ lost ∷ [])

-- `POST /api/jobs?count=2`, with no body.
abbrev two_jobs : Request
two_jobs = record {
  content_length = pos 0;
  decode = λ req. ok req;
  query = λ name. if str_eq name "count" then "2" else "";
}

abbrev api : Api (List String)
api = record { store = []; enqueued_ok = 0; enqueued_error = 0 }

two_jobs_stored : (handle_enqueue memory noon two_jobs api).1.store ≡ "second" ∷ "first" ∷ []
unfolding handle_enqueue read_request read_body override check_bounds push_jobs enqueue depth atoi
    concat show_nat show_int ◌-ℤ◌
two_jobs_stored = refl

handle_enqueue-IsAnswered_example :
    IsAnswered memory memory-IsRedis noon api
      (handle_enqueue memory noon two_jobs api).1
      (handle_enqueue memory noon two_jobs api).0
handle_enqueue-IsAnswered_example =
    handle_enqueue-IsAnswered memory memory-IsRedis noon two_jobs api

-- A consumer that is alone with two jobs, over three rounds.
a_round-IsQuiet : IsQuiet the_list a_round
a_round-IsQuiet = record { goes_on = refl; alone = λ s. refl }

abbrev two_payloads : List String
two_payloads = "second" ∷ "first" ∷ []

abbrev quiet_rounds : List (Round (List String))
quiet_rounds = a_round ∷ a_round ∷ a_round ∷ []

memory_answers : (f : Fault) (s : List String) → (memory.brpop key s).0 ≢ broken f
memory_answers f s h = pop_last-not_broken (reverse s) f h

consume-IsDrained_example :
    IsDrained memory memory-IsRedis memory_answers
      (first_job ∷ second_job ∷ [])
      starting
      (consume memory quiet_rounds two_payloads starting)
unfolding concat show_nat show_int ◌-ℤ◌
consume-IsDrained_example =
    consume-IsDrained memory memory-IsRedis memory_answers quiet_rounds two_payloads starting
      (first_job ∷ second_job ∷ []) (a_round-IsQuiet, (a_round-IsQuiet, (a_round-IsQuiet, tt)))
      (refl, (refl, tt)) (omega arith)
