-- ===== src/App/Api/Enqueue/Accounting.antt =====
-- api/main.go: what a request to enqueue leaves in the queue, against what it is answered.
use mathlib.Core.List.{append-nil, append_assoc}
use cost_risk_aware_gitops_p.Prelude.{
  ◌≡◌, refl, sym, ap, subst, ◌∙◌, ◌⊎◌, inl, inr, ℕ, zero, suc, ◌+◌, ◌≤◌, ◌<◌, Bool, true, false,
  String, List, [], ◌∷◌, ◌++◌, arith,
}
use cost_risk_aware_gitops_p.Prelude.Int.{ℤ, pos, ◌≤ℤ◌, pos_part}
use cost_risk_aware_gitops_p.Results.{Result, ok, err}
use cost_risk_aware_gitops_p.App.Queue.{Time, Job, Redis, IsRedis, enqueue}
use cost_risk_aware_gitops_p.App.Queue.Fifo.{push, pushed, Allows, Appends, queue, call_refines}
use cost_risk_aware_gitops_p.App.Queue.Delivery.{AreMarshalled}
use cost_risk_aware_gitops_p.App.Api.Request.{
  Request, EnqueueRequest, InBounds, read_request, read_request-InBounds,
}
use cost_risk_aware_gitops_p.App.Api.Enqueue.{
  Api, EnqueueResponse, job, Pushed, push_jobs, count_ok, count_error, respond, answer_request,
  handle_enqueue,
}

-- The jobs of a request, from its `i`-th.
abbrev pub jobs_from : (now : Time) (duration_ms : ℤ) (i n : ℕ) → List Job
jobs_from now duration_ms i zero = []
jobs_from now duration_ms i (suc n) = job now duration_ms i ∷ jobs_from now duration_ms (i + 1) n

module _ {Store : Type 0} (r : Redis Store) {list : Store → List String}
    (redis : IsRedis r list) where
  -- `n` jobs have been put at the end of the queue.
  pub record Gains (now : Time) (duration_ms : ℤ) (i n : ℕ) (q q' : List String) : Type 0 where
    pub payloads : List String
    pub marshalled : AreMarshalled r payloads (jobs_from now duration_ms i n)
    pub appended : q' ≡ q ++ payloads

  -- The same, and an error left open whether the next job has been put there too.
  abbrev pub GainsOrOne : (now : Time) (duration_ms : ℤ) (i n : ℕ) (q q' : List String) → Type 0
  GainsOrOne now duration_ms i n q q' =
      (m : List String) × Gains now duration_ms i n q m
      × ((q' ≡ m) ⊎ Appends r (job now duration_ms (i + n)) m q')

  Gains-zero : (now : Time) (d : ℤ) (i : ℕ) (q : List String) → Gains now d i 0 q q
  Gains-zero now d i q = record { payloads = []; marshalled = tt; appended = sym (append-nil q) }

  Gains-suc :
      (now : Time) (d : ℤ) (i n : ℕ) (q m q' : List String)
      → Appends r (job now d i) q m
      → Gains now d (i + 1) n m q'
      → Gains now d i (suc n) q q'
  Gains-suc now d i n q m q' (p, e, a) g = record {
    payloads = p ∷ g.payloads;
    marshalled = (e, g.marshalled);
    appended = g.appended ∙ ap (λ m. m ++ g.payloads) a ∙ append_assoc q (p ∷ []) g.payloads;
  }

  abbrev pub waiting : Api Store → List String
  waiting api = queue r redis api.store

  -- What the loop did from round `i`, with `left` rounds to go.
  record IsPushed (now : Time) (d : ℤ) (left i : ℕ) (api : Api Store) (p : Pushed Store)
      : Type 0 where
    n : ℕ
    accepted : p.accepted ≡ i + n
    counted : p.api.enqueued_ok ≡ api.enqueued_ok + n
    ended :
        ((p.stopped ≡ false)
          × (n ≡ left)
          × Gains now d i n (waiting api) (waiting p.api)
          × (p.api.enqueued_error ≡ api.enqueued_error))
        ⊎ ((p.stopped ≡ true)
            × (n < left)
            × GainsOrOne now d i n (waiting api) (waiting p.api)
            × (p.api.enqueued_error ≡ api.enqueued_error + 1))

  enqueue-Allows :
      (j : Job) (s : Store) (a : Result (Unit {0}))
      → (enqueue r j s).0 ≡ a
      → Allows r (queue r redis s) (push j) (pushed a) (queue r redis (enqueue r j s).1)
  enqueue-Allows j s a e =
      subst (λ a. Allows r (queue r redis s) (push j) (pushed a) (queue r redis (enqueue r j s).1))
        e (call_refines r redis (push j) s)

  -- A round whose push was answered, before the rounds below it.
  round-IsPushed :
      (now : Time) (d : ℤ) (left i : ℕ) (api : Api Store) (s : Store) (later : Pushed Store)
      (a : Result (Unit {0}))
      → Allows r (waiting api) (push (job now d i)) (pushed a) (queue r redis s)
      → IsPushed now d left (i + 1) (count_ok r s api) later
      → IsPushed now d (suc left) i api (elim a [
        | err e ↦ record { accepted = i; stopped = true; api = count_error r s api }
        | ok u ↦ later
      ])
  round-IsPushed now d left i api s later (err e) w p = record {
    n = 0;
    accepted = omega arith;
    counted = omega arith;
    ended = inr (
      refl,
      omega arith,
      (
        waiting api,
        Gains-zero now d i (waiting api),
        subst
            (λ k.
              (queue r redis s ≡ waiting api)
              ⊎ Appends r (job now d k) (waiting api) (queue r redis s))
            {x = i} {y = i + 0} (omega arith) w,
      ),
      refl,
    );
  }
  round-IsPushed now d left i api s later (ok u) w p = record {
    n = suc p.n;
    accepted = omega (arith, p.accepted);
    counted = omega (arith, p.counted);
    ended = elim p.ended [
      | inl (f, e, g, c) ↦ inl (
        f,
        ap suc e,
        Gains-suc now d i p.n (waiting api) (queue r redis s) (waiting later.api) w g,
        c,
      )
      | inr (f, e, (m, g, o), c) ↦ inr (
        f,
        omega arith,
        (
          m,
          Gains-suc now d i p.n (waiting api) (queue r redis s) m w g,
          subst (λ k. (waiting later.api ≡ m) ⊎ Appends r (job now d k) m (waiting later.api))
              {x = i + 1 + p.n} {y = i + suc p.n} (omega arith) o,
        ),
        c,
      )
    ];
  }

  push_jobs-IsPushed :
      (now : Time) (d : ℤ) (left i : ℕ) (api : Api Store)
      → IsPushed now d left i api (push_jobs r now d left i api)
  unfolding push_jobs
  push_jobs-IsPushed now d zero i api = record {
    n = 0;
    accepted = omega arith;
    counted = omega arith;
    ended = inl (refl, refl, Gains-zero now d i (waiting api), refl);
  }
  push_jobs-IsPushed now d (suc left) i api =
      let j = job now d i in
      let s = (enqueue r j api.store).1 in
      round-IsPushed now d left i api s (push_jobs r now d left (i + 1) (count_ok r s api))
        (enqueue r j api.store).0 (enqueue-Allows j api.store (enqueue r j api.store).0 refl)
        (push_jobs-IsPushed now d left (i + 1) (count_ok r s api))

  -- What a request is answered, and what it leaves.
  pub data IsAnswered (now : Time) (api api' : Api Store) (res : EnqueueResponse) : Type 0 where
    refused : res.code ≡ 400 → res.accepted ≡ pos 0 → api' ≡ api → IsAnswered now api api' res
    taken :
        (n : ℕ)
        → res.code ≡ 202
        → res.accepted ≡ pos n
        → (1 ≤ n) × (n ≤ 10000) × (pos 0 ≤ℤ res.duration_ms) × (res.duration_ms ≤ℤ pos 60000)
        → Gains now res.duration_ms 0 n (waiting api) (waiting api')
        → (api'.enqueued_ok ≡ api.enqueued_ok + n) × (api'.enqueued_error ≡ api.enqueued_error)
        → IsAnswered now api api' res
    cut_short :
        (n : ℕ)
        → res.code ≡ 503
        → res.accepted ≡ pos n
        → (n < 10000) × (pos 0 ≤ℤ res.duration_ms) × (res.duration_ms ≤ℤ pos 60000)
        → GainsOrOne now res.duration_ms 0 n (waiting api) (waiting api')
        → (api'.enqueued_ok ≡ api.enqueued_ok + n) × (api'.enqueued_error ≡ api.enqueued_error + 1)
        → IsAnswered now api api' res

  respond-IsAnswered :
      (now : Time) (api : Api Store) (req : EnqueueRequest) (p : Pushed Store) (stopped : Bool)
      → p.stopped ≡ stopped
      → InBounds req
      → IsPushed now req.duration_ms (pos_part req.count) 0 api p
      → let (res, api') = respond r stopped req p in IsAnswered now api api' res
  respond-IsAnswered now api req p true t b g = elim g.ended [
    | inl (f, e, gains, c) ↦ ground arith
    | inr (f, lt, gains, c) ↦
        cut_short g.n refl (ap pos (omega (arith, g.accepted)))
          (ground (arith, b.counted, b.most), b.lowest, b.highest) gains (g.counted, c)
  ]
  respond-IsAnswered now api req p false t b g = elim g.ended [
    | inl (f, e, gains, c) ↦
        taken g.n refl (ground (arith, b.counted))
          (
            ground (arith, b.counted, b.some_job),
            ground (arith, b.counted, b.most),
            b.lowest,
            b.highest,
          )
          gains (g.counted, c)
    | inr (f, lt, gains, c) ↦ ground arith
  ]

  answer_request-IsAnswered :
      (now : Time) (req : Result EnqueueRequest) (api : Api Store)
      → ((q : EnqueueRequest) → req ≡ ok q → InBounds q)
      → let (res, api') = answer_request r now req api in IsAnswered now api api' res
  answer_request-IsAnswered now (err e) api b = refused refl refl refl
  answer_request-IsAnswered now (ok req) api b =
      let p = push_jobs r now req.duration_ms (pos_part req.count) 0 api in
      respond-IsAnswered now api req p p.stopped refl (b req refl)
        (push_jobs-IsPushed now req.duration_ms (pos_part req.count) 0 api)

  -- A request to enqueue is answered in one of three ways: 400, and nothing was put in the queue; 202,
  -- and as many jobs as it reports, of its duration and within the bounds, were put at the end of the
  -- queue; or 503, and as many as it reports were, and perhaps the one whose push failed. The counters
  -- of jobs agree. Redis behaves as `IsRedis` says.
  pub handle_enqueue-IsAnswered :
      (now : Time) (request : Request) (api : Api Store)
      → let (res, api') = handle_enqueue r now request api in IsAnswered now api api' res
  unfolding handle_enqueue
  handle_enqueue-IsAnswered now request api =
      answer_request-IsAnswered now (read_request request) api (read_request-InBounds request)
