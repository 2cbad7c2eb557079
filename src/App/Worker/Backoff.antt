-- ===== src/App/Worker/Backoff.antt =====
-- worker/main.go: what a consumer has counted, and how long it waits after an error.
use native.Mathlib.Numerals.{unary_clauses}
use cost_risk_aware_gitops_p.Prelude.{
  ◌≡◌, refl, ℕ, suc, ◌+◌, ◌*◌, ◌^◌, inl, inr, true, false, Bool-cases, if◌then◌else◌, ltb, List, [],
  ◌∷◌, length, length-append, arith,
}
use cost_risk_aware_gitops_p.Prelude.Int.{◌-ℤ◌}
use cost_risk_aware_gitops_p.App.Queue.{Redis, Dequeued, got, empty, failed, dequeue}
use cost_risk_aware_gitops_p.App.Worker.{
  backoff_max, Consumer, starting, Round, Next, return, continue, doubled, observe_wait, handle,
  consume,
}

-- A reply of the queue, and whether the loop went on after it.
pub record Handled : Type 0 where
  pub reply : Dequeued
  pub next : Next

-- 500 ms after no error, doubled for each error in a row, and 15 s at most.
abbrev pub backoff_after : ℕ → ℕ
backoff_after n = if ltb backoff_max (500 * 2 ^ n) then backoff_max else 500 * 2 ^ n

doubled_lem : (n : ℕ) → doubled (backoff_after n) ≡ backoff_after (suc n)
unfolding doubled
doubled_lem n =
    let power : 2 ^ suc n ≡ 2 * 2 ^ n = simp unary_clauses (omega arith) in ground (arith, power)

-- The errors in a row that the loop has waited for, after `n` of them.
abbrev pub streak : ℕ → List Handled → ℕ
streak n [] = n
streak n (h ∷ hs) = elim h.reply [
  | got job ↦ streak 0 hs
  | empty ↦ streak 0 hs
  | failed f ↦ elim h.next [ return ↦ streak n hs | continue ↦ streak (suc n) hs ]
]

-- The jobs received, and the errors that are no cancellation.
abbrev pub jobs_in : List Handled → ℕ
jobs_in [] = 0
jobs_in (h ∷ hs) = elim h.reply [
  | got job ↦ suc (jobs_in hs)
  | empty ↦ jobs_in hs
  | failed f ↦ jobs_in hs
]

abbrev pub errors_in : List Handled → ℕ
errors_in [] = 0
errors_in (h ∷ hs) = elim h.reply [
  | got job ↦ errors_in hs
  | empty ↦ errors_in hs
  | failed f ↦ elim f.canceled [ true ↦ errors_in hs | false ↦ suc (errors_in hs) ]
]

-- From `c` to `c'`, over the replies.
pub record IsAccount (n : ℕ) (hs : List Handled) (c c' : Consumer) : Type 0 where
  pub waits : c'.backoff ≡ backoff_after (streak n hs)
  pub jobs : c'.processed_ok ≡ c.processed_ok + jobs_in hs
  pub errors : c'.processed_error ≡ c.processed_error + errors_in hs
  pub timed : length c'.durations ≡ length c.durations + jobs_in hs

IsAccount-nil : (n : ℕ) (c : Consumer) → c.backoff ≡ backoff_after n → IsAccount n [] c c
IsAccount-nil n c b = ground arith

IsAccount-cons :
    (n : ℕ) (reply : Dequeued) (next : Next) (hs : List Handled) (c c1 c2 : Consumer)
    → IsAccount n (record { reply = reply; next = next } ∷ []) c c1
    → IsAccount (streak n (record { reply = reply; next = next } ∷ [])) hs c1 c2
    → IsAccount n (record { reply = reply; next = next } ∷ hs) c c2
IsAccount-cons n (got job) next hs c c1 c2 a b = ground arith
IsAccount-cons n empty next hs c c1 c2 a b = ground arith
IsAccount-cons n (failed f) return hs c c1 c2 a b = ground arith
IsAccount-cons n (failed f) continue hs c c1 c2 a b = ground arith

-- One round, and the rounds after it where there are any.
IsAccount-round :
    {Store : Type 0} (n : ℕ) (reply : Dequeued) (next : Next) (hs : List Handled) (c c1 : Consumer)
    (s : Store) (later : Consumer × Store)
    → IsAccount n (record { reply = reply; next = next } ∷ []) c c1
    → IsAccount (streak n (record { reply = reply; next = next } ∷ [])) hs c1 later.0
    → IsAccount n
        (record { reply = reply; next = next } ∷ (elim next [ return ↦ [] | continue ↦ hs ]))
        c
        (elim next as (λ x. Consumer × Store) [ return ↦ (c1, s) | continue ↦ later ]).0
IsAccount-round n reply return hs c c1 s later a b = a
IsAccount-round n reply continue hs c c1 s later a b =
    IsAccount-cons n reply continue hs c c1 later.0 a b

module _ {Store : Type 0} (r : Redis Store) where
  -- The replies that a run of the loop handles, in their order.
  pub handled : List (Round Store) → Store → Consumer → List Handled
  handled [] s c = []
  handled (round ∷ rounds) s c = elim round.canceled [
    | true ↦ []
    | false ↦
        let (reply, s') = dequeue r (round.others s) in
        let (c', next) = handle round reply c in
        record { reply = reply; next = next }
        ∷ (elim next [ return ↦ [] | continue ↦ handled rounds s' c' ])
  ]

  handle-IsAccount :
      (round : Round Store) (reply : Dequeued) (n : ℕ) (c : Consumer)
      → c.backoff ≡ backoff_after n
      → let (c', next) = handle round reply c in
        IsAccount n (record { reply = reply; next = next } ∷ []) c c'
  unfolding handle observe_wait
  handle-IsAccount round empty n c b = ground arith
  handle-IsAccount round (failed f) n c b = ground (arith, doubled_lem n)
  handle-IsAccount round (got job) n c b =
      ground (arith, length-append c.durations ((round.finished -ℤ round.started) ∷ []))

  consume-IsAccount :
      (rounds : List (Round Store)) (s : Store) (n : ℕ) (c : Consumer)
      → c.backoff ≡ backoff_after n
      → IsAccount n (handled rounds s c) c (consume r rounds s c).0
  unfolding consume handled
  consume-IsAccount [] s n c b = IsAccount-nil n c b
  consume-IsAccount (round ∷ rounds) s n c b =
      let (reply, s') = dequeue r (round.others s) in
      let (c', next) = handle round reply c in
      let first = handle-IsAccount round reply n c b in
      let rest =
        consume-IsAccount rounds s' (streak n (record { reply = reply; next = next } ∷ [])) c'
          first.waits in
      elim (Bool-cases round.canceled) [
        | inl stop ↦ rw stop (IsAccount-nil n c b)
        | inr go ↦ rw go (
            IsAccount-round n reply next (handled rounds s' c') c c' s' (consume r rounds s' c')
              first rest)
      ]

  -- Whatever the queue answers and whenever the context is canceled: after any rounds a new consumer
  -- has counted each job that it received as processed and timed it, and each error that is no
  -- cancellation as an error; and its backoff is 500 ms, doubled for each error that it has waited
  -- for since the last reply that was none, and never more than 15 s.
  pub consume_lem :
      (rounds : List (Round Store)) (s : Store)
      → IsAccount 0 (handled rounds s starting) starting (consume r rounds s starting).0
  consume_lem rounds s = consume-IsAccount rounds s 0 starting refl
