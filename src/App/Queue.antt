-- ===== src/App/Queue.antt =====
-- app/internal/queue/queue.go: the shared queue, a Redis list behind a client.
pub mod Fifo
pub mod Delivery
use cost_risk_aware_gitops_p.Prelude.{
  ◌≡◌, ◌⊎◌, Bool, true, false, String, List, [], ◌∷◌, ◌++◌, concat, length, ℕ, show_nat,
}
use cost_risk_aware_gitops_p.Prelude.Int.{ℤ, pos}
use cost_risk_aware_gitops_p.Results.{Error, Result, ok, err, errorf, wrap}

-- `Key`
abbrev pub key : String
key = "jobs:pending"

-- `time.Time` as nanoseconds since Go's zero time.
abbrev pub Time : Type 0
Time = ℤ

pub record Job : Type 0 where
  pub id : String
  pub duration_ms : ℤ
  pub enqueued_at : Time

-- An error of the client, and whether `errors.Is(err, context.Canceled)`, which `%w` keeps.
pub record Fault : Type 0 where
  pub error : Error
  pub canceled : Bool

-- What `BRPop` returns: `redis.Nil` after its timeout, the reply, or another error.
pub data Reply : Type 0 where
  timed_out : Reply
  values : List String → Reply
  broken : Fault → Reply

-- The client of `go-redis` and the server behind it; the state is what the server stores. The
-- decoder's part is `encoding/json` on a `Job`.
pub record Redis (Store : Type 0) : Type 0 where
  pub lpush : (key payload : String) → Store → Result (Unit {0}) × Store
  pub brpop : (key : String) → Store → Reply × Store
  pub llen : (key : String) → Store → Result ℤ
  pub marshal : Job → Result String
  pub unmarshal : String → Result Job

-- What Redis documents of the three commands, over the list stored at the key. A command that failed
-- may have been carried out, as its answer can be lost. What was marshalled reads back.
pub record IsRedis {Store : Type 0} (r : Redis Store) (list : Store → List String) : Type 0 where
  pub lpush_ok :
      (p : String) (s : Store) → (r.lpush key p s).0 ≡ ok tt → list (r.lpush key p s).1 ≡ p ∷ list s
  pub lpush_err :
      (p : String) (s : Store) (e : Error)
      → (r.lpush key p s).0 ≡ err e
      → (list (r.lpush key p s).1 ≡ list s) ⊎ (list (r.lpush key p s).1 ≡ p ∷ list s)
  pub brpop_values :
      (vs : List String) (s : Store)
      → (r.brpop key s).0 ≡ values vs
      → (v : String) × (vs ≡ key ∷ v ∷ []) × (list s ≡ list (r.brpop key s).1 ++ v ∷ [])
  pub brpop_timed_out :
      (s : Store) → (r.brpop key s).0 ≡ timed_out → (list s ≡ []) × (list (r.brpop key s).1 ≡ [])
  pub brpop_broken :
      (f : Fault) (s : Store)
      → (r.brpop key s).0 ≡ broken f
      → (list (r.brpop key s).1 ≡ list s)
        ⊎ ((v : String) × (list s ≡ list (r.brpop key s).1 ++ v ∷ []))
  pub llen_ok : (n : ℤ) (s : Store) → r.llen key s ≡ ok n → n ≡ pos (length (list s))
  pub unmarshal_ok : (j : Job) (p : String) → r.marshal j ≡ ok p → r.unmarshal p ≡ ok j

-- `Job{}, err` of `Dequeue`: `ErrEmpty` is an ordinary idle condition.
pub data Dequeued : Type 0 where
  got : Job → Dequeued
  empty : Dequeued
  failed : Fault → Dequeued

module _ {Store : Type 0} (r : Redis Store) where
  abbrev pub after_marshal : Store → Result String → Result (Unit {0}) × Store
  after_marshal s (err e) = (wrap "marshal job" (err e), s)
  after_marshal s (ok payload) =
      let (answer, s') = r.lpush key payload s in (wrap "enqueue" answer, s')

  unfoldable pub enqueue : Job → Store → Result (Unit {0}) × Store
  enqueue job s = after_marshal s (r.marshal job)

  -- An error that cancels nothing.
  abbrev fault_of : Error → Dequeued
  fault_of e = failed (record { error = e; canceled = false })

  abbrev pub decoded : Result Job → Dequeued
  decoded (ok job) = got job
  decoded (err e) = fault_of (record e { message = concat ("decode job: " ∷ e.message ∷ []) })

  -- BRPOP returns the key and the value.
  abbrev pub reply_value : List String → Dequeued
  reply_value (k ∷ v ∷ []) = decoded (r.unmarshal v)
  reply_value vs =
      fault_of (errorf (concat ("dequeue: unexpected reply length " ∷ show_nat (length vs) ∷ [])))

  abbrev pub dequeued : Reply → Dequeued
  dequeued timed_out = empty
  dequeued (broken f) = failed (record f {
    error = record f.error { message = concat ("dequeue: " ∷ f.error.message ∷ []) };
  })
  dequeued (values vs) = reply_value vs

  unfoldable pub dequeue : Store → Dequeued × Store
  dequeue s = let (reply, s') = r.brpop key s in (dequeued reply, s')

  unfoldable pub depth : Store → Result ℤ
  depth s = wrap "depth" (r.llen key s)
