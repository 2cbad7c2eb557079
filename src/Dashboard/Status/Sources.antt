-- ===== src/Dashboard/Status/Sources.antt =====
-- dashboard/kube.go and demo.go: what it takes to have read a figure.
use cost_risk_aware_gitops_p.Prelude.{
  ◌≡◌, refl, true, false, leb, str_eq, eq_iff, String, List, [], ◌∷◌, arith,
}
use cost_risk_aware_gitops_p.Prelude.Int.{ℤ}
use cost_risk_aware_gitops_p.Results.{Result, ok, err}
use cost_risk_aware_gitops_p.Dashboard.Api.{Reply, queue_depth}
use cost_risk_aware_gitops_p.Dashboard.Status.{PromReply, first_value, prom}

-- Prometheus answered with a first value that is a number.
pub record Measures {F : Type 0} (scan : String → Result F) (read : Result PromReply) (v : F)
    : Type 0 where
  pub reply : PromReply
  pub answered : read ≡ ok reply
  pub succeeded : reply.status ≡ "success"
  pub first : String
  pub others : List (Result String)
  pub has_first : reply.values ≡ ok first ∷ others
  pub scanned : scan first ≡ ok v

module _ {F : Type 0} (scan : String → Result F) where
  values-Measures :
      (reply : PromReply) (vs : List (Result String)) (v : F)
      → reply.values ≡ vs
      → str_eq reply.status "success" ≡ true
      → first_value scan vs ≡ ok v
      → Measures scan (ok reply) v
  values-Measures reply [] v e s h = ground arith
  values-Measures reply (err x ∷ vs) v e s h = ground arith
  values-Measures reply (ok t ∷ vs) v e s h = record {
    reply = reply;
    answered = refl;
    succeeded = (eq_iff reply.status "success").0 s;
    first = t;
    others = vs;
    has_first = e;
    scanned = h;
  }

  pub prom-Measures :
      (read : Result PromReply) (v : F) → prom scan read ≡ ok v → Measures scan read v
  unfolding prom
  prom-Measures (err e) v h = ground arith
  prom-Measures (ok reply) v h =
      values-Measures reply reply.values v refl (ground arith) (ground arith)

  pub Measures-prom :
      (read : Result PromReply) (v : F) → Measures scan read v → prom scan read ≡ ok v
  unfolding prom
  Measures-prom read v m =
      let good = (eq_iff m.reply.status "success").1 m.succeeded in
      rw (m.answered, good, m.has_first, m.scanned) refl

-- The demo API answered with a depth.
pub record HasDepth (read : Result Reply) (n : ℤ) : Type 0 where
  pub reply : Reply
  pub answered : read ≡ ok reply
  pub succeeded : leb 300 reply.status_code ≡ false
  pub decoded : reply.body ≡ ok n

pub queue_depth-HasDepth : (read : Result Reply) (n : ℤ) → queue_depth read ≡ ok n → HasDepth read n
unfolding queue_depth
queue_depth-HasDepth (err e) n h = ground arith
queue_depth-HasDepth (ok reply) n h = record {
  reply = reply;
  answered = refl;
  succeeded = ground arith;
  decoded = ground arith;
}

pub HasDepth-queue_depth : (read : Result Reply) (n : ℤ) → HasDepth read n → queue_depth read ≡ ok n
unfolding queue_depth
HasDepth-queue_depth read n m = rw (m.answered, m.succeeded) m.decoded
