-- ===== src/Dashboard/Status/Honesty.antt =====
-- dashboard/main.go: a tile shows a number where it was measured, and no other.
use cost_risk_aware_gitops_p.Prelude.{◌≡◌, ◌↔◌, refl, true, some, String, arith}
use cost_risk_aware_gitops_p.Prelude.Int.{ℤ, pos}
use cost_risk_aware_gitops_p.Float64.{Float64, zero_f}
use cost_risk_aware_gitops_p.Results.{Result, ok, err}
use cost_risk_aware_gitops_p.Dashboard.Demo.{demo_ns, worker_deploy, Deployment, Range, bounds}
use cost_risk_aware_gitops_p.Dashboard.Api.{queue_depth}
use cost_risk_aware_gitops_p.Dashboard.Server.{Server}
use cost_risk_aware_gitops_p.Dashboard.Status.{
  StatusResponse, StatusReads, PromReply, prom, tile, int_tile, replicas_of, min_of, max_of,
  waste_of, utilisation_of, handle_status,
}
use cost_risk_aware_gitops_p.Dashboard.Status.Sources.{
  Measures, prom-Measures, Measures-prom, HasDepth, queue_depth-HasDepth, HasDepth-queue_depth,
}

module _ {F : Type 0} ⦃fl : Float64 F⦄ where
  open fl use {sub, mul, div, lt, of_int}

  tile_iff : (r : Result F) (v : F) → ((tile r).value ≡ some v) ↔ (r ≡ ok v)
  tile_iff (ok w) v = (λ h. ground arith, λ h. ground arith)
  tile_iff (err e) v = (λ h. ground arith, λ h. ground arith)

  int_tile_iff :
      (r : Result ℤ) (v : F)
      → ((int_tile r).value ≡ some v) ↔ ((n : ℤ) × (r ≡ ok n) × (v ≡ of_int n))
  int_tile_iff (ok n) v = (λ h. (n, refl, ground arith), λ (m, e, w). ground arith)
  int_tile_iff (err e) v = (λ h. ground arith, λ (m, e, w). ground arith)

  -- Each tile shows `v` exactly where it was measured; both figures of the cost are needed for what is
  -- wasted, and a positive reservation for its share.
  pub record IsHonest (x : StatusReads F) (out : StatusResponse F) : Type 0 where
    pub replicas :
        (v : F)
        → (out.replicas.value ≡ some v)
          ↔ ((dep : Deployment) × (x.deployment ≡ ok dep) × (v ≡ of_int dep.replicas))
    pub range :
        (lo hi : F)
        → ((out.min_r.value ≡ some lo) × (out.max_r.value ≡ some hi)) ↔ (
            (r : Range) × (bounds demo_ns worker_deploy x.scaled_object ≡ ok r)
            × (lo ≡ of_int r.min_r)
            × (hi ≡ of_int r.max_r))
    pub queue :
        (v : F) → (out.queue.value ≡ some v) ↔ ((n : ℤ) × HasDepth x.depth n × (v ≡ of_int n))
    pub reserved : (v : F) → (out.reserved.value ≡ some v) ↔ Measures x.scan x.reserved v
    pub actual : (v : F) → (out.actual.value ≡ some v) ↔ Measures x.scan x.actual v
    pub waste :
        (v : F)
        → (out.waste.value ≡ some v) ↔ (
            (r : F) × (a : F) × Measures x.scan x.reserved r
            × Measures x.scan x.actual a
            × (v ≡ sub r a))
    pub utilisation :
        (v : F)
        → (out.utilisation.value ≡ some v) ↔ (
            (r : F) × (a : F) × Measures x.scan x.reserved r
            × Measures x.scan x.actual a
            × (lt zero_f r ≡ true)
            × (v ≡ mul (div a r) (of_int (pos 100))))
    pub cost_age : (v : F) → (out.cost_age_secs.value ≡ some v) ↔ Measures x.scan x.cost_age v

  waste_iff :
      (reserved actual : Result F) (v : F)
      → ((waste_of reserved actual).value ≡ some v)
        ↔ ((r : F) × (a : F) × (reserved ≡ ok r) × (actual ≡ ok a) × (v ≡ sub r a))
  waste_iff (ok r) (ok a) v =
      (λ h. (r, a, refl, refl, ground arith), λ (q, b, e, f, w). ground arith)
  waste_iff (ok r) (err e) v = (λ h. ground arith, λ (q, b, e, f, w). ground arith)
  waste_iff (err e) a v = (λ h. ground arith, λ (q, b, e, f, w). ground arith)

  utilisation_iff :
      (reserved actual : Result F) (v : F)
      → ((utilisation_of reserved actual).value ≡ some v) ↔ (
          (r : F) × (a : F) × (reserved ≡ ok r)
          × (actual ≡ ok a)
          × (lt zero_f r ≡ true)
          × (v ≡ mul (div a r) (of_int (pos 100))))
  utilisation_iff (ok r) (ok a) v =
      (λ h. (r, a, refl, refl, ground arith, ground arith), λ (q, b, e, f, g, w). ground arith)
  utilisation_iff (ok r) (err e) v = (λ h. ground arith, λ (q, b, e, f, g, w). ground arith)
  utilisation_iff (err e) a v = (λ h. ground arith, λ (q, b, e, f, g, w). ground arith)

  replicas_iff :
      (read : Result Deployment) (v : F)
      → ((int_tile (replicas_of read)).value ≡ some v)
        ↔ ((dep : Deployment) × (read ≡ ok dep) × (v ≡ of_int dep.replicas))
  replicas_iff (ok dep) v = (λ h. (dep, refl, ground arith), λ (d, e, w). ground arith)
  replicas_iff (err e) v = (λ h. ground arith, λ (d, e, w). ground arith)

  range_iff :
      (read : Result Range) (lo hi : F)
      → (((int_tile (min_of read)).value ≡ some lo) × ((int_tile (max_of read)).value ≡ some hi))
        ↔ ((r : Range) × (read ≡ ok r) × (lo ≡ of_int r.min_r) × (hi ≡ of_int r.max_r))
  range_iff (ok r) lo hi = (
    λ (h, k). (r, refl, ground arith, ground arith),
    λ (q, e, u, w). (ground arith, ground arith),
  )
  range_iff (err e) lo hi = (λ (h, k). ground arith, λ (q, e, u, w). ground arith)

  measured_iff :
      (scan : String → Result F) (read : Result PromReply) (v : F)
      → ((tile (prom scan read)).value ≡ some v) ↔ Measures scan read v
  measured_iff scan read v = (
    λ h. prom-Measures scan read v ((tile_iff (prom scan read) v).0 h),
    λ m. (tile_iff (prom scan read) v).1 (Measures-prom scan read v m),
  )

  -- Whatever could be read: a tile of the status shows a number exactly where its source answered with
  -- it. The waste is shown where both costs were measured, and is their difference; the utilisation
  -- where moreover something is reserved. What could not be read shows no number, and so never zero.
  pub handle_status-IsHonest : (x : StatusReads F) (srv : Server) → IsHonest x (handle_status x srv)
  unfolding handle_status
  handle_status-IsHonest x srv =
      let reserved = prom x.scan x.reserved in
      let actual = prom x.scan x.actual in
      record {
        replicas = replicas_iff x.deployment;
        range = range_iff (bounds demo_ns worker_deploy x.scaled_object);
        queue = λ v. (
          λ h.
              (let (n, e, w) = (int_tile_iff (queue_depth x.depth) v).0 h in
                (n, queue_depth-HasDepth x.depth n e, w)),
          λ (n, d, w).
              (int_tile_iff (queue_depth x.depth) v).1 (n, HasDepth-queue_depth x.depth n d, w),
        );
        reserved = measured_iff x.scan x.reserved;
        actual = measured_iff x.scan x.actual;
        waste = λ v. (
          λ h.
              (let (r, a, e, f, w) = (waste_iff reserved actual v).0 h in
                (r, a, prom-Measures x.scan x.reserved r e, prom-Measures x.scan x.actual a f, w)),
          λ (r, a, m, n, w).
              (waste_iff reserved actual v).1
                (r, a, Measures-prom x.scan x.reserved r m, Measures-prom x.scan x.actual a n, w),
        );
        utilisation = λ v. (
          λ h.
              (let (r, a, e, f, g, w) = (utilisation_iff reserved actual v).0 h in
                (
                  r,
                  a,
                  prom-Measures x.scan x.reserved r e,
                  prom-Measures x.scan x.actual a f,
                  g,
                  w,
                )),
          λ (r, a, m, n, g, w).
              (utilisation_iff reserved actual v).1 (
                r,
                a,
                Measures-prom x.scan x.reserved r m,
                Measures-prom x.scan x.actual a n,
                g,
                w,
              ),
        );
        cost_age = measured_iff x.scan x.cost_age;
      }
