-- ===== src/App/Api/Request.antt =====
-- api/main.go: what `handleEnqueue` reads of a request, and its bounds.
use cost_risk_aware_gitops_p.Prelude.{
  ◌≡◌, refl, subst, ℕ, ◌≤◌, arith, ◌||◌, str_eq, if◌then◌else◌, String, Option, none, some, [], ◌∷◌,
  concat, show_int, atoi,
}
use cost_risk_aware_gitops_p.Prelude.Int.{ℤ, pos, negsuc, ◌≤ℤ◌, eqb_ℤ, ltb_ℤ}
use cost_risk_aware_gitops_p.Results.{
  Result, ok, err, errorf, ◌>>=◌, ◌>>◌, refuse_if, bind_ok, then_ok, ok_inj,
}

abbrev pub max_job_duration_ms : ℤ
max_job_duration_ms = pos 60000

abbrev pub default_job_duration_ms : ℤ
default_job_duration_ms = pos 250

pub record EnqueueRequest : Type 0 where
  pub duration_ms : ℤ
  pub count : ℤ

-- `*http.Request`: `decode` is `encoding/json` on the body, of 4096 bytes at most, into the value
-- that it is given, and `query` is the first value of a parameter, or "".
pub record Request : Type 0 where
  pub content_length : ℤ
  pub decode : EnqueueRequest → Result EnqueueRequest
  pub query : String → String

abbrev pub default_request : EnqueueRequest
default_request = record { duration_ms = default_job_duration_ms; count = pos 1 }

abbrev decoded_body : Result EnqueueRequest → Result EnqueueRequest
decoded_body (ok req) = ok req
decoded_body (err e) = err (errorf (concat ("invalid request body: " ∷ e.message ∷ [])))

unfoldable pub read_body : Request → Result EnqueueRequest
read_body r =
    if eqb_ℤ r.content_length (pos 0)
    then ok default_request
    else decoded_body (r.decode default_request)

abbrev integer_or : (message : String) → Option ℤ → Result ℤ
integer_or message none = err (errorf message)
integer_or message (some n) = ok n

-- A parameter that is given overrides the field.
unfoldable pub override : (name v : String) (field : ℤ) → Result ℤ
unfolding atoi
override name v field =
    if str_eq v ""
    then ok field
    else integer_or (concat (name ∷ " must be an integer" ∷ [])) (atoi v)

unfoldable pub check_bounds : EnqueueRequest → Result (Unit {0})
check_bounds req = do
  refuse_if (ltb_ℤ req.duration_ms (pos 0) || ltb_ℤ max_job_duration_ms req.duration_ms)
      (concat ("duration_ms must be between 0 and " ∷ show_int max_job_duration_ms ∷ []))
  refuse_if (ltb_ℤ req.count (pos 1) || ltb_ℤ (pos 10000) req.count)
      "count must be between 1 and 10000"

-- The request, or the message of a 400.
unfoldable pub read_request : Request → Result EnqueueRequest
unfolding read_body override check_bounds
read_request r = do
  body ← read_body r
  duration_ms ← override "duration_ms" (r.query "duration_ms") body.duration_ms
  count ← override "count" (r.query "count") body.count
  check_bounds (record { duration_ms = duration_ms; count = count })
  ok (record { duration_ms = duration_ms; count = count })

-- The bounds that `handleEnqueue` checks.
pub record InBounds (req : EnqueueRequest) : Type 0 where
  pub lowest : pos 0 ≤ℤ req.duration_ms
  pub highest : req.duration_ms ≤ℤ max_job_duration_ms
  pub jobs : ℕ
  pub counted : req.count ≡ pos jobs
  pub some_job : 1 ≤ jobs
  pub most : jobs ≤ 10000

check_bounds-InBounds :
    (d : ℤ) (c : ℤ)
    → check_bounds (record { duration_ms = d; count = c }) ≡ ok tt
    → InBounds (record { duration_ms = d; count = c })
unfolding check_bounds
check_bounds-InBounds d (pos c) h = record {
  lowest = ground arith;
  highest = ground arith;
  jobs = c;
  counted = refl;
  some_job = ground arith;
  most = ground arith;
}
check_bounds-InBounds d (negsuc c) h = ground arith

pub read_request-InBounds :
    (r : Request) (req : EnqueueRequest) → read_request r ≡ ok req → InBounds req
unfolding read_request
read_request-InBounds r req h =
    let (body, b, h1) = bind_ok (read_body r) _ req h in
    let (d, e, h2) =
      bind_ok (override "duration_ms" (r.query "duration_ms") body.duration_ms) _ req h1 in
    let (c, f, h3) = bind_ok (override "count" (r.query "count") body.count) _ req h2 in
    let (checked, h4) = then_ok (check_bounds (record { duration_ms = d; count = c })) _ req h3 in
    subst InBounds (ok_inj (record { duration_ms = d; count = c }) req h4)
      (check_bounds-InBounds d c checked)
