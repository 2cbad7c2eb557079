-- ===== src/Exporter/Prometheus.antt =====
-- exporter/internal/promapi/client.go: an instant query and its samples.
use cost_risk_aware_gitops_p.Prelude.{
  ℕ, not, str_eq, if◌then◌else◌, String, List, [], ◌∷◌, concat, quote, show_nat,
}
use cost_risk_aware_gitops_p.Results.{Result, ok, wrap, ◌>>=◌, ◌>>◌, refuse_if}

abbrev pub Labels : Type 0
Labels = List (String × String)

-- A key that is missing reads as "".
unfoldable pub label : String → Labels → String
label k [] = ""
label k ((j, v) ∷ ls) = if str_eq j k then v else label k ls

pub record Sample (F : Type 0) : Type 0 where
  pub labels : Labels
  pub value : F

-- An element of the result: its labels, and the second part of its value, as a string.
pub record Item : Type 0 where
  pub metric : Labels
  pub raw_value : Result String

pub record QueryResponse : Type 0 where
  pub status : String
  pub result_type : String
  pub result : List Item
  pub error_type : String
  pub error : String

-- The server behind the client: the status and the decoded body of a GET, an error where the request
-- cannot be built or made, and `url.Values.Encode` and `strconv.ParseFloat`.
pub record Http (F : Type 0) : Type 0 where
  pub build : (url : String) → Result String
  pub get : (request : String) → Result (ℕ × Result QueryResponse)
  pub encode : (name value : String) → String
  pub parse_float : String → Result F

module _ {F : Type 0} (http : Http F) where
  unfoldable pub sample_of : Item → Result (Sample F)
  sample_of item = do
    raw ← wrap "decode sample value" item.raw_value
    v ← wrap (concat ("parse sample value " ∷ quote raw ∷ [])) (http.parse_float raw)
    ok (record { labels = item.metric; value = v })

  unfoldable pub samples_of : List Item → Result (List (Sample F))
  unfolding sample_of
  samples_of [] = ok []
  samples_of (item ∷ items) = do s ← sample_of item; ss ← samples_of items; ok (s ∷ ss)

  unfoldable pub check_response : QueryResponse → Result (List (Sample F))
  unfolding samples_of
  check_response parsed = do
    refuse_if (not (str_eq parsed.status "success")) (
        concat (
          "prometheus returned " ∷ parsed.status ∷ ": " ∷ parsed.error ∷ " (" ∷ parsed.error_type
          ∷ ")" ∷ []))
    refuse_if (not (str_eq parsed.result_type "vector"))
        (concat ("expected a vector result, got " ∷ quote parsed.result_type ∷ []))
    samples_of parsed.result

  abbrev parsed_body : ℕ × Result QueryResponse → Result QueryResponse
  parsed_body (status_code, body) =
      wrap (concat ("decode prometheus response (HTTP " ∷ show_nat status_code ∷ ")" ∷ [])) body

  -- `Query` of a client at a base URL.
  unfoldable pub query : (base_url text : String) → Result (List (Sample F))
  unfolding check_response
  query base_url text = do
    req ←
        wrap "build query request"
          (http.build (concat (base_url ∷ "/api/v1/query?" ∷ http.encode "query" text ∷ [])))
    resp ← wrap "query prometheus" (http.get req)
    parsed ← parsed_body resp
    check_response parsed
