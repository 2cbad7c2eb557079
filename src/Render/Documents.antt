-- ===== src/Render/Documents.antt =====
-- render.go: the documents of a YAML stream and their objects. A stream is its code points, valid
-- UTF-8: a byte that the source looks for is the code point of the same number.
pub mod Splitting
pub mod Decoding
use cost_risk_aware_gitops_p.Prelude.{
  ℕ, suc, Bool, true, false, not, ◌&&◌, ◌||◌, ◌==◌, leb, String, Option, none, some, List, [], ◌∷◌,
  ◌++◌, if◌then◌else◌, is_empty, concat, show_nat,
}
use cost_risk_aware_gitops_p.Results.{Error, Result, ok, err, errorf, wrap, ◌>>=◌}
use cost_risk_aware_gitops_p.Json.{Value, lookup}
use cost_risk_aware_gitops_p.Cost.Autoscaling.{Object}

abbrev pub Text : Type 0
Text = List ℕ

-- Adds to the first line.
abbrev pub push : ℕ → List Text → List Text
push c [] = (c ∷ []) ∷ []
push c (line ∷ lines) = (c ∷ line) ∷ lines

-- `bytes.Split(raw, "\n")`
unfoldable pub split_lines : Text → List Text
split_lines [] = [] ∷ []
split_lines (c ∷ cs) = let rest = split_lines cs in if c == 10 then [] ∷ rest else push c rest

-- `bytes.Join(lines, "\n")`
unfoldable pub join_lines : List Text → Text
join_lines [] = []
join_lines (line ∷ []) = line
join_lines (line ∷ next ∷ lines) = line ++ 10 ∷ join_lines (next ∷ lines)

-- `strings.TrimLeft` of the code points that pass the test, and `strings.TrimRight`.
unfoldable pub trim_left : (ℕ → Bool) → Text → Text
trim_left p [] = []
trim_left p (c ∷ cs) = if p c then trim_left p cs else c ∷ cs

unfoldable pub trim_right : (ℕ → Bool) → Text → Text
trim_right p [] = []
trim_right p (c ∷ cs) = let rest = trim_right p cs in if p c && is_empty rest then [] else c ∷ rest

-- The white space of `unicode.IsSpace`.
unfoldable pub is_space : ℕ → Bool
is_space c =
    (leb 9 c && leb c 13)
    || c == 32
    || c == 133
    || c == 160
    || c == 5760
    || (leb 8192 c && leb c 8202)
    || c == 8232
    || c == 8233
    || c == 8239
    || c == 8287
    || c == 12288

-- `bytes.TrimSpace`
unfoldable pub trim_space : Text → Text
unfolding trim_left trim_right is_space
trim_space doc = trim_right is_space (trim_left is_space doc)

-- The cutset " \t\r".
abbrev pub is_blank : ℕ → Bool
is_blank c = c == 32 || c == 9 || c == 13

abbrev pub is_dashes : Text → Bool
is_dashes (a ∷ b ∷ c ∷ []) = a == 45 && b == 45 && c == 45
is_dashes _ = false

-- `bytes.HasPrefix(line, " ") || bytes.HasPrefix(line, "\t")`
abbrev pub is_indented : Text → Bool
is_indented [] = false
is_indented (c ∷ cs) = c == 32 || c == 9

unfoldable pub is_document_separator : Text → Bool
unfolding trim_right
is_document_separator line =
    if not (is_dashes (trim_right is_blank line)) then false else not (is_indented line)

-- The loop of `splitYAMLDocuments`.
unfoldable pub split_from : (lines docs current : List Text) → List Text
unfolding join_lines is_document_separator
split_from [] docs current = docs ++ join_lines current ∷ []
split_from (line ∷ lines) docs current = elim (is_document_separator line) [
  | true ↦ split_from lines (docs ++ join_lines current ∷ []) []
  | false ↦ split_from lines docs (current ++ line ∷ [])
]

unfoldable pub split_yaml_documents : Text → List Text
unfolding split_lines split_from
split_yaml_documents raw = split_from (split_lines raw) [] []

module _ {F : Type 0} where
  abbrev pub found_objects : Option (Object F) → List (Object F)
  found_objects none = []
  found_objects (some o) = o ∷ []

  abbrev pub require_kind :
      (at_document : String) → Object F → Option (Value F) → Result (Option (Object F))
  require_kind at_document o none = err (errorf (concat (at_document ∷ " has no kind" ∷ [])))
  require_kind at_document o (some v) = ok (some o)

  -- Of a document that decoded; `none` is a nil object.
  unfoldable pub check_object :
      (at_document : String) → Option (Object F) → Result (Option (Object F))
  unfolding lookup
  check_object at_document none = ok none
  check_object at_document (some o) = require_kind at_document o (lookup "kind" o)

  -- `yaml.Unmarshal` is a parameter.
  module _ (unmarshal : Text → Result (Option (Object F))) (source : String) where
    abbrev pub document : ℕ → String
    document i = concat ("document " ∷ show_nat (suc i) ∷ " in " ∷ source ∷ [])

    -- The body of the loop of `decodeDocuments`: the object it appends, if any.
    unfoldable pub decode_document : (i : ℕ) (trimmed : Text) → Result (Option (Object F))
    unfolding check_object
    decode_document i [] = ok none
    decode_document i (c ∷ cs) =
        wrap (concat ("parse " ∷ document i ∷ [])) (unmarshal (c ∷ cs)) >>= λ found.
        check_object (document i) found

    unfoldable pub decode_from :
        (i : ℕ) (docs : List Text) (objects : List (Object F)) → Result (List (Object F))
    unfolding decode_document trim_space
    decode_from i [] objects = ok objects
    decode_from i (doc ∷ docs) objects = decode_document i (trim_space doc) >>= λ found.
        decode_from (suc i) docs (objects ++ found_objects found)

    unfoldable pub decode_documents : (raw : Text) → Result (List (Object F))
    unfolding split_yaml_documents decode_from
    decode_documents raw = decode_from 0 (split_yaml_documents raw) []
