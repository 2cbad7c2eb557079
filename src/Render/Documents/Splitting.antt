-- ===== src/Render/Documents/Splitting.antt =====
-- render.go: `splitYAMLDocuments` undoes the writing of a stream.
use cost_risk_aware_gitops_p.Prelude.{
  ◌≡◌, refl, sym, ap, ◌∙◌, true, false, ◌==◌, List, [], ◌∷◌, ◌++◌, map, All, All-append,
}
use mathlib.Core.List.{append-nil, append_assoc}
use cost_risk_aware_gitops_p.Render.Documents.{
  Text, split_lines, join_lines, trim_right, is_document_separator, split_from,
  split_yaml_documents,
}

-- A line of a document: it has no line break, and it separates no documents.
abbrev pub IsLine : Text → Type 0
IsLine line = All (λ c. (c == 10) ≡ false) line

abbrev pub IsContent : Text → Type 0
IsContent line = IsLine line × (is_document_separator line ≡ false)

-- A separator and the document below it.
pub record Section : Type 0 where
  pub separator : Text
  pub lines : List Text

abbrev pub IsSection : Section → Type 0
IsSection s =
    IsLine s.separator × (is_document_separator s.separator ≡ true) × All IsContent s.lines

-- The lines of a stream.
abbrev pub stream : List Text → List Section → List Text
stream first [] = first
stream first (s ∷ more) = first ++ s.separator ∷ stream s.lines more

split_lines-line : (line : Text) → IsLine line → split_lines line ≡ line ∷ []
unfolding split_lines
split_lines-line [] l = refl
split_lines-line (c ∷ cs) (l, ls) = rw (split_lines-line cs ls, l) refl

split_lines-append :
    (line rest : Text) → IsLine line → split_lines (line ++ 10 ∷ rest) ≡ line ∷ split_lines rest
unfolding split_lines
split_lines-append [] rest l = refl
split_lines-append (c ∷ cs) rest (l, ls) = rw (split_lines-append cs rest ls, l) refl

split_lines-join :
    (line : Text) (lines : List Text)
    → All IsLine (line ∷ lines)
    → split_lines (join_lines (line ∷ lines)) ≡ line ∷ lines
unfolding join_lines
split_lines-join line [] (l, ls) = split_lines-line line l
split_lines-join line (next ∷ lines) (l, ls) =
    split_lines-append line (join_lines (next ∷ lines)) l
    ∙ ap (λ r. line ∷ r) (split_lines-join next lines ls)

-- One round of the loop.
split_from-line :
    (line : Text) (lines docs current : List Text)
    → is_document_separator line ≡ false
    → split_from (line ∷ lines) docs current ≡ split_from lines docs (current ++ line ∷ [])
unfolding split_from
split_from-line line lines docs current n =
    ap
      (λ b. elim b [
        | true ↦ split_from lines (docs ++ join_lines current ∷ []) []
        | false ↦ split_from lines docs (current ++ line ∷ [])
      ])
      n

split_from-separator :
    (line : Text) (lines docs current : List Text)
    → is_document_separator line ≡ true
    → split_from (line ∷ lines) docs current ≡ split_from lines (docs ++ join_lines current ∷ []) []
unfolding split_from
split_from-separator line lines docs current b =
    ap
      (λ b. elim b [
        | true ↦ split_from lines (docs ++ join_lines current ∷ []) []
        | false ↦ split_from lines docs (current ++ line ∷ [])
      ])
      b

-- The loop over a written stream.
split_from-content :
    (content rest docs current : List Text)
    → All IsContent content
    → split_from (content ++ rest) docs current ≡ split_from rest docs (current ++ content)
unfolding split_from
split_from-content [] rest docs current c = ap (split_from rest docs) (sym (append-nil current))
split_from-content (line ∷ lines) rest docs current ((l, n), cs) =
    split_from-line line (lines ++ rest) docs current n
    ∙ split_from-content lines rest docs (current ++ line ∷ []) cs
    ∙ ap (split_from rest docs) (append_assoc current (line ∷ []) lines)

split_from-stream :
    (first : List Text) (more : List Section) (docs current : List Text)
    → All IsContent first
    → All IsSection more
    → split_from (stream first more) docs current
      ≡ docs ++ join_lines (current ++ first) ∷ map (λ s. join_lines s.lines) more
unfolding split_from
split_from-stream first [] docs current f m =
    ap (λ ls. split_from ls docs current) (sym (append-nil first))
    ∙ split_from-content first [] docs current f
split_from-stream first (s ∷ more) docs current f ((l, b, c), ms) =
    split_from-content first (s.separator ∷ stream s.lines more) docs current f
    ∙ split_from-separator s.separator (stream s.lines more) docs (current ++ first) b
    ∙ split_from-stream s.lines more (docs ++ join_lines (current ++ first) ∷ []) [] c ms
    ∙ append_assoc docs (join_lines (current ++ first) ∷ [])
        (join_lines s.lines ∷ map (λ t. join_lines t.lines) more)

All-IsLine : (lines : List Text) → All IsContent lines → All IsLine lines
All-IsLine [] c = tt
All-IsLine (line ∷ lines) ((l, n), cs) = (l, All-IsLine lines cs)

stream-IsLine :
    (first : List Text) (more : List Section)
    → All IsContent first
    → All IsSection more
    → All IsLine (stream first more)
stream-IsLine first [] f m = All-IsLine first f
stream-IsLine first (s ∷ more) f ((l, b, c), ms) =
    All-append IsLine first (s.separator ∷ stream s.lines more) (All-IsLine first f)
      (l, stream-IsLine s.lines more c ms)

-- A stream of no line is written as one empty line, and is one document either way.
split_yaml_documents-join :
    (lines : List Text)
    → All IsLine lines
    → split_yaml_documents (join_lines lines) ≡ split_from lines [] []
unfolding split_yaml_documents split_lines join_lines split_from is_document_separator trim_right
split_yaml_documents-join [] l = refl
split_yaml_documents-join (line ∷ lines) l =
    ap (λ ls. split_from ls [] []) (split_lines-join line lines l)

-- Where no line of a document holds a line break or is a separator, and each separator is one,
-- splitting the stream that is written of a first document and of the others, each below its
-- separator, gives back the text of every document, in their order.
pub split_yaml_documents-stream :
    (first : List Text) (more : List Section)
    → All IsContent first
    → All IsSection more
    → split_yaml_documents (join_lines (stream first more))
      ≡ join_lines first ∷ map (λ s. join_lines s.lines) more
split_yaml_documents-stream first more f m =
    split_yaml_documents-join (stream first more) (stream-IsLine first more f m)
    ∙ split_from-stream first more [] [] f m
