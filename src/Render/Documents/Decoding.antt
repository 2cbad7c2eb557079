-- ===== src/Render/Documents/Decoding.antt =====
-- render.go: what `decodeDocuments` returns.
use cost_risk_aware_gitops_p.Prelude.{
  ◌≡◌, ◌≢◌, refl, sym, ap, subst, ◌∙◌, ◌↔◌, ◌⊎◌, inl, inr, ℕ, suc, String, Option, none, some, List,
  [], ◌∷◌, ◌++◌, arith,
}
use mathlib.Core.List.{append-nil, append_assoc}
use cost_risk_aware_gitops_p.Results.{Result, ok, wrap, bind_ok, wrap_ok, ok_inj}
use cost_risk_aware_gitops_p.Json.{Value, lookup}
use cost_risk_aware_gitops_p.Cost.Autoscaling.{Object}
use cost_risk_aware_gitops_p.Render.Documents.{
  Text, require_kind, found_objects, trim_space, check_object, decode_document, decode_from,
  decode_documents, split_yaml_documents,
}

module _ {F : Type 0} (unmarshal : Text → Result (Option (Object F))) (source : String) where
  -- A document that is blank, or that decodes to nil, as one of comments does.
  pub IsEmpty : Text → Type 0
  IsEmpty doc = (trim_space doc ≡ []) ⊎ (unmarshal (trim_space doc) ≡ ok none)

  -- A document that decodes to an object that has a kind.
  pub IsOf : Text → Object F → Type 0
  IsOf doc o =
      (trim_space doc ≢ [])
      × (unmarshal (trim_space doc) ≡ ok (some o))
      × ((v : Value F) × (lookup "kind" o ≡ some v))

  -- The objects are those of the documents, in their order.
  pub AreOf : List Text → List (Object F) → Type 0
  AreOf [] objects = objects ≡ []
  AreOf (doc ∷ docs) objects =
      (IsEmpty doc × AreOf docs objects)
      ⊎ ((o : Object F) × (rest : List (Object F)) × (objects ≡ o ∷ rest)
          × IsOf doc o
          × AreOf docs rest)

  require_kind-some :
      (at_document : String) (x o : Object F) (kind : Option (Value F))
      → require_kind at_document x kind ≡ ok (some o)
      → (x ≡ o) × ((v : Value F) × (kind ≡ some v))
  require_kind-some at_document x o none h = ground arith
  require_kind-some at_document x o (some v) h = (ground arith, (v, refl))

  check_object-some :
      (at_document : String) (found : Option (Object F)) (o : Object F)
      → check_object at_document found ≡ ok (some o)
      → (found ≡ some o) × ((v : Value F) × (lookup "kind" o ≡ some v))
  unfolding check_object
  check_object-some at_document none o h = ground arith
  check_object-some at_document (some x) o h =
      let (e, (v, k)) = require_kind-some at_document x o (lookup "kind" x) h in
      (ap some e, (v, ap (λ y. lookup "kind" y) (sym e) ∙ k))

  check_object-none :
      (at_document : String) (found : Option (Object F))
      → check_object at_document found ≡ ok none
      → found ≡ none
  unfolding check_object
  check_object-none at_document none h = refl
  check_object-none at_document (some x) h = ground arith

  decode_document-some :
      (i : ℕ) (t : Text) (o : Object F)
      → decode_document unmarshal source i t ≡ ok (some o)
      → (t ≢ []) × (unmarshal t ≡ ok (some o)) × ((v : Value F) × (lookup "kind" o ≡ some v))
  unfolding decode_document
  decode_document-some i [] o h = ground arith
  decode_document-some i (c ∷ cs) o h =
      let (x, w, k) = bind_ok (wrap _ (unmarshal (c ∷ cs))) (check_object _) (some o) h in
      let (e, v) = check_object-some _ x o k in
      (λ z. ground arith, wrap_ok _ (unmarshal (c ∷ cs)) x w ∙ ap ok e, v)

  decode_document-none :
      (i : ℕ) (t : Text)
      → decode_document unmarshal source i t ≡ ok none
      → (t ≡ []) ⊎ (unmarshal t ≡ ok none)
  unfolding decode_document
  decode_document-none i [] h = inl refl
  decode_document-none i (c ∷ cs) h =
      let (x, w, k) = bind_ok (wrap _ (unmarshal (c ∷ cs))) (check_object _) none h in
      inr (wrap_ok _ (unmarshal (c ∷ cs)) x w ∙ ap ok (check_object-none _ x k))

  -- The other direction: what the documents hold is returned.
  decode_document-empty :
      (i : ℕ) (t : Text)
      → (t ≡ []) ⊎ (unmarshal t ≡ ok none)
      → decode_document unmarshal source i t ≡ ok none
  unfolding decode_document check_object
  decode_document-empty i [] e = refl
  decode_document-empty i (c ∷ cs) (inl e) = ground arith
  decode_document-empty i (c ∷ cs) (inr e) = rw e refl

  decode_document-object :
      (i : ℕ) (t : Text) (o : Object F) (v : Value F)
      → t ≢ []
      → unmarshal t ≡ ok (some o)
      → lookup "kind" o ≡ some v
      → decode_document unmarshal source i t ≡ ok (some o)
  unfolding decode_document check_object
  decode_document-object i [] o v n e k = ground arith
  decode_document-object i (c ∷ cs) o v n e k = rw (e, k) refl

  decode_from-returns :
      (i : ℕ) (docs : List Text) (acc objects : List (Object F))
      → AreOf docs objects
      → decode_from unmarshal source i docs acc ≡ ok (acc ++ objects)
  unfolding decode_from AreOf IsEmpty IsOf
  decode_from-returns i [] acc objects e = ap ok (sym (append-nil acc) ∙ ap (λ r. acc ++ r) (sym e))
  decode_from-returns i (doc ∷ docs) acc objects (inl (e, a)) =
      rw (decode_document-empty i (trim_space doc) e, append-nil acc)
        (decode_from-returns (suc i) docs acc objects a)
  decode_from-returns i (doc ∷ docs) acc objects (inr (o, rest, e, (n, u, (v, k)), a)) =
      rw (decode_document-object i (trim_space doc) o v n u k, e)
        (decode_from-returns (suc i) docs (acc ++ o ∷ []) rest a
          ∙ ap ok (append_assoc acc (o ∷ []) rest))

  AreOf-add :
      (i : ℕ) (doc : Text) (docs : List Text) (found : List (Object F)) (step : Option (Object F))
      → decode_document unmarshal source i (trim_space doc) ≡ ok step
      → AreOf docs found
      → AreOf (doc ∷ docs) (found_objects step ++ found)
  unfolding AreOf IsEmpty IsOf
  AreOf-add i doc docs found none e a = inl (decode_document-none i (trim_space doc) e, a)
  AreOf-add i doc docs found (some o) e a =
      inr (o, found, refl, decode_document-some i (trim_space doc) o e, a)

  -- The loop from any of its rounds.
  decode_from-AreOf :
      (i : ℕ) (docs : List Text) (acc objects : List (Object F))
      → decode_from unmarshal source i docs acc ≡ ok objects
      → (found : List (Object F)) × (objects ≡ acc ++ found) × AreOf docs found
  unfolding decode_from AreOf IsEmpty IsOf
  decode_from-AreOf i [] acc objects h =
      ([], ok_inj objects acc (sym h) ∙ sym (append-nil acc), refl)
  decode_from-AreOf i (doc ∷ docs) acc objects h =
      let d = decode_document unmarshal source i (trim_space doc) in
      let rest : Option (Object F) → Result (List (Object F)) =
        λ found. decode_from unmarshal source (suc i) docs (acc ++ found_objects found) in
      let (step, e, k) = bind_ok d rest objects h in
      let (found, eq, a) = decode_from-AreOf (suc i) docs (acc ++ found_objects step) objects k in
      (
        found_objects step ++ found,
        eq ∙ append_assoc acc (found_objects step) found,
        AreOf-add i doc docs found step e a,
      )

  -- `decodeDocuments` returns objects exactly where they are those of the stream's documents, in
  -- their order: each document is blank or decodes to nil, and adds none, or decodes to an object
  -- that has a kind, and adds that object.
  pub decode_documents_iff :
      (raw : Text) (objects : List (Object F))
      → (decode_documents unmarshal source raw ≡ ok objects)
        ↔ AreOf (split_yaml_documents raw) objects
  unfolding decode_documents
  decode_documents_iff raw objects = (
    λ h.
        let (found, e, a) = decode_from-AreOf 0 (split_yaml_documents raw) [] objects h in
        subst (AreOf (split_yaml_documents raw)) (sym e) a,
    λ a. decode_from-returns 0 (split_yaml_documents raw) [] objects a,
  )
