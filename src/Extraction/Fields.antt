-- ===== src/Extraction/Fields.antt =====
-- What app/pipeline/extraction.py asks a model for, and what it keeps of the answer.
use ocr_service.Prelude.{
  ℕ, ◌&&◌, eq_iff, ◌≡◌, refl, ◌∙◌, sym, ap, String, true, Option, none, some, List, ◌∷◌, map, keep,
  ◌==◌, string_eq, arith, if◌then◌else◌, Bool-cases, Option-cases, inl, inr, All,
}
use ocr_service.Prelude.Outcome.{Outcome, ok, err, Outcome-cases}
use ocr_service.Text.{take_chars}
use ocr_service.Json
use ocr_service.Json.{Json, Dict, entry, get, keys, keep_values, IsDict}
use ocr_service.Float.{Float, IsUnit, ◌<=◌}
use ocr_service.Pipeline.Nodes.{LlmExtraction}
use ocr_service.Extraction.Coercion.{
  add_field, OutputField, Pydantic, mapping, is_value, output_fields, build_output_model,
  kept_fields, item, validated, checked, texts_of, coerce,
}
use ocr_service.Qdrant.{owner, search}
use ocr_service.Qdrant.Guard.{search-own}
use ocr_service.Extraction.Prompt.{Retrieval, retrieve_examples, search_or_none}

-- The value that a field keeps: none for a null or an empty text.
abbrev pub valued : Option Json → Option Json
valued none = none
valued (some Json.null) = none
valued (some (Json.str String.[])) = none
valued (some v) = some v

valued_if : (v : Json) → valued (some v) ≡ (if is_value v then some v else none)
valued_if Json.null = refl
valued_if (Json.bool b) = refl
valued_if (Json.num s) = refl
valued_if (Json.str String.[]) = refl
valued_if (Json.str (String.◌∷◌ c s)) = refl
valued_if (Json.arr vs) = refl
valued_if (Json.obj d) = refl

get-keep_values :
    (k : String) (d : Dict) → IsDict d → get k (keep_values is_value d) ≡ valued (get k d)
get-keep_values k Json.empty i = refl
get-keep_values k (entry j v d) i = elim (Bool-cases (j == k)) [
  | inr f ↦ rw f (ground (arith, get-keep_values k d i.1))
  | inl f ↦ rw (f, valued_if v) (ground (arith, get-keep_values k d i.1, eq_iff j k, i.0))
]

module _ {F : Type 0} ⦃fl : Float F⦄ where
  -- What becomes of an answer that is no `LLMExtraction`.
  pub record Coerced (answer : Dict) (e : LlmExtraction F) : Type 0 where
    pub kept :
        (fields : Dict)
        → get "fields" answer ≡ some (Json.obj fields)
        → IsDict fields
        → (k : String) → get k e.fields ≡ valued (get k fields)
    pub unit : IsUnit e.confidence

module _ {F : Type 0} ⦃fl : Float F⦄ (py : Pydantic F) where
  checked-ok :
      (fields : Dict) (c : F) (low missing : Option (List String)) (e : LlmExtraction F)
      → checked fields c low missing ≡ ok e
      → (e.fields ≡ fields) × IsUnit e.confidence
  checked-ok fields c none missing e h = absurd (ground arith)
  checked-ok fields c (some low) none e h = absurd (ground arith)
  checked-ok fields c (some low) (some missing) e h =
      elim (Bool-cases (fl.ratio 0 1 <= c && c <= fl.ratio 1 1)) [
        | inr f ↦ absurd (ground arith)
        | inl f ↦ unfold_checked f (rw f at h)
      ]
    where
      unfold_checked :
          (fl.ratio 0 1 <= c && c <= fl.ratio 1 1) ≡ true
          → ◌≡◌ {A = Outcome String (LlmExtraction F)}
              (ok (record {
                fields = fields;
                confidence = c;
                low_confidence_fields = low;
                missing_fields = missing;
              }))
              (ok e)
          → (e.fields ≡ fields) × IsUnit e.confidence
      unfold_checked f g = ground arith

  validated-ok :
      (fields : Outcome String Dict) (c : Outcome String F)
      (low missing : Outcome String (List Json)) (e : LlmExtraction F)
      → validated fields c low missing ≡ ok e
      → (fields ≡ ok e.fields) × IsUnit e.confidence
  validated-ok (err m) c low missing e h = absurd (ground arith)
  validated-ok (ok fields) (err m) low missing e h = absurd (ground arith)
  validated-ok (ok fields) (ok c) (err m) missing e h = absurd (ground arith)
  validated-ok (ok fields) (ok c) (ok low) (err m) e h = absurd (ground arith)
  validated-ok (ok fields) (ok c) (ok low) (ok missing) e h =
      let (f, u) = checked-ok fields c (texts_of low) (texts_of missing) e h in (ap ok (sym f), u)

  kept_fields-ok :
      (answer fields d : Dict)
      → get "fields" answer ≡ some (Json.obj fields)
      → kept_fields py (item "fields" answer) ≡ ok d
      → keep_values is_value fields ≡ d
  kept_fields-ok answer fields d g h = ok_dict (rw g at h)
    where
      ok_dict :
          ◌≡◌ {A = Outcome String Dict} (ok (keep_values is_value fields)) (ok d)
          → keep_values is_value fields ≡ d
      ok_dict h = ground arith

  -- An answer that is no `LLMExtraction` and is accepted: the fields are those of the answer without
  -- the nulls and the empty texts, and the confidence is in [0, 1].
  pub coerce-Coerced :
      (answer : Dict) (e : LlmExtraction F) → coerce py (mapping answer) ≡ ok e → Coerced answer e
  unfolding coerce
  coerce-Coerced answer e h =
      let (f, u) = validated-ok _ _ _ _ e h in
      record {
        kept = λ fields g i k.
            rw (← kept_fields-ok answer fields e.fields g f) (get-keep_values k fields i);
        unit = u;
      }

  Named : Outcome String (List OutputField) → List String → Type 0
  Named (ok fields) names = map (λ f. f.name) fields ≡ names
  Named (err message) names = Unit

  add_field-Named :
      (name : String) (spec : Json) (rest : Outcome String (List OutputField)) (names : List String)
      → Named rest names
      → Named (add_field py name spec rest) (name ∷ names)
  unfolding Named
  add_field-Named name (Json.obj spec) (ok fields) names h = ap (λ ns. name ∷ ns) h
  add_field-Named name (Json.obj spec) (err message) names h = tt
  add_field-Named name Json.null rest names h = tt
  add_field-Named name (Json.bool b) rest names h = tt
  add_field-Named name (Json.num n) rest names h = tt
  add_field-Named name (Json.str t) rest names h = tt
  add_field-Named name (Json.arr vs) rest names h = tt

  output_fields-Named :
      (properties : Dict)
      → Named (output_fields py properties) (keep py.is_identifier (keys properties))
  unfolding output_fields Named
  output_fields-Named Json.empty = refl
  output_fields-Named (entry name spec properties) = elim (Bool-cases (py.is_identifier name)) [
    | inr f ↦ rw f (output_fields-Named properties)
    | inl f ↦ rw f (add_field-Named name spec _ _ (output_fields-Named properties))
  ]

  Named-ok :
      (o : Outcome String (List OutputField)) (names : List String) (fields : List OutputField)
      → Named o names
      → o ≡ ok fields
      → map (λ f. f.name) fields ≡ names
  unfolding Named
  Named-ok o names fields n h = rw h at n

  -- A model is asked for the properties of the schema whose names are identifiers, in order, and for
  -- no others.
  pub build_output_model_names :
      (json_schema properties : Dict) (fields : List OutputField)
      → get "properties" json_schema ≡ some (Json.obj properties)
      → build_output_model py json_schema ≡ ok fields
      → map (λ f. f.name) fields ≡ keep py.is_identifier (keys properties)
  unfolding build_output_model
  build_output_model_names json_schema properties fields g h =
      elim (Outcome-cases (output_fields py properties)) [
        | inr (message, o) ↦ absurd (ground arith)
        | inl (fs, o) ↦ (elim (Option-cases (py.create_model fs)) [
          | inr (message, c) ↦ absurd (ground arith)
          | inl c ↦
              Named-ok (output_fields py properties) _ fields (output_fields-Named properties)
                (o ∙ (rw (build_output_model, g, o, c) at h))
        ])
      ]

module _ {V : Type 0} (r : Retrieval V) (show : Json → String) where
  -- Whatever the embedder and the vector store answer, every example that is retrieved for the prompt
  -- belongs to the tenant.
  pub retrieve_examples_own :
      (tenant_id schema_id text : String) (limit : ℕ)
      → All
          (λ p. owner show p ≡ tenant_id)
          (retrieve_examples r show tenant_id schema_id text limit)
  unfolding retrieve_examples
  retrieve_examples_own tenant_id schema_id text limit =
      elim (Outcome-cases (r.embed (take_chars 8000 text))) [
        | inr (message, e) ↦ rw (retrieve_examples, e) tt
        | inl (vector, e) ↦
            (elim (Outcome-cases (search show (r.query vector) tenant_id schema_id limit)) [
              | inr (f, s) ↦ rw (retrieve_examples, e, search_or_none, s) tt
              | inl (payloads, s) ↦
                  rw (retrieve_examples, e, search_or_none, s)
                    ((search-own show (r.query vector) tenant_id schema_id limit payloads s).2)
            ])
      ]
