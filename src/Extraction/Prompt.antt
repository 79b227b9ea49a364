-- ===== src/Extraction/Prompt.antt =====
-- app/pipeline/prompts.py. The embedder, the query of the vector store, `json.dumps(v, indent=2)`
-- and `str` are parameters.
use ocr_service.Prelude.{ℕ, suc, String, List, [], ◌∷◌, ◌++◌}
use ocr_service.Prelude.Outcome.{Outcome, ok, err}
use ocr_service.Text.{append, take_chars}
use ocr_service.Json.{Json, Dict, get}
use ocr_service.Json
use ocr_service.Json.Values.{or_else}
use ocr_service.Qdrant.{FieldCondition, search}

-- Python's texts of values.
pub record Printer : Type 0 where
  pub dumps : Json → String
  pub show : Json → String
  pub decimal : ℕ → String

-- `sep.join(texts)`
abbrev pub join : String → List String → String
join sep [] = ""
join sep (s ∷ []) = s
join sep (s ∷ t ∷ texts) = append s (append sep (join sep (t ∷ texts)))

-- The text of each call of `append` one after the other.
abbrev pub concat : List String → String
concat [] = ""
concat (s ∷ texts) = append s (concat texts)

-- What the retrieval takes from the embedder and the client: `err` is an exception.
pub record Retrieval (V : Type 0) : Type 0 where
  pub embed : String → Outcome String V
  pub query : V → List FieldCondition → ℕ → List Dict

module _ {V : Type 0} (r : Retrieval V) (show : Json → String) where
  abbrev pub search_or_none : String → String → ℕ → Outcome String V → List Dict
  search_or_none tenant_id schema_id limit (err message) = []
  search_or_none tenant_id schema_id limit (ok vector) =
      elim (search show (r.query vector) tenant_id schema_id limit) [
        | ok payloads ↦ payloads
        | err e ↦ []
      ]

  -- `retrieve_examples`
  unfoldable pub retrieve_examples : String → String → String → ℕ → List Dict
  unfolding search
  retrieve_examples tenant_id schema_id text limit =
      search_or_none tenant_id schema_id limit (r.embed (take_chars 8000 text))

module _ (p : Printer) where
  abbrev pub example_parts : ℕ → List Dict → List String
  example_parts i [] = []
  example_parts i (ex ∷ examples) =
      concat (
        "\nExample "
        ∷ p.decimal i
        ∷ " input:\n"
        ∷ take_chars 500 (p.show (or_else (Json.str "") (get "input_text" ex)))
        ∷ [])
      ∷ concat (
          "Example "
          ∷ p.decimal i
          ∷ " output:\n"
          ∷ p.dumps (or_else (Json.obj Json.empty) (get "expected_json" ex))
          ∷ [])
      ∷ example_parts (suc i) examples

  abbrev pub required_parts : List String → List String
  required_parts [] = []
  required_parts (f ∷ fields) = "" ∷ append "Required fields: " (join ", " (f ∷ fields)) ∷ []

  abbrev pub examples_parts : List Dict → List String
  examples_parts [] = []
  examples_parts (ex ∷ examples) =
      "" ∷ "Here are labelled examples from similar documents:" ∷ example_parts 1 (ex ∷ examples)

  abbrev pub head_parts : String → Dict → List String
  head_parts schema_name json_schema =
      concat
        ("You are an expert at extracting structured data from " ∷ schema_name ∷ " documents." ∷ [])
      ∷ append "Extract the fields defined by this JSON Schema. Return values as strings; "
          "use null for fields you cannot find. Report your own confidence in [0,1]."
      ∷ ""
      ∷ "JSON Schema:"
      ∷ p.dumps (Json.obj json_schema)
      ∷ []

  abbrev pub tail_parts : String → List String
  tail_parts text = "" ∷ "Now extract from this document:" ∷ "---" ∷ text ∷ "---" ∷ []

  -- `build_extraction_prompt`
  unfoldable pub build_extraction_prompt : String → String → Dict → List String → List Dict → String
  unfolding append
  build_extraction_prompt text schema_name json_schema required_fields examples = join "\n" (
      head_parts schema_name json_schema
      ++ required_parts required_fields
      ++ examples_parts examples
      ++ tail_parts text)
