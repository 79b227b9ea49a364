-- ===== src/Extraction/Chain.antt =====
-- `ExtractionChain` of app/pipeline/extraction.py. A language model is what it answers to a prompt
-- under an output model; the clock of the breaker is explicit.
use ocr_service.Prelude.{ℕ, String, Option, none, some, List}
use ocr_service.Prelude.Outcome.{Outcome, ok, err}
use ocr_service.Json.{Dict}
use ocr_service.Float.{Float}
use ocr_service.CircuitBreaker
use ocr_service.CircuitBreaker.{CircuitBreaker, CallError}
use ocr_service.Pipeline.Nodes.{LlmExtraction}
use ocr_service.Extraction.Prompt.{Printer, Retrieval, retrieve_examples, build_extraction_prompt}
use ocr_service.Extraction.Coercion.{OutputField, Pydantic, RawResult, build_output_model, coerce}

-- `with_structured_output(output_model).ainvoke(prompt)`
abbrev pub ChatModel : Type 0 → Type 0
ChatModel F = List OutputField → String → Outcome String (RawResult F)

-- When the call of the primary model begins and ends, and what other calls do to the breaker in
-- between.
pub record Timing : Type 0 where
  pub start : ℕ
  pub finish : ℕ
  pub others : CircuitBreaker → CircuitBreaker

-- The chain: the model that was injected, if any, and the two of production.
pub record ExtractionChain (F : Type 0) : Type 0 where
  pub model : Option (ChatModel F)
  pub primary : ChatModel F
  pub fallback : ChatModel F

-- The arguments of `extract`.
pub record Request : Type 0 where
  pub tenant_id : String
  pub schema_id : String
  pub schema_name : String
  pub json_schema : Dict
  pub required_fields : List String
  pub text : String

module _ {F : Type 0} where
  abbrev or_fallback :
      Outcome String (RawResult F)
      → Outcome (CallError String) (RawResult F) × CircuitBreaker
      → Outcome String (RawResult F) × CircuitBreaker
  or_fallback second (ok raw, b) = (ok raw, b)
  or_fallback second (err e, b) = (second, b)

  -- `_invoke`
  unfoldable pub invoke :
      ExtractionChain F
      → Timing
      → List OutputField
      → String
      → CircuitBreaker
      → Outcome String (RawResult F) × CircuitBreaker
  unfolding CircuitBreaker.call
  invoke chain at output_model prompt b = elim chain.model [
    | some model ↦ (model output_model prompt, b)
    | none ↦
        or_fallback (chain.fallback output_model prompt)
          (CircuitBreaker.call at.start at.others at.finish (chain.primary output_model prompt) b)
  ]

module _ {F : Type 0} ⦃fl : Float F⦄ (py : Pydantic F) where
  abbrev pub coerced :
      Outcome String (RawResult F) × CircuitBreaker
      → Outcome String (LlmExtraction F) × CircuitBreaker
  coerced (err message, b) = (err message, b)
  coerced (ok raw, b) = (coerce py raw, b)

module _ {F V : Type 0} ⦃fl : Float F⦄ (py : Pydantic F) (p : Printer) (r : Retrieval V) where
  abbrev pub prompt_of : Request → String
  prompt_of q =
      build_extraction_prompt p q.text q.schema_name q.json_schema q.required_fields
        (retrieve_examples r p.show q.tenant_id q.schema_id q.text 3)

  -- `extract`
  unfoldable pub extract_fields :
      ExtractionChain F
      → Timing
      → Request
      → CircuitBreaker
      → Outcome String (LlmExtraction F) × CircuitBreaker
  unfolding build_output_model invoke coerce build_extraction_prompt retrieve_examples
  extract_fields chain at q b = elim (build_output_model py q.json_schema) [
    | err message ↦ (err message, b)
    | ok output_model ↦ coerced py (invoke chain at output_model (prompt_of q) b)
  ]
