-- ===== src/Tests/Extracting.antt =====
-- The extraction chain of app/pipeline/extraction.py at work.
use ocr_service.Prelude.{
  arith, arith, ℕ, ◌≡◌, refl, String, none, List, [], ◌∷◌, map, keep, All, ◌==◌, string_eq,
}
use ocr_service.Prelude.Outcome.{Outcome, ok, err}
use ocr_service.Json
use ocr_service.Json.{Json, Dict, entry, keys}
use ocr_service.Float.Scaled.{scaled, ratio_scaled}
use ocr_service.CircuitBreaker
use ocr_service.CircuitBreaker.{CircuitBreaker}
use ocr_service.Pipeline.Nodes.{LlmExtraction}
use ocr_service.Qdrant.{owner}
use ocr_service.Extraction.Prompt.{Printer, Retrieval, retrieve_examples}
use ocr_service.Extraction.Coercion.{
  OutputField, Pydantic, RawResult, mapping, output_fields, build_output_model, coerce,
}
use ocr_service.Extraction.Chain.{Timing, ExtractionChain, Request, invoke, extract_fields}
use ocr_service.Extraction.Fields.{
  Coerced, coerce-Coerced, build_output_model_names, retrieve_examples_own,
}
use ocr_service.Extraction.Fallback.{Turn, invoke-Turn, extract_fields_available}

abbrev py : Pydantic ℕ
py = record {
  is_identifier = λ s. s == "total";
  show = λ v. "value";
  is_zero = λ s. s == "0";
  to_float = λ v. ok 9000;
  create_model = λ fields. none;
}

abbrev properties : Dict
properties =
    entry "total" (Json.obj Json.empty) (entry "invoice-number" (Json.obj Json.empty) Json.empty)

abbrev schema : Dict
schema = entry "properties" (Json.obj properties) Json.empty

abbrev fields : Dict
fields =
    entry "total" (Json.str "12") (entry "tax" Json.null (entry "name" (Json.str "") Json.empty))

abbrev reply : Dict
reply = entry "fields" (Json.obj fields) (entry "confidence" (Json.num "0.9") Json.empty)

abbrev extracted : LlmExtraction ℕ
extracted = record {
  fields = entry "total" (Json.str "12") Json.empty;
  confidence = 9000;
  low_confidence_fields = [];
  missing_fields = [];
}

coerced_reply : coerce py (mapping reply) ≡ ok extracted
unfolding coerce ratio_scaled
coerced_reply = refl

coerce-Coerced_example : Coerced reply extracted
coerce-Coerced_example = coerce-Coerced py reply extracted coerced_reply

abbrev asked : List OutputField
asked = record { name = "total"; description = "value" } ∷ []

model_built : build_output_model py schema ≡ ok asked
unfolding build_output_model output_fields
model_built = refl

build_output_model_names_example : map (λ f. f.name) asked ≡ keep py.is_identifier (keys properties)
build_output_model_names_example =
    build_output_model_names py schema properties asked refl model_built

abbrev stored : Dict
stored = entry "tenant_id" (Json.str "t1") Json.empty

abbrev retrieval : Retrieval ℕ
retrieval = record { embed = λ s. ok 3; query = λ v filter limit. stored ∷ [] }

abbrev show : Json → String
show v = "value"

retrieve_examples_own_example :
    All (λ p. owner show p ≡ "t1") (retrieve_examples retrieval show "t1" "s1" "Invoice" 3)
retrieve_examples_own_example = retrieve_examples_own retrieval show "t1" "s1" "Invoice" 3

abbrev chain : ExtractionChain ℕ
chain = record {
  model = none;
  primary = λ fields prompt. err "overloaded";
  fallback = λ fields prompt. ok (mapping reply);
}

abbrev timing : Timing
timing = record { start = 5; finish = 6; others = λ b. b }

breaker : CircuitBreaker
breaker = CircuitBreaker.new 3 60 30

invoke-Turn_example :
    Turn chain timing asked "prompt" breaker (invoke chain timing asked "prompt" breaker)
invoke-Turn_example = invoke-Turn chain timing asked "prompt" breaker refl

abbrev printer : Printer
printer = record { dumps = λ v. "{}"; show = show; decimal = λ n. "1" }

abbrev request : Request
request = record {
  tenant_id = "t1";
  schema_id = "s1";
  schema_name = "invoice";
  json_schema = schema;
  required_fields = "total" ∷ [];
  text = "Invoice";
}

same_reply :
    (raw : RawResult ℕ)
    → ◌≡◌ {A = Outcome String (RawResult ℕ)} (ok (mapping reply)) (ok raw)
    → mapping reply ≡ raw
same_reply raw h = ground arith

extract_fields_available_example :
    (e : LlmExtraction ℕ) × ((extract_fields py printer retrieval chain timing request breaker).0
      ≡ ok e)
extract_fields_available_example =
    extract_fields_available py printer retrieval chain timing request breaker asked (mapping reply)
      refl model_built refl (λ raw h. absurd (ground arith))
      (λ raw h. (extracted, rw (← same_reply raw h) coerced_reply))
