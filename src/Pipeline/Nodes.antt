-- ===== src/Pipeline/Nodes.antt =====
-- The nodes of app/pipeline/nodes.py. A node returns its partial update; `err` is an exception that
-- leaves it, which only `score_node` lets through, on a schema whose `properties` have no length.
use ocr_service.Prelude.{
  ℕ, suc, zero, String, Bool, true, false, Option, none, some, List, [], ◌∷◌, ◌==◌, string_eq,
  if◌then◌else◌,
}
use ocr_service.Prelude.Outcome.{Outcome, ok, err}
use ocr_service.Text.{size}
use ocr_service.Json
use ocr_service.Json.{Json, Items, Dict, nil, cons, get, count}
use ocr_service.Float.{Float}
use ocr_service.Status.{DocumentStatus, FailureReason}
use ocr_service.Guardrails.{
  Unicode, GuardrailOutcome, is_block, run_guardrails, aggregate_multiplier,
}
use ocr_service.Pipeline.State.{
  ExtractionState, StepName, ErrorText, raised, blocked_by, guardrail_blocked, nothing, get_or,
}
use ocr_service.Pipeline.Parsing.{ParseResult, is_empty_result}

-- `LLMExtraction` of app/pipeline/extraction.py.
pub record LlmExtraction (F : Type 0) : Type 0 where
  pub fields : Dict
  pub confidence : F
  pub low_confidence_fields : List String
  pub missing_fields : List String

-- What `extract_node` hands to the extraction chain.
pub record ExtractionRequest : Type 0 where
  pub tenant_id : Option ℕ
  pub schema_id : Option ℕ
  pub schema_name : String
  pub json_schema : Dict
  pub required_fields : List String
  pub text : String

-- The calls that leave the pipeline: blob storage, the parser, the extraction chain, the name of
-- the primary model, and the Unicode tables. `err` carries the text of the exception.
pub record Services (F : Type 0) : Type 0 where
  pub load : Option String → Outcome String (List ℕ)
  pub parse : List ℕ → Outcome String ParseResult
  pub extract : ExtractionRequest → Outcome String (LlmExtraction F)
  pub llm_primary_model : String
  pub unicode : Unicode

abbrev pub is_halt : DocumentStatus → Bool
is_halt DocumentStatus.error = true
is_halt DocumentStatus.cancelled = true
is_halt _ = false

abbrev pub is_cancel : Option DocumentStatus → Bool
is_cancel (some DocumentStatus.cancelled) = true
is_cancel _ = false

-- `_halted`
abbrev pub halted : {F : Type 0} → ExtractionState F → Bool
halted s = elim s.status [ some st ↦ is_halt st | none ↦ false ]

-- `bool(d)` of what `get` returns for a dict
abbrev pub is_filled : Option Dict → Bool
is_filled none = false
is_filled (some Json.empty) = false
is_filled (some d) = true

abbrev pub item_count : Items → ℕ
item_count nil = 0
item_count (cons v xs) = suc (item_count xs)

-- `len(v)`; `none` is the `TypeError`
abbrev pub len_of : Json → Option ℕ
len_of (Json.obj d) = some (count d)
len_of (Json.arr xs) = some (item_count xs)
len_of (Json.str s) = some (size s)
len_of _ = none

-- `len(json_schema.get("properties", {}))`
abbrev pub property_count : Dict → Option ℕ
property_count schema = elim (get "properties" schema) [ none ↦ some 0 | some v ↦ len_of v ]

-- `a or b` of numbers
abbrev pub or_nat : ℕ → ℕ → ℕ
or_nat zero b = b
or_nat (suc a) b = suc a

-- `max(n, 1)`
abbrev pub at_least_one : ℕ → ℕ
at_least_one zero = 1
at_least_one (suc n) = suc n

module _ {F : Type 0} where
  -- `next(o for o in outcomes if o.result.value == "block")`
  abbrev pub first_block : List (GuardrailOutcome F) → Option (GuardrailOutcome F)
  first_block [] = none
  first_block (o ∷ os) = let later = first_block os in if is_block o.result then some o else later

  abbrev pub block_reason : GuardrailOutcome F → FailureReason
  block_reason o =
      if o.name == "injection"
      then FailureReason.injection_detected
      else FailureReason.guardrail_block

  -- `blocked.detail or "guardrail blocked"`
  abbrev pub block_error : GuardrailOutcome F → ErrorText F
  block_error o = elim o.detail [ some d ↦ blocked_by d | none ↦ guardrail_blocked ]

module _ {F : Type 0} ⦃fl : Float F⦄ where
  -- What `parse_node` returns for a parsed document.
  abbrev parsed_update : ParseResult → ExtractionState F
  parsed_update r =
      if is_empty_result r
      then record (nothing F) {
        status = some DocumentStatus.error;
        failure_reason = some FailureReason.parse_empty_output;
        raw_text = some r.text;
        parse_method = some r.method;
        current_step = some StepName.parse;
      }
      else record (nothing F) {
        raw_text = some r.text;
        parse_method = some r.method;
        current_step = some StepName.parse;
        status = some DocumentStatus.guarding;
      }

  abbrev parse_failure : String → ExtractionState F
  parse_failure message = record (nothing F) {
    status = some DocumentStatus.error;
    failure_reason = some FailureReason.parse_failed;
    error = some (raised message);
  }

  abbrev fetched : Services F → Outcome String (List ℕ) → ExtractionState F
  fetched svc (err message) = parse_failure message
  fetched svc (ok content) = elim (svc.parse content) [
    | ok r ↦ parsed_update r
    | err message ↦ parse_failure message
  ]

  unfoldable pub parse_node : Services F → ExtractionState F → ExtractionState F
  unfolding is_empty_result
  parse_node svc s =
      if get_or s.is_cancelled false
      then record (nothing F) {
        status = some DocumentStatus.cancelled;
        current_step = some StepName.parse;
      }
      else fetched svc (svc.load s.file_storage_key)

  abbrev guarded : List (GuardrailOutcome F) → ExtractionState F
  guarded outcomes = elim (first_block outcomes) [
    | some blocked ↦ record (nothing F) {
      guardrail_results = some outcomes;
      status = some DocumentStatus.error;
      failure_reason = some (block_reason blocked);
      error = some (block_error blocked);
      current_step = some StepName.guardrail;
    }
    | none ↦ record (nothing F) {
      guardrail_results = some outcomes;
      guardrail_multiplier = some (aggregate_multiplier outcomes);
      current_step = some StepName.guardrail;
      status = some DocumentStatus.extracting;
    }
  ]

  -- `has_block` and the `next` after it are one search for the first blocking outcome.
  unfoldable pub guardrail_node : Services F → ExtractionState F → ExtractionState F
  guardrail_node svc s =
      if halted s then nothing F else guarded (run_guardrails svc.unicode (get_or s.raw_text ""))

  abbrev pub extraction_request : ExtractionState F → ExtractionRequest
  extraction_request s = record {
    tenant_id = s.tenant_id;
    schema_id = s.schema_id;
    schema_name = get_or s.schema_name "";
    json_schema = get_or s.json_schema Json.empty;
    required_fields = get_or s.required_fields [];
    text = get_or s.raw_text "";
  }

  abbrev extracted_update : Services F → Outcome String (LlmExtraction F) → ExtractionState F
  extracted_update svc (err message) = record (nothing F) {
    status = some DocumentStatus.error;
    failure_reason = some FailureReason.extraction_failed;
    error = some (raised message);
  }
  extracted_update svc (ok result) = record (nothing F) {
    extracted_json = some result.fields;
    llm_model_used = some svc.llm_primary_model;
    llm_confidence = some result.confidence;
    low_confidence_fields = some result.low_confidence_fields;
    missing_fields = some result.missing_fields;
    current_step = some StepName.extract;
    status = some DocumentStatus.scoring;
  }

  unfoldable pub extract_node : Services F → ExtractionState F → ExtractionState F
  extract_node svc s =
      if halted s
      then nothing F
      else if is_filled s.extracted_json
      then nothing F
      else extracted_update svc (svc.extract (extraction_request s))
