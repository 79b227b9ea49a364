-- ===== src/Pipeline/State.antt =====
-- `ExtractionState` of app/pipeline/state.py: a `TypedDict` with `total=False`, so each field may be
-- missing. A node's partial update is a value of the same type. The time stamps and the MIME type
-- are fields that no code reads or writes, and are left out; so is `llm_token_usage`, always `{}`.
use ocr_service.Prelude.{ℕ, String, Bool, Option, none, some, List}
use ocr_service.Json.{Dict}
use ocr_service.Status.{DocumentStatus, FailureReason}
use ocr_service.Confidence.{RoutingDecision, ConfidenceBreakdown}
use ocr_service.Guardrails.{GuardrailOutcome, Detail}

-- The last completed node.
pub data StepName : Type 0 where
  parse guardrail extract score route deliver create_review dlq : StepName

-- `error`: the text of an exception, the detail of a blocking guardrail, or "guardrail blocked".
pub data ErrorText (F : Type 0) : Type 0 where
  raised : String → ErrorText F
  blocked_by : Detail F → ErrorText F
  guardrail_blocked : ErrorText F

pub record ExtractionState (F : Type 0) : Type 0 where
  pub document_id : Option ℕ
  pub tenant_id : Option ℕ
  pub schema_id : Option ℕ
  pub schema_version : Option ℕ
  pub schema_name : Option String
  pub file_storage_key : Option String
  pub confidence_high : Option F
  pub confidence_medium : Option F
  pub json_schema : Option Dict
  pub required_fields : Option (List String)
  pub pii_fields : Option (List String)
  pub status : Option DocumentStatus
  pub current_step : Option StepName
  pub is_cancelled : Option Bool
  pub raw_text : Option String
  pub parse_method : Option String
  pub guardrail_results : Option (List (GuardrailOutcome F))
  pub guardrail_multiplier : Option F
  pub extracted_json : Option Dict
  pub llm_model_used : Option String
  pub llm_confidence : Option F
  pub confidence : Option F
  pub confidence_breakdown : Option (ConfidenceBreakdown F)
  pub low_confidence_fields : Option (List String)
  pub missing_fields : Option (List String)
  pub routing_decision : Option RoutingDecision
  pub failure_reason : Option FailureReason
  pub error : Option (ErrorText F)

module _ (F : Type 0) where
  -- `{}`
  abbrev pub nothing : ExtractionState F
  nothing = record {
    document_id = none;
    tenant_id = none;
    schema_id = none;
    schema_version = none;
    schema_name = none;
    file_storage_key = none;
    confidence_high = none;
    confidence_medium = none;
    json_schema = none;
    required_fields = none;
    pii_fields = none;
    status = none;
    current_step = none;
    is_cancelled = none;
    raw_text = none;
    parse_method = none;
    guardrail_results = none;
    guardrail_multiplier = none;
    extracted_json = none;
    llm_model_used = none;
    llm_confidence = none;
    confidence = none;
    confidence_breakdown = none;
    low_confidence_fields = none;
    missing_fields = none;
    routing_decision = none;
    failure_reason = none;
    error = none;
  }

module _ {A : Type 0} where
  -- A key of the update replaces the key of the state.
  abbrev pub over : Option A → Option A → Option A
  over (some a) old = some a
  over none old = old

  -- `state.get(k, default)`
  abbrev pub get_or : Option A → A → A
  get_or (some a) d = a
  get_or none d = d

-- How LangGraph joins the update of a node to the state: key by key.
abbrev pub merge : {F : Type 0} → ExtractionState F → ExtractionState F → ExtractionState F
merge s u = record {
  document_id = over u.document_id s.document_id;
  tenant_id = over u.tenant_id s.tenant_id;
  schema_id = over u.schema_id s.schema_id;
  schema_version = over u.schema_version s.schema_version;
  schema_name = over u.schema_name s.schema_name;
  file_storage_key = over u.file_storage_key s.file_storage_key;
  confidence_high = over u.confidence_high s.confidence_high;
  confidence_medium = over u.confidence_medium s.confidence_medium;
  json_schema = over u.json_schema s.json_schema;
  required_fields = over u.required_fields s.required_fields;
  pii_fields = over u.pii_fields s.pii_fields;
  status = over u.status s.status;
  current_step = over u.current_step s.current_step;
  is_cancelled = over u.is_cancelled s.is_cancelled;
  raw_text = over u.raw_text s.raw_text;
  parse_method = over u.parse_method s.parse_method;
  guardrail_results = over u.guardrail_results s.guardrail_results;
  guardrail_multiplier = over u.guardrail_multiplier s.guardrail_multiplier;
  extracted_json = over u.extracted_json s.extracted_json;
  llm_model_used = over u.llm_model_used s.llm_model_used;
  llm_confidence = over u.llm_confidence s.llm_confidence;
  confidence = over u.confidence s.confidence;
  confidence_breakdown = over u.confidence_breakdown s.confidence_breakdown;
  low_confidence_fields = over u.low_confidence_fields s.low_confidence_fields;
  missing_fields = over u.missing_fields s.missing_fields;
  routing_decision = over u.routing_decision s.routing_decision;
  failure_reason = over u.failure_reason s.failure_reason;
  error = over u.error s.error;
}
