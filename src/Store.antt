-- ===== src/Store.antt =====
-- The tables of app/db/models.py and what a session of app/db/session.py sees of them. Ids are
-- numbers, as they are only compared. A tenant's session sees the rows that bear its tenant id (the
-- policies of migrations/versions/002_rls_policies.py). Time stamps and columns that no code reads
-- or writes are left out.
pub mod Rows
pub mod Laws
use ocr_service.Prelude.{ℕ, String, Bool, Option, List}
use ocr_service.Json.{Dict}
use ocr_service.Status.{SchemaStatus, DocumentStatus, ReviewStatus, DlqStatus, FailureReason}
use ocr_service.Confidence.{RoutingDecision, ConfidenceBreakdown}
use ocr_service.Guardrails.{GuardrailOutcome}
use ocr_service.Pipeline.State.{StepName, ErrorText}
use Rows.{Row}

pub record Tenant : Type 0 where
  pub id : ℕ
  pub webhook_url : Option String
  pub webhook_secret : String
  pub max_queue_size : ℕ

pub record Schema (F : Type 0) : Type 0 where
  pub id : ℕ
  pub tenant_id : ℕ
  pub name : String
  pub description : Option String
  pub json_schema : Dict
  pub required_fields : List String
  pub pii_fields : List String
  pub prompt_template : Option String
  pub status : SchemaStatus
  pub current_version : ℕ
  pub confidence_high : F
  pub confidence_medium : F
  pub seed_count : ℕ
  pub config : Dict

pub record SchemaVersion : Type 0 where
  pub id : ℕ
  pub schema_id : ℕ
  pub tenant_id : ℕ
  pub version : ℕ
  pub json_schema : Dict
  pub required_fields : List String
  pub pii_fields : List String
  pub prompt_template : Option String

pub record Document (F : Type 0) : Type 0 where
  pub id : ℕ
  pub tenant_id : ℕ
  pub schema_id : ℕ
  pub schema_version : ℕ
  pub file_name : Option String
  pub file_size_bytes : ℕ
  pub mime_type : Option String
  pub file_storage_key : Option String
  pub status : DocumentStatus
  pub confidence_overall : Option F
  pub routing_decision : Option RoutingDecision
  pub is_dry_run : Bool

pub record ExtractionResult (F : Type 0) : Type 0 where
  pub id : ℕ
  pub document_id : ℕ
  pub tenant_id : ℕ
  pub extracted_json : Option Dict
  pub llm_model_used : Option String
  pub confidence_overall : Option F
  pub confidence_breakdown : Option (ConfidenceBreakdown F)
  pub low_confidence_fields : Option (List String)
  pub missing_fields : Option (List String)

pub record GuardrailReport (F : Type 0) : Type 0 where
  pub id : ℕ
  pub document_id : ℕ
  pub tenant_id : ℕ
  pub outcome : GuardrailOutcome F

-- One item of a review's corrections.
pub record Correction : Type 0 where
  pub field : String
  pub change : Dict

pub record ReviewTask : Type 0 where
  pub id : ℕ
  pub document_id : ℕ
  pub tenant_id : ℕ
  pub extraction_result_id : ℕ
  pub status : ReviewStatus
  pub corrections : Option (List Correction)
  pub rejection_reason : Option String
  pub version : ℕ

-- `event_type` and the metadata that goes with it.
pub data Event : Type 0 where
  pipeline : DocumentStatus → Option RoutingDecision → Event
  review_accept review_correct review_reject : ℕ → Event
  webhook_delivered : ℕ → ℕ → Event
  webhook_exhausted : ℕ → Option ℕ → Event
  erasure_completed : Event

pub record AuditLog : Type 0 where
  pub id : ℕ
  pub tenant_id : ℕ
  pub document_id : Option ℕ
  pub event : Event
  pub payload_hash : Option String

-- `_snapshot` of app/worker/runner.py.
pub record Snapshot (F : Type 0) : Type 0 where
  pub current_step : Option StepName
  pub routing_decision : Option RoutingDecision
  pub confidence : Option F
  pub failure_reason : Option FailureReason
  pub error : Option (ErrorText F)
  pub parse_method : Option String

pub record DeadLetter (F : Type 0) : Type 0 where
  pub id : ℕ
  pub document_id : ℕ
  pub tenant_id : ℕ
  pub failure_reason : FailureReason
  pub pipeline_state : Option (Snapshot F)
  pub last_http_status : Option ℕ
  pub status : DlqStatus
  pub retry_count : ℕ

pub record WebhookDelivery : Type 0 where
  pub id : ℕ
  pub document_id : ℕ
  pub tenant_id : ℕ
  pub attempt : ℕ
  pub http_status : Option ℕ
  pub error : Option String

-- The database. `next_id` is the next of the ids that `gen_random_uuid` gives out, no two alike.
pub record Db (F : Type 0) : Type 0 where
  pub tenants : List Tenant
  pub schemas : List (Schema F)
  pub schema_versions : List SchemaVersion
  pub documents : List (Document F)
  pub extraction_results : List (ExtractionResult F)
  pub guardrail_reports : List (GuardrailReport F)
  pub review_tasks : List ReviewTask
  pub audit_log : List AuditLog
  pub dlq : List (DeadLetter F)
  pub webhook_deliveries : List WebhookDelivery
  pub next_id : ℕ

instance abbrev pub schema_row : {F : Type 0} → Row (Schema F)
schema_row = record { id_of = λ r. r.id; tenant_of = λ r. r.tenant_id }

instance abbrev pub document_row : {F : Type 0} → Row (Document F)
document_row = record { id_of = λ r. r.id; tenant_of = λ r. r.tenant_id }

instance abbrev pub extraction_row : {F : Type 0} → Row (ExtractionResult F)
extraction_row = record { id_of = λ r. r.id; tenant_of = λ r. r.tenant_id }

instance abbrev pub review_row : Row ReviewTask
review_row = record { id_of = λ r. r.id; tenant_of = λ r. r.tenant_id }

instance abbrev pub dlq_row : {F : Type 0} → Row (DeadLetter F)
dlq_row = record { id_of = λ r. r.id; tenant_of = λ r. r.tenant_id }
