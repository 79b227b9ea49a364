-- ===== src/Tests/Fixtures.antt =====
-- A small database and a process for the tests.
use ocr_service.Prelude.{ℕ, String, false, none, some, List, [], ◌∷◌}
use ocr_service.Prelude.Outcome.{Outcome, ok}
use ocr_service.Json.{Json, Dict, empty, entry}
use ocr_service.Status.{DocumentStatus, SchemaStatus, ReviewStatus}
use ocr_service.Store.{Db, Schema, Document, ExtractionResult, ReviewTask}
use ocr_service.Runner.Persist.{Crypto}
use ocr_service.Runner.Process.{Process}
use ocr_service.Api.Extract.{Upload}
use ocr_service.Encryption.{Cipher}

abbrev pub blank : Db ℕ
blank = record {
  tenants = record { id = 7; webhook_url = none; webhook_secret = "s"; max_queue_size = 2 } ∷ [];
  schemas = [];
  schema_versions = [];
  documents = [];
  extraction_results = [];
  guardrail_reports = [];
  review_tasks = [];
  audit_log = [];
  dlq = [];
  webhook_deliveries = [];
  next_id = 100;
}

abbrev pub invoice_schema : Schema ℕ
invoice_schema = record {
  id = 3;
  tenant_id = 7;
  name = "invoice";
  description = none;
  json_schema = empty;
  required_fields = "total" ∷ [];
  pii_fields = [];
  prompt_template = none;
  status = SchemaStatus.active;
  current_version = 1;
  confidence_high = 8500;
  confidence_medium = 6000;
  seed_count = 3;
  config = empty;
}

abbrev pub document : Document ℕ
document = record {
  id = 1;
  tenant_id = 7;
  schema_id = 3;
  schema_version = 1;
  file_name = some "a.pdf";
  file_size_bytes = 4;
  mime_type = some "application/pdf";
  file_storage_key = some "7/1";
  status = DocumentStatus.pending;
  confidence_overall = none;
  routing_decision = none;
  is_dry_run = false;
}

abbrev pub one_document : Db ℕ
one_document = record blank { schemas = invoice_schema ∷ []; documents = document ∷ [] }

abbrev pub total : Dict
total = entry "total" (Json.str "12.00") empty

abbrev pub extraction : ExtractionResult ℕ
extraction = record {
  id = 4;
  document_id = 1;
  tenant_id = 7;
  extracted_json = some total;
  llm_model_used = none;
  confidence_overall = some 7000;
  confidence_breakdown = none;
  low_confidence_fields = none;
  missing_fields = none;
}

abbrev pub task : ReviewTask
task = record {
  id = 5;
  document_id = 1;
  tenant_id = 7;
  extraction_result_id = 4;
  status = ReviewStatus.pending;
  corrections = none;
  rejection_reason = none;
  version = 1;
}

abbrev pub under_review : Db ℕ
under_review = record one_document {
  extraction_results = extraction ∷ [];
  review_tasks = task ∷ [];
}

abbrev pub cipher : Cipher
cipher = record {
  Key = ℕ;
  tenant_key = λ tenant. some tenant;
  seal = λ k tenant nonce text. text;
  unseal = λ k tenant text. some text;
}

abbrev pub digest : Dict → String
digest d = "sha256"

abbrev pub crypto : Crypto
crypto = record { cipher = cipher; nonces = λ n. n; digest = digest }

abbrev pub idle : Process ℕ
idle = record { db = one_document; slots = []; running = []; webhooks = []; cancelled = [] }

abbrev pub upload : Upload
upload = record {
  tenant = 7;
  schema_name = "invoice";
  file_name = some "b.pdf";
  content = 37 ∷ 80 ∷ [];
  mime_type = some "application/pdf";
  dry_run = false;
}

abbrev pub save : ℕ → ℕ → List ℕ → Outcome String String
save tenant document_id content = ok "key"
