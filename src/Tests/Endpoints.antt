-- ===== src/Tests/Endpoints.antt =====
-- The endpoints of app/api/routers and the blobs of app/domain/storage.py at work.
use ocr_service.Runner.Process.{Process}
use ocr_service.Runner.Persist.{persist_outcome}
use ocr_service.Erasure.{erase_document}
use ocr_service.Erasure.Barrier.{erase_document_stops}
use ocr_service.Tests.Service.{finished}
use ocr_service.Prelude.{
  Option, ℕ, ◌+◌, ◌≡◌, refl, String, none, some, List, [], ◌∷◌, ◌==◌, string_eq, ◌&&◌,
  if◌then◌else◌, arith,
}
use ocr_service.Prelude.Outcome.{Outcome, Outcome, ok, err}
use ocr_service.Json
use ocr_service.Float.Scaled.{round3_scaled, scaled, ratio_scaled}
use ocr_service.Status.{DlqStatus, FailureReason}
use ocr_service.Store.{Db, DeadLetter, Document, document_row, schema_row, review_row}
use ocr_service.Store.Rows.{set_row, get_row}
use ocr_service.Storage.{no_such_file, File, storage_key, save_blob, delete_blob}
use ocr_service.Storage.Laws.{IsName, blob_of, blob_of-save_blob}
use ocr_service.Api.Reads.{DocumentDetail, limited, skipped, get_document, list_dlq}
use ocr_service.Api.Isolation.{IsOwn, get_document-IsOwn}
use ocr_service.Api.Reviews.{ReviewActionRequest}
use ocr_service.Text.{append}
use ocr_service.Webhook.{Signer, SignedRequest, build_signed_request, sign}
use ocr_service.Runner.Webhook.{Labels, Posting, deliver_webhook}
use ocr_service.Api.{server_error, HttpError}
use ocr_service.Api.Extract.{get_tenant}
use ocr_service.SchemaRegistry.{CreateSchemaRequest, create_schema}
use ocr_service.Api.Schemas.{SchemaCall, post, handle_schema_call, is_valid_request}
use ocr_service.Tests.Fixtures.{
  idle, crypto, extraction, task, digest, blank, one_document, document, under_review,
}

abbrev files : List File
files = record { directory = "t1"; name = "d1"; content = 37 ∷ [] } ∷ []

is_name : (s : String) → s ≡ "t1" → IsName s
is_name s h = rw h (record { no_slash = (ground arith, (ground arith, tt)); plain = refl })

d-IsName : IsName "d1"
d-IsName = record { no_slash = (ground arith, (ground arith, tt)); plain = refl }

abbrev ours : String
ours = "t1"

abbrev name : String
name = "d1"

blob_of-save_blob_example :
    ((save_blob ours name (80 ∷ []) files).0 ≡ ok (storage_key ours name))
    × (blob_of (save_blob ours name (80 ∷ []) files).1 name ours
        ≡ (if ours == name && name == ours then ok (80 ∷ []) else blob_of files name ours))
    × (blob_of (delete_blob (storage_key ours name) files).1 name ours
        ≡ (if ours == name && name == ours then err no_such_file else blob_of files name ours))
blob_of-save_blob_example =
    blob_of-save_blob ours name name ours (80 ∷ []) files (is_name ours refl) d-IsName d-IsName
      (is_name ours refl)

abbrev shown : DocumentDetail ℕ
shown = record {
  document = document;
  extraction_result = some extraction;
  guardrail_reports = [];
  review_task = some task;
}

document_shown : get_document 7 1 under_review ≡ ok shown
unfolding get_document get_row
document_shown = refl

get_document-IsOwn_example : IsOwn 7 1 shown
get_document-IsOwn_example = get_document-IsOwn 7 1 under_review shown document_shown

abbrev letter : ℕ → DeadLetter ℕ
letter id = record {
  id = id;
  document_id = 1;
  tenant_id = 7;
  failure_reason = FailureReason.unknown;
  pipeline_state = none;
  last_http_status = none;
  status = DlqStatus.pending;
  retry_count = 0;
}

abbrev failed : Db ℕ
failed = record one_document { dlq = letter 1 ∷ letter 2 ∷ letter 3 ∷ [] }

first_page : list_dlq 7 (some "pending") 2 0 failed ≡ ok (letter 3 ∷ letter 2 ∷ [])
unfolding list_dlq limited skipped
first_page = refl

second_page : list_dlq 7 (some "pending") 1 (0 + 2) failed ≡ ok (letter 1 ∷ [])
unfolding list_dlq limited skipped
second_page = refl

abbrev acceptance : ReviewActionRequest
acceptance = record { action = "accept"; corrections = none; rejection_reason = none; version = 1 }

abbrev request : CreateSchemaRequest ℕ
request = record {
  name = "invoice";
  description = none;
  json_schema = Json.empty;
  required_fields = [];
  pii_fields = [];
  prompt_template = none;
  confidence_high = 8500;
  confidence_medium = 6000;
  config = Json.empty;
}

abbrev calls : List (ℕ × SchemaCall ℕ)
calls = (7, post request) ∷ []

abbrev stored : Document ℕ
stored = record document { schema_id = 100 }

-- Thresholds that are in order, but round to the same three decimals.
close_refused :
    handle_schema_call 7
      (post (record request { confidence_high = 8504; confidence_medium = 8501 }))
      blank
    ≡ err (server_error "check constraint")
unfolding handle_schema_call is_valid_request create_schema ratio_scaled round3_scaled
close_refused = refl

abbrev labels : Labels
labels = record { status = λ s. "pending"; decision = λ d. "HIGH"; id = λ n. "1" }

abbrev signer : Signer
signer = record { dumps = λ d. "{}"; mac = λ secret body. "5e" }

abbrev hooked : Db ℕ
hooked = record under_review {
  tenants =
      record { id = 7; webhook_url = some "https://a"; webhook_secret = "s"; max_queue_size = 2 }
      ∷ [];
}

abbrev answering : String → SignedRequest → ℕ → Outcome String ℕ
answering url r attempt = ok 200

abbrev posted : Posting
posted = record { url = "https://a"; request = record { body = "{}"; signature = "sha256=5e" } }

after_post : Outcome HttpError (Option Posting × Db ℕ) → Db ℕ
after_post (ok (p, t)) = t
after_post (err e) = blank

abbrev hooked_process : Process ℕ
hooked_process = record idle { db = hooked }

erase_document_stops_example :
    let q = (erase_document digest (some "unreachable") 1 7 hooked_process).1 in
    let gone = (erase_document digest none 1 7 hooked_process).1 in
    (persist_outcome crypto q.cancelled 7 1 finished q.db ≡ ok q.db)
    × (deliver_webhook labels signer digest answering 1 7 gone.db ≡ ok (none, gone.db))
erase_document_stops_example =
    erase_document_stops crypto labels signer answering digest (some "unreachable") 7 1 finished
      hooked_process

-- Where the checkpoints could not be purged, a webhook is posted all the same.
abbrev half_erased : Db ℕ
half_erased = (erase_document digest (some "unreachable") 1 7 hooked_process).1.db

posted_after_failure :
    deliver_webhook labels signer digest answering 1 7 half_erased
    ≡ ok (some posted, after_post (deliver_webhook labels signer digest answering 1 7 half_erased))
unfolding deliver_webhook get_row set_row get_tenant build_signed_request sign append after_post
    erase_document
posted_after_failure = refl
