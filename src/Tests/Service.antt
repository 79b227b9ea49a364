-- ===== src/Tests/Service.antt =====
-- The services of app/services, app/api and app/worker at work.
use ocr_service.Prelude.{ℕ, ◌+◌, ◌≤◌, ◌≡◌, refl, some, List, [], ◌∷◌, nat_eq}
use ocr_service.Prelude.Outcome.{Outcome, ok, err}
use ocr_service.Float.Scaled.{scaled}
use ocr_service.Status.{DocumentStatus}
use ocr_service.Pipeline.State.{ExtractionState, nothing}
use ocr_service.Store.{Db, review_row, document_row, schema_row}
use ocr_service.Store.Rows.{get_row, set_row}
use ocr_service.Encryption.{encrypt_fields}
use ocr_service.Audit.{append_event}
use ocr_service.RateLimit.{acquire, inflight, set_slot}
use ocr_service.Ingest.{default_settings, validate_upload, resolve_active_schema, create_document}
use ocr_service.Runner.Persist.{
  PersistError, stored_fields, write_extraction_result, persist_outcome,
}
use ocr_service.Runner.Outcome.{Persisted, ended, persist_tallies}
use ocr_service.Runner.Process.{Process}
use ocr_service.Api.{unprocessable_422}
use ocr_service.Api.Extract.{Upload, extract, get_tenant, queue_size}
use ocr_service.Api.Slots.{runs, Balanced}
use ocr_service.Api.Queue.{Reach, start, upload as uploaded, Reach-Balanced, accepted_within_limit}
use ocr_service.Api.Refusal.{Restored, extract_refused}
use ocr_service.Tests.Fixtures.{
  blank, one_document, document, total, under_review, crypto, idle, upload, save,
}
use ocr_service.Tests.Runs.{clean}

-- The last state of a run that completes.
abbrev pub finished : ExtractionState ℕ
finished = record (nothing ℕ) {
  status = some DocumentStatus.completed;
  extracted_json = some total;
  confidence = some 9000;
}

abbrev db_of : Outcome PersistError (Db ℕ) → Db ℕ
db_of (ok t) = t
db_of (err e) = blank

saved : Db ℕ
saved = db_of (persist_outcome crypto [] 7 1 finished one_document)

saved_ok : persist_outcome crypto [] 7 1 finished one_document ≡ ok saved
unfolding saved persist_outcome get_row set_row write_extraction_result append_event stored_fields
    encrypt_fields
saved_ok = refl

pub found : get_row 7 1 one_document.documents ≡ some document
unfolding get_row
found = refl

persist_tallies_example :
    Persisted 7 1 finished one_document saved
    × (get_row 7 1 saved.documents ≡ some (ended finished document))
persist_tallies_example =
    persist_tallies crypto [] 7 1 finished one_document saved document found refl saved_ok

reviewed_found : get_row 7 1 under_review.documents ≡ some document
unfolding get_row
reviewed_found = refl

-- The bytes of a file.
abbrev page : List ℕ
page = 37 ∷ []

abbrev waiting : Process ℕ
waiting = (extract default_settings save upload idle).1

reached : Reach clean crypto (λ d. nothing ℕ) default_settings save 0 waiting
reached = uploaded 0 idle upload (start idle refl refl)

Reach-Balanced_example : Balanced 0 waiting.slots waiting.running
Reach-Balanced_example = Reach-Balanced clean crypto (λ d. nothing ℕ) default_settings save reached

upload_accepted : (extract default_settings save upload waiting).0 ≡ ok 101
unfolding extract get_tenant acquire inflight set_slot create_document validate_upload
    resolve_active_schema
upload_accepted = refl

accepted_within_limit_example :
    runs 7 (extract default_settings save upload waiting).1.running
    ≤ queue_size (get_tenant 7 waiting.db.tenants) + 0
accepted_within_limit_example =
    accepted_within_limit clean crypto (λ d. nothing ℕ) default_settings save 0 upload waiting 101
      reached upload_accepted

abbrev empty_upload : Upload
empty_upload = record upload { content = [] }

upload_refused : (extract default_settings save empty_upload idle).0 ≡ err unprocessable_422
unfolding extract get_tenant acquire inflight set_slot create_document validate_upload
upload_refused = refl

extract_refused_example : Restored idle (extract default_settings save empty_upload idle).1
extract_refused_example =
    extract_refused default_settings save empty_upload idle unprocessable_422 upload_refused
