-- ===== src/Trail.antt =====
-- The audit log under the operations of app/services, app/worker/runner.py and app/api/routers. The
-- triggers of migrations/versions/003_audit_triggers.py refuse updates and deletions.
pub mod Log
pub mod Operations
use ocr_service.Prelude.{
  ℕ, ◌≡◌, refl, sym, ap, ◌∙◌, String, Bool, Option, List, [], ◌∷◌, ◌++◌, ◌-◌, ◌||◌, suc, contains,
  nat_eq, arith, Option-cases, Bool-cases, inl, inr, if◌then◌else◌, none, some,
}
use ocr_service.Prelude.Outcome.{Outcome, ok, err, Outcome-cases}
use ocr_service.Float.{Float}
use ocr_service.Json.{Dict}
use ocr_service.Store.{Db, AuditLog, Event, ReviewTask, document_row, review_row}
use ocr_service.Store.Rows.{get_row, set_row}
use ocr_service.Audit.{append_event, payload_hash}
use ocr_service.Review.{
  ReviewAction, ReviewError, apply_action, flush_action, write_task, apply_corrections, log_review,
  review_event, refusal, act_on,
}
use ocr_service.Runner.Persist.{
  Crypto, PersistError, persist_outcome, add_reports, write_rows, write_extraction_result,
  log_outcome, is_erased, settle_document,
}
use ocr_service.Status.{DocumentStatus}
use ocr_service.Runner.Process.{Process}
use ocr_service.Pipeline.State.{ExtractionState, get_or}
use ocr_service.WebhookDelivery.{
  deliver, retry_schedule, attempt_from, exhaust, record_attempt, succeed, is_success, last_status,
}
use ocr_service.Erasure.{erase_document, bury, delete_document, mark}
use ocr_service.Api.Dlq.{retry_dlq}
use ocr_service.Api.Schemas.{SchemaCall, handle_schema_call}
use ocr_service.SchemaRegistry.{create_schema, update_schema, add_seed_example, activate_schema}
use ocr_service.Ingest.{Settings, create_document}
use ocr_service.Guardrails.{GuardrailOutcome}
use ocr_service.Trail.Log.{Appends, kept, Appends-then}
use ocr_service.Trail.Operations.{
  persist_outcome-Appends, apply_action-Appends, attempt_from-Appends, erase_document-Appends,
  retry_dlq-audit, create_document-audit, handle_schema_call-audit,
}

module _ {F : Type 0} ⦃fl : Float F⦄ (x : Crypto) where
  -- What is committed to the database: an upload, the outcome of a run, a review, a delivery, an
  -- erasure, a retry from the dead-letter queue, a request to the registry of schemas.
  pub data Change : Db F → Db F → Type 0 where
    uploaded :
        (settings : Settings) (save : ℕ → ℕ → List ℕ → Outcome String String) (tenant : ℕ)
        (schema_name : String) (file_name : Option String) (content : List ℕ)
        (mime_type : Option String) (is_dry_run : Bool) {db t : Db F} (id : ℕ)
        → create_document settings save tenant schema_name file_name content mime_type is_dry_run db
          ≡ ok (id, t)
        → Change db t
    persisted :
        (cancelled : List ℕ) (tenant document_id : ℕ) (s : ExtractionState F) {db t : Db F}
        → persist_outcome x cancelled tenant document_id s db ≡ ok t
        → Change db t
    reviewed :
        (tenant review_id : ℕ) (a : ReviewAction) (expected : ℕ) {db t : Db F}
        → apply_action x.digest tenant review_id a expected db ≡ ok t
        → Change db t
    delivered :
        (tenant document_id : ℕ) (post : ℕ → Outcome String ℕ) (db : Db F)
        → Change db (deliver x.digest tenant document_id post db).db
    erased :
        (purge : Option String) (document_id tenant : ℕ) (p : Process F)
        → Change p.db (erase_document x.digest purge document_id tenant p).1.db
    retried : (tenant dlq_id : ℕ) (p : Process F) → Change p.db (retry_dlq tenant dlq_id p).1.db
    registered :
        (tenant : ℕ) (c : SchemaCall F) {db t : Db F}
        → handle_schema_call tenant c db ≡ ok t
        → Change db t

  Appends-Change : {db t : Db F} → Change db t → Appends db t
  unfolding deliver
  Appends-Change (uploaded settings save tenant name file content mime dry {db} {t} id h) =
      kept db t (create_document-audit settings save tenant name file content mime dry db t id h)
  Appends-Change (persisted cancelled tenant document_id s {db} {t} h) =
      persist_outcome-Appends x cancelled tenant document_id s db t h
  Appends-Change (reviewed tenant review_id a expected {db} {t} h) =
      apply_action-Appends x.digest tenant review_id a expected db t h
  Appends-Change (delivered tenant document_id post db) =
      attempt_from-Appends x.digest tenant document_id post 1 retry_schedule none db
  Appends-Change (erased purge document_id tenant p) =
      erase_document-Appends x.digest purge document_id tenant p
  Appends-Change (retried tenant dlq_id p) =
      kept p.db (retry_dlq tenant dlq_id p).1.db (retry_dlq-audit tenant dlq_id p)
  Appends-Change (registered tenant c {db} {t} h) =
      kept db t (handle_schema_call-audit tenant c db t h)

  pub data History : Db F → Db F → Type 0 where
    start : {db : Db F} → History db db
    later : {db t u : Db F} → History db t → Change t u → History db u

  -- Whatever uploads, outcomes of runs, reviews, deliveries, erasures, retries and requests to the
  -- registry follow each other, the audit log keeps every event that it had, unchanged and in its
  -- place, and only gets events at its end.
  pub History-Appends : {db t : Db F} → History db t → Appends db t
  History-Appends (start {db}) = kept db db refl
  History-Appends (later {db} {t} {u} h c) =
      Appends-then db t u (History-Appends h) (Appends-Change c)
