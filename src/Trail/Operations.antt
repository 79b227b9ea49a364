-- ===== src/Trail/Operations.antt =====
-- What each operation does to the audit log.
use ocr_service.Prelude.{
  ℕ, ◌≡◌, refl, ◌∙◌, String, Bool, Option, List, [], ◌∷◌, ◌-◌, ◌||◌, suc, contains, nat_eq, arith,
  Option-cases, Bool-cases, inl, inr, none, some,
}
use ocr_service.Prelude.Outcome.{Outcome, ok, err}
use ocr_service.Float.{Float}
use ocr_service.Json.{Dict}
use ocr_service.Store.{Db, AuditLog, Event, ReviewTask, document_row, review_row}
use ocr_service.Store.Rows.{get_row, set_row}
use ocr_service.Review.{
  ReviewAction, ReviewError, apply_action, flush_action, write_task, apply_corrections, log_review,
  review_event, refusal, act_on,
}
use ocr_service.Runner.Persist.{
  Crypto, PersistError, persist_outcome, add_reports, write_rows, write_extraction_result,
  log_outcome, is_erased, settle_document,
}
use ocr_service.Status.{DocumentStatus}
use ocr_service.Runner.Process.{Process}
use ocr_service.Pipeline.State.{ExtractionState, get_or}
use ocr_service.WebhookDelivery.{
  attempt_from, exhaust, record_attempt, succeed, is_success, last_status,
}
use ocr_service.Erasure.{erase_document, bury, delete_document, mark}
use ocr_service.Api.Dlq.{retry_dlq}
use ocr_service.Api.Schemas.{SchemaCall, handle_schema_call}
use ocr_service.SchemaRegistry.{create_schema, update_schema, add_seed_example, activate_schema}
use ocr_service.Ingest.{Settings, create_document}
use ocr_service.Guardrails.{GuardrailOutcome}
use ocr_service.Trail.Log.{Appends, kept, same_log, ok_inj, append_event-Appends}

module _ {F : Type 0} ⦃fl : Float F⦄ where
  apply_corrections-audit :
      (a : ReviewAction) (tenant : ℕ) (r : ReviewTask) (db : Db F)
      → (apply_corrections a tenant r db).audit_log ≡ db.audit_log
  apply_corrections-audit a tenant r db = ground arith

  write_task-audit :
      (tenant : ℕ) (a : ReviewAction) (old : ReviewTask) (current : Option ReviewTask) (db t : Db F)
      → write_task tenant a old current db ≡ ok t
      → t.audit_log ≡ db.audit_log
  write_task-audit tenant a old current db t h = ground arith

  add_reports-audit :
      (tenant document_id : ℕ) (os : List (GuardrailOutcome F)) (db : Db F)
      → (add_reports tenant document_id os db).audit_log ≡ db.audit_log
  add_reports-audit tenant document_id [] db = refl
  add_reports-audit tenant document_id (o ∷ os) db = add_reports-audit tenant document_id os _

  pub retry_dlq-audit :
      (tenant dlq_id : ℕ) (p : Process F)
      → (retry_dlq tenant dlq_id p).1.db.audit_log ≡ p.db.audit_log
  unfolding retry_dlq
  retry_dlq-audit tenant dlq_id p = ground arith

  pub erase_document-Appends :
      (digest : Dict → String) (purge : Option String) (document_id tenant : ℕ) (p : Process F)
      → Appends p.db (erase_document digest purge document_id tenant p).1.db
  unfolding erase_document bury
  erase_document-Appends digest purge document_id tenant p =
      elim (Option-cases (get_row tenant document_id p.db.documents)) [
        | inl e ↦ rw (erase_document, e) (kept p.db p.db refl)
        | inr (d, e) ↦ elim (Option-cases purge) [
          | inl f ↦
              rw (erase_document, e, f)
                (append_event-Appends digest tenant (some document_id) Event.erasure_completed none
                  p.db (delete_document tenant document_id (mark tenant document_id p.db)) refl)
          | inr (m, f) ↦ rw (erase_document, e, f) (kept p.db (mark tenant document_id p.db) refl)
        ]
      ]

  log_review-Appends :
      (digest : Dict → String) (tenant : ℕ) (r : ReviewTask) (a : ReviewAction)
      (o : Outcome ReviewError (Db F)) (db t : Db F)
      → ((u : Db F) → o ≡ ok u → u.audit_log ≡ db.audit_log)
      → log_review digest tenant r a o ≡ ok t
      → Appends db t
  log_review-Appends digest tenant r a (err e) db t k h = cc
  log_review-Appends digest tenant r a (ok u) db t k h = same_log db t _ (ok_inj h) (
      append_event-Appends digest tenant (some r.document_id) (review_event a r.id) none db u
        (k u refl))

  flush_action-Appends :
      (digest : Dict → String) (tenant : ℕ) (a : ReviewAction) (r : ReviewTask) (db t : Db F)
      → flush_action digest tenant a r db ≡ ok t
      → Appends db t
  unfolding flush_action
  flush_action-Appends digest tenant a r db t h =
      log_review-Appends digest tenant r a _ db t
        (λ u k.
          write_task-audit tenant a r (get_row tenant r.id db.review_tasks) _ u k
          ∙ apply_corrections-audit a tenant r _)
        h

  pub apply_action-Appends :
      (digest : Dict → String) (tenant review_id : ℕ) (a : ReviewAction) (expected : ℕ)
      (db t : Db F)
      → apply_action digest tenant review_id a expected db ≡ ok t
      → Appends db t
  unfolding apply_action
  apply_action-Appends digest tenant review_id a expected db t h =
      elim (Option-cases (get_row tenant review_id db.review_tasks)) [
        | inl e ↦ absurd (ground arith)
        | inr (r, e) ↦ elim (Option-cases (refusal a expected r)) [
          | inl f ↦
              flush_action-Appends digest tenant a r db t (rw (apply_action, e, act_on, f) at h)
          | inr (m, f) ↦ absurd (ground arith)
        ]
      ]

  module _ (digest : Dict → String) (tenant document_id : ℕ) (post : ℕ → Outcome String ℕ) where
    succeed-Appends :
        (attempt : ℕ) (response : Outcome String ℕ) (db : Db F)
        → Appends db (succeed digest tenant document_id post attempt response db)
    succeed-Appends attempt (ok status) db =
        append_event-Appends digest tenant (some document_id)
          (Event.webhook_delivered attempt status) none db db refl
    succeed-Appends attempt (err message) db = kept db db refl

    pub attempt_from-Appends :
        (attempt : ℕ) (schedule : List ℕ) (status : Option ℕ) (db : Db F)
        → Appends db (attempt_from digest tenant document_id post attempt schedule status db).db
    unfolding attempt_from exhaust
    attempt_from-Appends attempt [] status db =
        let row : AuditLog = record {
          id = suc db.next_id;
          tenant_id = tenant;
          document_id = some document_id;
          event = Event.webhook_exhausted (attempt - 1) status;
          payload_hash = none;
        } in
        (row ∷ [], refl)
    attempt_from-Appends attempt (wait ∷ schedule) status db =
        elim (Bool-cases (is_success (last_status (post attempt)))) [
          | inl e ↦ rw e (
              succeed-Appends attempt (post attempt)
                (record_attempt digest tenant document_id post attempt (post attempt) db))
          | inr e ↦ rw e (
              attempt_from-Appends (suc attempt) schedule (last_status (post attempt))
                (record_attempt digest tenant document_id post attempt (post attempt) db))
        ]

  module _ (x : Crypto) where
    write_rows-audit :
        (status : DocumentStatus) (tenant document_id : ℕ) (s : ExtractionState F) (db t : Db F)
        → write_rows x status tenant document_id s db ≡ ok t
        → t.audit_log ≡ db.audit_log
    unfolding write_extraction_result
    write_rows-audit status tenant document_id s db t h = ground arith

    log_outcome-Appends :
        (tenant document_id : ℕ) (s : ExtractionState F) (o : Outcome PersistError (Db F))
        (db t : Db F)
        → ((u : Db F) → o ≡ ok u → u.audit_log ≡ db.audit_log)
        → log_outcome x tenant document_id s o ≡ ok t
        → Appends db t
    log_outcome-Appends tenant document_id s (err e) db t k h = cc
    log_outcome-Appends tenant document_id s (ok u) db t k h =
        same_log db t _ (ok_inj h) (
          append_event-Appends x.digest tenant (some document_id) _ s.extracted_json db u
            (k u refl))

    rows_kept :
        (tenant document_id : ℕ) (s : ExtractionState F) (db u : Db F)
        → write_rows x (get_or s.status DocumentStatus.error) tenant document_id s (
            add_reports tenant document_id (get_or s.guardrail_results []) (record db {
              documents = set_row tenant document_id (settle_document s) db.documents;
            }))
          ≡ ok u
        → u.audit_log ≡ db.audit_log
    rows_kept tenant document_id s db u k =
        let settled : Db F = record db {
          documents = set_row tenant document_id (settle_document s) db.documents;
        } in
        let reports = get_or s.guardrail_results [] in
        write_rows-audit (get_or s.status DocumentStatus.error) tenant document_id s
          (add_reports tenant document_id reports settled) u k
        ∙ add_reports-audit tenant document_id reports settled

    pub persist_outcome-Appends :
        (cancelled : List ℕ) (tenant document_id : ℕ) (s : ExtractionState F) (db t : Db F)
        → persist_outcome x cancelled tenant document_id s db ≡ ok t
        → Appends db t
    unfolding persist_outcome
    persist_outcome-Appends cancelled tenant document_id s db t h =
        elim (Option-cases (get_row tenant document_id db.documents)) [
          | inl e ↦ same_log db t db (ground arith) (kept db db refl)
          | inr (d, e) ↦ elim (Bool-cases (is_erased d.status || contains document_id cancelled)) [
            | inl f ↦ same_log db t db (ground arith) (kept db db refl)
            | inr f ↦
                log_outcome-Appends tenant document_id s _ db t (rows_kept tenant document_id s db)
                  (rw (persist_outcome, e, f) at h)
          ]
        ]

  pub create_document-audit :
      (settings : Settings) (save : ℕ → ℕ → List ℕ → Outcome String String) (tenant : ℕ)
      (schema_name : String) (file_name : Option String) (content : List ℕ)
      (mime_type : Option String) (is_dry_run : Bool) (db t : Db F) (id : ℕ)
      → create_document settings save tenant schema_name file_name content mime_type is_dry_run db
        ≡ ok (id, t)
      → t.audit_log ≡ db.audit_log
  unfolding create_document
  create_document-audit settings save tenant schema_name file_name content mime_type is_dry_run db t
        id h =
      ground arith

  pub handle_schema_call-audit :
      (tenant : ℕ) (c : SchemaCall F) (db t : Db F)
      → handle_schema_call tenant c db ≡ ok t
      → t.audit_log ≡ db.audit_log
  unfolding handle_schema_call create_schema update_schema add_seed_example activate_schema
  handle_schema_call-audit tenant c db t h = ground arith
