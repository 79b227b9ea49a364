-- ===== src/Runner/Persist.antt =====
-- `_persist_outcome` of app/worker/runner.py, with `_write_extraction_result` and `_snapshot`.
use ocr_service.Prelude.{
  Option, ℕ, suc, String, Bool, true, false, ◌||◌, none, some, List, [], ◌∷◌, ◌++◌, any, contains,
  ◌==◌, nat_eq, if◌then◌else◌,
}
use ocr_service.Prelude.Outcome.{Outcome, ok, err}
use ocr_service.Json
use ocr_service.Json.{Dict}
use ocr_service.Json.Nul.{has_nul, dict_has_nul}
use ocr_service.Float.{Float}
use ocr_service.Status.{DocumentStatus, ReviewStatus, DlqStatus, FailureReason}
use ocr_service.Guardrails.{GuardrailOutcome}
use ocr_service.Pipeline.State.{ExtractionState, ErrorText, raised, over, get_or}
use ocr_service.Encryption.{EncryptionError, Cipher, encrypt_fields}
use ocr_service.Audit.{append_event}
use ocr_service.Store.{Db, Document, ExtractionResult, ReviewTask, Snapshot, Event, document_row}
use ocr_service.Store.Rows.{get_row, set_row}

-- Why the transaction is rolled back: the encryption of the PII fields, the unique index on
-- `extraction_results.document_id` or on `review_tasks.document_id`, or a NUL character in the
-- fields that are stored or in the text of an exception.
pub data PersistError : Type 0 where
  encryption : EncryptionError → PersistError
  duplicate_result duplicate_review nul_character : PersistError

-- What the process has: the cipher, the random nonces, and the digest of the audit.
pub record Crypto : Type 1 where
  pub cipher : Cipher
  pub nonces : ℕ → ℕ
  pub digest : Dict → String

-- `_TERMINAL`
abbrev pub is_terminal : DocumentStatus → Bool
is_terminal DocumentStatus.completed = true
is_terminal DocumentStatus.review = true
is_terminal DocumentStatus.rejected = true
is_terminal DocumentStatus.error = true
is_terminal DocumentStatus.cancelled = true
is_terminal _ = false

-- `document.status in ("cancelled", "tombstone")`
abbrev pub is_erased : DocumentStatus → Bool
is_erased DocumentStatus.cancelled = true
is_erased DocumentStatus.tombstone = true
is_erased _ = false

abbrev pub stored_status : DocumentStatus → DocumentStatus
stored_status st = if is_terminal st then st else DocumentStatus.error

abbrev pub review_row : ℕ → ℕ → ℕ → ℕ → ReviewTask
review_row id tenant document_id result_id = record {
  id = id;
  document_id = document_id;
  tenant_id = tenant;
  extraction_result_id = result_id;
  status = ReviewStatus.pending;
  corrections = none;
  rejection_reason = none;
  version = 1;
}

-- Whether a text of a snapshot has a NUL character. The texts of the guardrails are cut from a text
-- that the parser has cleaned.
abbrev pub error_has_nul : {F : Type 0} → Option (ErrorText F) → Bool
error_has_nul (some (raised message)) = has_nul message
error_has_nul _ = false

module _ {F : Type 0} ⦃fl : Float F⦄ where
  -- What a column `NUMERIC(4, 3)` keeps.
  abbrev pub rounded : Option F → Option F
  rounded none = none
  rounded (some a) = some (fl.round3 a)

  -- The assignments to the document.
  abbrev pub settle_document : ExtractionState F → Document F → Document F
  settle_document s d = record d {
    status = stored_status (get_or s.status DocumentStatus.error);
    routing_decision = s.routing_decision;
    confidence_overall = over (rounded s.confidence) d.confidence_overall;
  }

  -- One report for each guardrail result.
  abbrev pub add_reports : ℕ → ℕ → List (GuardrailOutcome F) → Db F → Db F
  add_reports tenant document_id [] db = db
  add_reports tenant document_id (o ∷ os) db = add_reports tenant document_id os (record db {
    guardrail_reports =
        db.guardrail_reports
        ++ record { id = db.next_id; document_id = document_id; tenant_id = tenant; outcome = o }
          ∷ [];
    next_id = suc db.next_id;
  })

  -- `_snapshot`
  abbrev pub snapshot : ExtractionState F → Snapshot F
  snapshot s = record {
    current_step = s.current_step;
    routing_decision = s.routing_decision;
    confidence = s.confidence;
    failure_reason = s.failure_reason;
    error = s.error;
    parse_method = s.parse_method;
  }

  abbrev pub add_dead_letter : ℕ → ℕ → ExtractionState F → Db F → Db F
  add_dead_letter tenant document_id s db = record db {
    dlq =
        db.dlq
        ++ record {
          id = db.next_id;
          document_id = document_id;
          tenant_id = tenant;
          failure_reason = get_or s.failure_reason FailureReason.unknown;
          pipeline_state = some (snapshot s);
          last_http_status = none;
          status = DlqStatus.pending;
          retry_count = 0;
        }
          ∷ [];
    next_id = suc db.next_id;
  }

  abbrev pub has_result : ℕ → Db F → Bool
  has_result document_id db = any (λ r. r.document_id == document_id) db.extraction_results

  abbrev pub has_review : ℕ → Db F → Bool
  has_review document_id db = any (λ r. r.document_id == document_id) db.review_tasks

  abbrev pub result_row : ℕ → ℕ → ℕ → ExtractionState F → Dict → ExtractionResult F
  result_row id tenant document_id s extracted = record {
    id = id;
    document_id = document_id;
    tenant_id = tenant;
    extracted_json = some extracted;
    llm_model_used = s.llm_model_used;
    confidence_overall = rounded s.confidence;
    confidence_breakdown = s.confidence_breakdown;
    low_confidence_fields = s.low_confidence_fields;
    missing_fields = s.missing_fields;
  }

  -- The rows that the flushes insert: the result, and the review task of a document under review.
  abbrev pub insert_result :
      Bool → ℕ → ℕ → ExtractionState F → Dict → Db F → Outcome PersistError (Db F)
  insert_result for_review tenant document_id s extracted db =
      let with_result : Db F = record db {
        extraction_results =
            db.extraction_results ++ result_row db.next_id tenant document_id s extracted ∷ [];
        next_id = suc db.next_id;
      } in
      if has_result document_id db
      then err duplicate_result
      else if for_review
      then (if has_review document_id db
          then err duplicate_review
          else ok (record with_result {
            review_tasks =
                db.review_tasks ++ review_row (suc db.next_id) tenant document_id db.next_id ∷ [];
            next_id = suc (suc db.next_id);
          }))
      else ok with_result

  abbrev pub insert_letter : ℕ → ℕ → ExtractionState F → Db F → Outcome PersistError (Db F)
  insert_letter tenant document_id s db =
      if error_has_nul s.error
      then err nul_character
      else ok (add_dead_letter tenant document_id s db)

  module _ (x : Crypto) where
    -- The fields to store: with the PII fields encrypted, if there are any.
    unfoldable pub stored_fields : ℕ → ExtractionState F → Outcome EncryptionError Dict
    unfolding encrypt_fields
    stored_fields tenant s =
        encrypt_fields x.cipher tenant x.nonces 0 (get_or s.pii_fields [])
          (get_or s.extracted_json Json.empty)

    -- `_write_extraction_result`
    unfoldable pub write_extraction_result :
        Bool → ℕ → ℕ → ExtractionState F → Db F → Outcome PersistError (Db F)
    unfolding stored_fields dict_has_nul
    write_extraction_result for_review tenant document_id s db = elim (stored_fields tenant s) [
      | ok extracted ↦
          if dict_has_nul extracted
          then err nul_character
          else insert_result for_review tenant document_id s extracted db
      | err e ↦ err (encryption e)
    ]

    -- The rows that depend on the final status.
    abbrev pub write_rows :
        DocumentStatus → ℕ → ℕ → ExtractionState F → Db F → Outcome PersistError (Db F)
    write_rows DocumentStatus.completed tenant document_id s db =
        write_extraction_result false tenant document_id s db
    write_rows DocumentStatus.review tenant document_id s db =
        write_extraction_result true tenant document_id s db
    write_rows DocumentStatus.rejected tenant document_id s db =
        insert_letter tenant document_id s db
    write_rows DocumentStatus.error tenant document_id s db = insert_letter tenant document_id s db
    write_rows _ tenant document_id s db = ok db

    abbrev pub log_outcome :
        ℕ → ℕ → ExtractionState F → Outcome PersistError (Db F) → Outcome PersistError (Db F)
    log_outcome tenant document_id s (err e) = err e
    log_outcome tenant document_id s (ok db) = ok (
        append_event x.digest tenant (some document_id)
          (Event.pipeline (stored_status (get_or s.status DocumentStatus.error)) s.routing_decision)
          s.extracted_json db)

    -- The part of `_persist_outcome` after the guard.
    abbrev pub write_outcome : ℕ → ℕ → ExtractionState F → Db F → Outcome PersistError (Db F)
    write_outcome tenant document_id s db = log_outcome tenant document_id s (
        write_rows (get_or s.status DocumentStatus.error) tenant document_id s (
          add_reports tenant document_id (get_or s.guardrail_results []) (record db {
            documents = set_row tenant document_id (settle_document s) db.documents;
          })))

    -- `_persist_outcome`, with the registry of app/worker/cancellation.py. `err` is an exception
    -- that leaves the transaction, which is rolled back.
    unfoldable pub persist_outcome :
        List ℕ → ℕ → ℕ → ExtractionState F → Db F → Outcome PersistError (Db F)
    unfolding get_row set_row write_extraction_result append_event
    persist_outcome cancelled tenant document_id s db =
        elim (get_row tenant document_id db.documents) [
          | none ↦ ok db
          | some d ↦
              if is_erased d.status || contains document_id cancelled
              then ok db
              else write_outcome tenant document_id s db
        ]
