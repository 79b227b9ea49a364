-- ===== src/Api/Reads.antt =====
-- The endpoints of app/api/routers that only read: a document with all that belongs to it, the review
-- queue, the dead-letter queue and the schemas. A table is in the order of `created_at`.
use ocr_service.Prelude.{
  ℕ, suc, zero, String, Bool, true, false, ◌&&◌, ◌||◌, Option, none, some, List, [], ◌∷◌, ◌++◌,
  keep, leb, ◌==◌, nat_eq, string_eq, if◌then◌else◌,
}
use ocr_service.Prelude.Outcome.{Outcome, ok, err}
use ocr_service.Status.{ReviewStatus, DlqStatus}
use ocr_service.Store.{
  Db, Document, ExtractionResult, GuardrailReport, ReviewTask, DeadLetter, Schema, document_row,
  extraction_row, review_row, dlq_row, schema_row,
}
use ocr_service.Store.Rows.{get_row}
use ocr_service.Api.{HttpError, not_found_404, unprocessable_422, server_error}

-- `DocumentDetailResponse`
pub record DocumentDetail (F : Type 0) : Type 0 where
  pub document : Document F
  pub extraction_result : Option (ExtractionResult F)
  pub guardrail_reports : List (GuardrailReport F)
  pub review_task : Option ReviewTask

-- `scalar_one_or_none`
abbrev pub one_or_none : {A : Type 0} → List A → Outcome HttpError (Option A)
one_or_none [] = ok none
one_or_none (a ∷ []) = ok (some a)
one_or_none (a ∷ b ∷ rows) =
    err (server_error "Multiple rows were found when one or none was required")

-- `_OPEN_STATUSES`
abbrev pub is_open_status : ReviewStatus → Bool
is_open_status ReviewStatus.pending = true
is_open_status ReviewStatus.in_progress = true
is_open_status _ = false

-- The text of the column `status`.
abbrev pub status_text : DlqStatus → String
status_text DlqStatus.pending = "pending"
status_text DlqStatus.retrying = "retrying"
status_text DlqStatus.resolved = "resolved"
status_text DlqStatus.expired = "expired"

-- `DeadLetter.status == status_filter`, where the filter is a text that is not empty.
abbrev pub has_status : Option String → DlqStatus → Bool
has_status none s = true
has_status (some filter) s = filter == "" || status_text s == filter

module _ {A : Type 0} where
  -- `LIMIT n`
  unfoldable pub limited : ℕ → List A → List A
  limited zero rows = []
  limited (suc n) [] = []
  limited (suc n) (a ∷ rows) = a ∷ limited n rows

  -- `OFFSET n`
  unfoldable pub skipped : ℕ → List A → List A
  skipped zero rows = rows
  skipped (suc n) [] = []
  skipped (suc n) (a ∷ rows) = skipped n rows

  -- `ORDER BY created_at DESC`
  abbrev pub newest_first : List A → List A
  newest_first [] = []
  newest_first (a ∷ rows) = newest_first rows ++ a ∷ []

module _ {F : Type 0} where
  abbrev pub extractions_of : ℕ → ℕ → Db F → List (ExtractionResult F)
  extractions_of tenant document_id db =
      keep (λ r. r.tenant_id == tenant && r.document_id == document_id) db.extraction_results

  abbrev pub reports_of : ℕ → ℕ → Db F → List (GuardrailReport F)
  reports_of tenant document_id db =
      keep (λ r. r.tenant_id == tenant && r.document_id == document_id) db.guardrail_reports

  abbrev pub reviews_of : ℕ → ℕ → Db F → List ReviewTask
  reviews_of tenant document_id db =
      keep (λ r. r.tenant_id == tenant && r.document_id == document_id) db.review_tasks

  abbrev pub detail_of :
      Document F
      → Outcome HttpError (Option (ExtractionResult F))
      → List (GuardrailReport F)
      → Outcome HttpError (Option ReviewTask)
      → Outcome HttpError (DocumentDetail F)
  detail_of d (err e) reports review = err e
  detail_of d (ok extraction) reports (err e) = err e
  detail_of d (ok extraction) reports (ok review) = ok (record {
    document = d;
    extraction_result = extraction;
    guardrail_reports = reports;
    review_task = review;
  })

  -- `get_document` of app/api/routers/extract.py
  unfoldable pub get_document : ℕ → ℕ → Db F → Outcome HttpError (DocumentDetail F)
  unfolding get_row
  get_document tenant document_id db = elim (get_row tenant document_id db.documents) [
    | none ↦ err not_found_404
    | some d ↦
        detail_of d (one_or_none (extractions_of tenant document_id db))
          (reports_of tenant document_id db) (one_or_none (reviews_of tenant document_id db))
  ]

  -- `list_review_queue` of app/api/routers/review.py
  unfoldable pub list_review_queue : ℕ → Db F → List ReviewTask
  list_review_queue tenant db =
      keep (λ r. r.tenant_id == tenant && is_open_status r.status) db.review_tasks

  -- `get_review`: the task, and its extraction, if that is there.
  unfoldable pub get_review :
      ℕ → ℕ → Db F → Outcome HttpError (ReviewTask × Option (ExtractionResult F))
  unfolding get_row
  get_review tenant review_id db = elim (get_row tenant review_id db.review_tasks) [
    | none ↦ err not_found_404
    | some r ↦ ok (r, get_row tenant r.extraction_result_id db.extraction_results)
  ]

  abbrev pub dead_letters : ℕ → Option String → Db F → List (DeadLetter F)
  dead_letters tenant status_filter db =
      newest_first (keep (λ e. e.tenant_id == tenant && has_status status_filter e.status) db.dlq)

  -- `list_dlq` of app/api/routers/dlq.py; a limit out of range is a 422.
  unfoldable pub list_dlq :
      ℕ → Option String → ℕ → ℕ → Db F → Outcome HttpError (List (DeadLetter F))
  unfolding limited skipped
  list_dlq tenant status_filter limit offset db =
      if leb 1 limit && leb limit 200
      then ok (limited limit (skipped offset (dead_letters tenant status_filter db)))
      else err unprocessable_422

  -- `get_dlq`
  unfoldable pub get_dlq : ℕ → ℕ → Db F → Outcome HttpError (DeadLetter F)
  unfolding get_row
  get_dlq tenant dlq_id db = elim (get_row tenant dlq_id db.dlq) [
    | none ↦ err not_found_404
    | some e ↦ ok e
  ]

  -- `list_schemas` of app/services/schema_registry.py
  unfoldable pub list_schemas : ℕ → Db F → List (Schema F)
  list_schemas tenant db = newest_first (keep (λ r. r.tenant_id == tenant) db.schemas)
