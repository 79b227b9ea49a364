-- ===== src/Review/Decided.antt =====
-- What an action of app/services/review.py leaves: the task, the document, the fields of the
-- extraction, and the event of the audit.
use ocr_service.Prelude.{ℕ, ◌≡◌, ◌⊎◌, Option, none, some, string_eq}
use ocr_service.Json.{Dict}
use ocr_service.Store.{Db, ReviewTask, ExtractionResult, review_row, document_row, extraction_row}
use ocr_service.Store.Rows.{get_row}
use ocr_service.Store.Laws.{map_option}
use ocr_service.Review.{Document, Document, ReviewAction}
use ocr_service.Review.Meaning.{document_status, AsBefore, Judged, FieldsOf, Logged}

module _ {F : Type 0} where
  -- The extraction of the task: only its fields change.
  abbrev Corrected :
      ReviewAction → Option (ExtractionResult F) → Option (ExtractionResult F) → Type 0
  Corrected a none new = new ≡ none
  Corrected a (some e) new =
      (fields : Option Dict) × (new ≡ some (record e { extracted_json = fields }))
      × FieldsOf a e.extracted_json fields

  pub record Decided (tenant : ℕ) (a : ReviewAction) (r : ReviewTask) (db t : Db F) : Type 0 where
    pub task :
        (u : ReviewTask) × (get_row tenant r.id t.review_tasks ≡ some u)
        × (((u ≡ r) × AsBefore a r) ⊎ Judged a r u)
    pub document :
        get_row tenant r.document_id t.documents
        ≡ map_option
            (λ d. record d { status = document_status a })
            (get_row tenant r.document_id db.documents)
    pub extraction :
        Corrected a
          (get_row tenant r.extraction_result_id db.extraction_results)
          (get_row tenant r.extraction_result_id t.extraction_results)
    pub audit : Logged tenant a r db.audit_log t.audit_log
