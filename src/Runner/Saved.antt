-- ===== src/Runner/Saved.antt =====
-- When `_persist_outcome` of app/worker/runner.py saves the outcome of a run, and what it stores.
use ocr_service.Prelude.{ℕ, ◌≡◌, Bool, true, false, some, [], ◌∷◌, ◌++◌, nat_eq}
use ocr_service.Prelude.Outcome.{Outcome, ok}
use ocr_service.Float.{Float}
use ocr_service.Json.{Dict}
use ocr_service.Pipeline.State.{ExtractionState}
use ocr_service.Store.{Db, ExtractionResult, document_row}
use ocr_service.Runner.Persist.{PersistError}

module _ {F : Type 0} ⦃fl : Float F⦄ where
  -- The extraction results gain one row, of the document, with the fields; or they stay.
  pub Stores : Bool → ℕ → ℕ → Dict → Db F → Db F → Type 0
  Stores true tenant document_id fields db t =
      (row : ExtractionResult F) × (t.extraction_results ≡ db.extraction_results ++ row ∷ [])
      × (row.tenant_id ≡ tenant)
      × (row.document_id ≡ document_id)
      × (row.extracted_json ≡ some fields)
  Stores false tenant document_id fields db t = t.extraction_results ≡ db.extraction_results

  module _ (tenant document_id : ℕ) (s : ExtractionState F) (fields : Dict) where
    -- What is inserted, without an exception.
    Inserts : Bool → Db F → Outcome PersistError (Db F) → Type 0
    Inserts b db o = (t : Db F) × (o ≡ ok t) × Stores b tenant document_id fields db t
