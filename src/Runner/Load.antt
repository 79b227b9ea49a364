-- ===== src/Runner/Load.antt =====
-- `_load_initial_state` of app/worker/runner.py. The thresholds of a row are rounded when it is stored,
-- so `float` of one is the double that the row holds here.
use ocr_service.Prelude.{ℕ, String, false, Option, none, some, List, []}
use ocr_service.Json
use ocr_service.Json.{Dict}
use ocr_service.Status.{DocumentStatus}
use ocr_service.Float.{Float}
use ocr_service.Pipeline.State.{ExtractionState, nothing, get_or}
use ocr_service.Store.{Db, Document, Schema, schema_row, document_row}
use ocr_service.Store.Rows.{get_row}

module _ {F : Type 0} ⦃fl : Float F⦄ where
  -- The fields that every initial state has, with those of the schema, or their defaults.
  abbrev state_of :
      ℕ → Document F → String → F → F → Dict → List String → List String → ExtractionState F
  state_of tenant d name high medium json_schema required_fields pii_fields = record (nothing F) {
    document_id = some d.id;
    tenant_id = some tenant;
    schema_id = some d.schema_id;
    schema_version = some d.schema_version;
    schema_name = some name;
    file_storage_key = some (get_or d.file_storage_key "");
    confidence_high = some high;
    confidence_medium = some medium;
    json_schema = some json_schema;
    required_fields = some required_fields;
    pii_fields = some pii_fields;
    status = some DocumentStatus.pending;
    is_cancelled = some false;
  }

  abbrev pub initial_state : ℕ → Document F → Option (Schema F) → ExtractionState F
  initial_state tenant d none =
      state_of tenant d "" (fl.ratio 85 100) (fl.ratio 60 100) Json.empty [] []
  initial_state tenant d (some schema) =
      state_of tenant d schema.name schema.confidence_high schema.confidence_medium
        schema.json_schema schema.required_fields schema.pii_fields

  -- `_load_initial_state`
  unfoldable pub load_initial_state : ℕ → ℕ → Db F → Option (ExtractionState F)
  unfolding get_row
  load_initial_state document_id tenant db = elim (get_row tenant document_id db.documents) [
    | none ↦ none
    | some d ↦ some (initial_state tenant d (get_row tenant d.schema_id db.schemas))
  ]
