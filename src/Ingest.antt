-- ===== src/Ingest.antt =====
-- app/services/ingest.py, and the settings that it reads. The blob storage is a parameter: the key
-- under which a blob is saved, or the text of an exception.
pub mod Creation
use ocr_service.Prelude.{
  false, true, ℕ, suc, ◌*◌, String, Bool, ◌&&◌, Option, none, some, List, [], ◌∷◌, ◌++◌, map,
  length, keep, any, ltb, ◌==◌, nat_eq, string_eq, contains, if◌then◌else◌,
}
use ocr_service.Prelude.Outcome.{Outcome, ok, err}
use ocr_service.Status.{SchemaStatus, DocumentStatus}
use ocr_service.Store.{Db, Document, Schema}

-- `max_file_size_bytes` and `allowed_mime_types` of app/config.py.
pub record Settings : Type 0 where
  pub max_file_size_bytes : ℕ
  pub allowed_mime_types : List String

abbrev pub default_settings : Settings
default_settings = record {
  max_file_size_bytes = 20 * 1024 * 1024;
  allowed_mime_types =
      "application/pdf" ∷ "image/png" ∷ "image/jpeg"
      ∷ "application/vnd.openxmlformats-officedocument.wordprocessingml.document" ∷ [];
}

-- The exceptions of `create_document`: the four of the module, `scalar_one_or_none` on more than
-- one row, and what the storage raises.
pub data IngestError : Type 0 where
  empty_file file_too_large unsupported_media_type unknown_schema multiple_schemas : IngestError
  storage_failed : String → IngestError

abbrev pub is_allowed : Option String → List String → Bool
is_allowed none allowed = false
is_allowed (some mime_type) allowed = contains mime_type allowed

-- `validate_upload`; `none` where it returns.
unfoldable pub validate_upload : Settings → List ℕ → Option String → Option IngestError
validate_upload settings [] mime_type = some empty_file
validate_upload settings (b ∷ content) mime_type =
    if ltb settings.max_file_size_bytes (suc (length content))
    then some file_too_large
    else if is_allowed mime_type settings.allowed_mime_types
    then none
    else some unsupported_media_type

abbrev pub is_active : SchemaStatus → Bool
is_active SchemaStatus.active = true
is_active _ = false

module _ {F : Type 0} where
  -- The rows of the query for the active schema of a name, in a tenant's session.
  abbrev pub active_schemas : ℕ → String → Db F → List (Schema F)
  active_schemas tenant schema_name db =
      keep (λ r. r.tenant_id == tenant && (r.name == schema_name && is_active r.status)) db.schemas

  abbrev pub only_schema : List (Schema F) → Outcome IngestError (Schema F)
  only_schema [] = err unknown_schema
  only_schema (r ∷ []) = ok r
  only_schema (r ∷ q ∷ rows) = err multiple_schemas

  -- `_resolve_active_schema`
  unfoldable pub resolve_active_schema : ℕ → String → Db F → Outcome IngestError (Schema F)
  resolve_active_schema tenant schema_name db = only_schema (active_schemas tenant schema_name db)

  -- The new row, with the id that the flush assigns and the key of its blob.
  abbrev pub pending_document :
      ℕ → ℕ → Schema F → Option String → ℕ → Option String → Bool → String → Document F
  pending_document id tenant schema file_name size mime_type is_dry_run key = record {
    id = id;
    tenant_id = tenant;
    schema_id = schema.id;
    schema_version = schema.current_version;
    file_name = file_name;
    file_size_bytes = size;
    mime_type = mime_type;
    file_storage_key = some key;
    status = DocumentStatus.pending;
    confidence_overall = none;
    routing_decision = none;
    is_dry_run = is_dry_run;
  }

  -- What the flush and the storage do, once the schema is known.
  abbrev pub insert_document :
      (ℕ → ℕ → List ℕ → Outcome String String)
      → ℕ
      → Schema F
      → Option String
      → List ℕ
      → Option String
      → Bool
      → Db F
      → Outcome IngestError (ℕ × Db F)
  insert_document save tenant schema file_name content mime_type is_dry_run db =
      elim (save tenant db.next_id content) [
        | ok key ↦ ok (
          db.next_id,
          record db {
            documents =
                db.documents
                ++ pending_document db.next_id tenant schema file_name (length content) mime_type
                    is_dry_run key
                  ∷ [];
            next_id = suc db.next_id;
          },
        )
        | err message ↦ err (storage_failed message)
      ]

  -- `create_document`, with the id of the new document. `err` rolls the transaction back.
  unfoldable pub create_document :
      Settings
      → (ℕ → ℕ → List ℕ → Outcome String String)
      → ℕ
      → String
      → Option String
      → List ℕ
      → Option String
      → Bool
      → Db F
      → Outcome IngestError (ℕ × Db F)
  unfolding validate_upload resolve_active_schema
  create_document settings save tenant schema_name file_name content mime_type is_dry_run db =
      elim (validate_upload settings content mime_type) [
        | some e ↦ err e
        | none ↦ elim (resolve_active_schema tenant schema_name db) [
          | err e ↦ err e
          | ok schema ↦ insert_document save tenant schema file_name content mime_type is_dry_run db
        ]
      ]
