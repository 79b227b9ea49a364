-- ===== src/Api/Extract.antt =====
-- `extract` of app/api/routers/extract.py.
use ocr_service.Prelude.{
  ℕ, String, Bool, Option, none, some, List, [], ◌∷◌, ◌==◌, nat_eq, if◌then◌else◌,
}
use ocr_service.Prelude.Outcome.{Outcome, ok, err}
use ocr_service.Store.{Db, Tenant}
use ocr_service.RateLimit.{acquire, release}
use ocr_service.Ingest.{
  Settings, IngestError, empty_file, file_too_large, unsupported_media_type, unknown_schema,
  multiple_schemas, storage_failed, create_document,
}
use ocr_service.Runner.Process.{Process, enqueue_pipeline}
use ocr_service.Api.{
  HttpError, too_large_413, unprocessable_422, too_many_requests_429, server_error,
}

-- `session.get(Tenant, id)`
unfoldable pub get_tenant : ℕ → List Tenant → Option Tenant
get_tenant id [] = none
get_tenant id (t ∷ ts) = if t.id == id then some t else get_tenant id ts

abbrev pub queue_size : Option Tenant → ℕ
queue_size (some t) = t.max_queue_size
queue_size none = 500

-- The answer to each exception of `create_document`.
abbrev pub http_error : IngestError → HttpError
http_error file_too_large = too_large_413
http_error empty_file = unprocessable_422
http_error unsupported_media_type = unprocessable_422
http_error unknown_schema = unprocessable_422
http_error multiple_schemas = server_error "Multiple rows were found when one or none was required"
http_error (storage_failed message) = server_error message

-- A request: the tenant of its credential, the form and the file.
pub record Upload : Type 0 where
  pub tenant : ℕ
  pub schema_name : String
  pub file_name : Option String
  pub content : List ℕ
  pub mime_type : Option String
  pub dry_run : Bool

module _ {F : Type 0} (settings : Settings) (save : ℕ → ℕ → List ℕ → Outcome String String) where
  -- The part after the slot is taken.
  abbrev pub admit :
      Upload → Process F → Outcome IngestError (ℕ × Db F) → Outcome HttpError ℕ × Process F
  admit u p (ok (document_id, db)) =
      (ok document_id, enqueue_pipeline document_id u.tenant (record p { db = db }))
  admit u p (err e) = (err (http_error e), record p { slots = release u.tenant p.slots })

  -- `extract`: the id of the accepted document, and the process.
  unfoldable pub extract : Upload → Process F → Outcome HttpError ℕ × Process F
  unfolding get_tenant acquire release create_document
  extract u p = elim (acquire u.tenant (queue_size (get_tenant u.tenant p.db.tenants)) p.slots) [
    | err e ↦ (err too_many_requests_429, p)
    | ok slots ↦
        admit u (record p { slots = slots })
          (create_document settings save u.tenant u.schema_name u.file_name u.content u.mime_type
            u.dry_run p.db)
  ]
