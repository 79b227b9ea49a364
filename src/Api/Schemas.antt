-- ===== src/Api/Schemas.antt =====
-- The handlers of app/api/routers/schemas.py that change the registry, with the checks of their
-- requests in app/api/schemas/schema_registry.py.
use ocr_service.Prelude.{ℕ, String, Bool, ◌&&◌, Option, List, [], ◌∷◌, leb, if◌then◌else◌}
use ocr_service.Prelude.Outcome.{Outcome, ok, err}
use ocr_service.Text.{size, is_empty}
use ocr_service.Float.{Float, ◌<=◌, less}
use ocr_service.Store.{Db, Schema}
use ocr_service.SchemaRegistry.{
  RegistryError, schema_not_found, duplicate_schema, activation_refused, duplicate_version,
  constraint_violated, example_failed, CreateSchemaRequest, create_schema, update_schema,
  add_seed_example, activate_schema, validate_thresholds,
}
use ocr_service.Api.{HttpError, not_found_404, conflict_409, unprocessable_422, server_error}

module _ {F : Type 0} ⦃fl : Float F⦄ where
  -- The constraints of the fields of `SchemaBase`.
  abbrev pub has_valid_name : CreateSchemaRequest F → Bool
  has_valid_name q = leb 1 (size q.name) && leb (size q.name) 255

  abbrev pub has_valid_high : CreateSchemaRequest F → Bool
  has_valid_high q = less (fl.ratio 0 1) q.confidence_high && q.confidence_high <= fl.ratio 1 1

  abbrev pub has_valid_medium : CreateSchemaRequest F → Bool
  has_valid_medium q =
      fl.ratio 0 1 <= q.confidence_medium && less q.confidence_medium (fl.ratio 1 1)

  -- These, and `validate_thresholds`.
  unfoldable pub is_valid_request : CreateSchemaRequest F → Bool
  is_valid_request q =
      has_valid_name q && (has_valid_high q && (has_valid_medium q && validate_thresholds q))

-- What the handlers answer to an exception of the registry; `IntegrityError` and what the vector
-- store raises are not caught.
abbrev pub registry_response : RegistryError → HttpError
registry_response schema_not_found = not_found_404
registry_response duplicate_schema = conflict_409
registry_response (activation_refused n) = conflict_409
registry_response duplicate_version = server_error "duplicate key value"
registry_response constraint_violated = server_error "check constraint"
registry_response (example_failed message) = server_error message

-- The requests of the router that write.
pub data SchemaCall (F : Type 0) : Type 0 where
  post : CreateSchemaRequest F → SchemaCall F
  put : ℕ → CreateSchemaRequest F → SchemaCall F
  add_seed : ℕ → String → Option String → SchemaCall F
  activate : ℕ → SchemaCall F

module _ {F : Type 0} ⦃fl : Float F⦄ where
  abbrev pub registry_answer : Outcome RegistryError (Db F) → Outcome HttpError (Db F)
  registry_answer (ok db) = ok db
  registry_answer (err e) = err (registry_response e)

  abbrev pub created_answer : Outcome RegistryError (Schema F × Db F) → Outcome HttpError (Db F)
  created_answer (ok (schema, db)) = ok db
  created_answer (err e) = err (registry_response e)

  -- `create_schema`, `update_schema`, `add_seed` and `activate_schema`, for a tenant.
  unfoldable pub handle_schema_call : ℕ → SchemaCall F → Db F → Outcome HttpError (Db F)
  unfolding is_valid_request create_schema update_schema add_seed_example activate_schema
  handle_schema_call tenant (post q) db =
      if is_valid_request q
      then created_answer (create_schema tenant q db)
      else err unprocessable_422
  handle_schema_call tenant (put schema_id q) db =
      if is_valid_request q
      then registry_answer (update_schema tenant schema_id q db)
      else err unprocessable_422
  handle_schema_call tenant (add_seed schema_id input_text failure) db =
      if is_empty input_text
      then err unprocessable_422
      else registry_answer (add_seed_example failure tenant schema_id db)
  handle_schema_call tenant (activate schema_id) db =
      registry_answer (activate_schema tenant schema_id db)

  -- The database after a request: an exception rolls it back.
  abbrev pub committed : Db F → Outcome HttpError (Db F) → Db F
  committed db (ok t) = t
  committed db (err e) = db

  -- Requests of any tenants, one after the other.
  abbrev pub serve : List (ℕ × SchemaCall F) → Db F → Db F
  serve [] db = db
  serve ((tenant, call) ∷ calls) db = serve calls (committed db (handle_schema_call tenant call db))
