-- ===== src/SchemaRegistry.antt =====
-- app/services/schema_registry.py, with the request of app/api/schemas/schema_registry.py. A session
-- sees the schemas of its tenant. The thresholds are columns `NUMERIC(4, 3)`. The vector store and the embedder that `add_seed_example` calls
-- are a parameter: none, or the text of the exception.
pub mod Activation
pub mod History
use ocr_service.Prelude.{
  ℕ, suc, ◌+◌, String, Bool, true, false, not, ◌&&◌, Option, none, some, List, [], ◌∷◌, ◌++◌, any,
  keep, ltb, ◌==◌, nat_eq, string_eq, if◌then◌else◌,
}
use ocr_service.Prelude.Outcome.{Outcome, ok, err}
use ocr_service.Json.{Dict}
use ocr_service.Float.{Float, ◌<=◌, less}
use ocr_service.Status.{SchemaStatus}
use ocr_service.Store.{Db, Schema, SchemaVersion, schema_row}
use ocr_service.Store.Rows.{get_row, set_row}

pub data RegistryError : Type 0 where
  schema_not_found duplicate_schema : RegistryError
  activation_refused : ℕ → RegistryError
  duplicate_version constraint_violated : RegistryError
  example_failed : String → RegistryError

pub record CreateSchemaRequest (F : Type 0) : Type 0 where
  pub name : String
  pub description : Option String
  pub json_schema : Dict
  pub required_fields : List String
  pub pii_fields : List String
  pub prompt_template : Option String
  pub confidence_high : F
  pub confidence_medium : F
  pub config : Dict

-- `MIN_SEEDS_FOR_ACTIVATION`
abbrev pub min_seeds_for_activation : ℕ
min_seeds_for_activation = 3

abbrev pub is_active : SchemaStatus → Bool
is_active SchemaStatus.active = true
is_active _ = false

-- `schema.current_version += 1 if schema.status == "deprecated" else 0`, unless it is active.
abbrev pub bump : SchemaStatus → ℕ
bump SchemaStatus.deprecated = 1
bump _ = 0

module _ {F : Type 0} where
  abbrev pub has_name : ℕ → String → Db F → Bool
  has_name tenant name db = any (λ r. r.tenant_id == tenant && r.name == name) db.schemas

  -- `get_schema`
  unfoldable pub get_schema : ℕ → ℕ → Db F → Outcome RegistryError (Schema F)
  unfolding get_row
  get_schema tenant schema_id db = elim (get_row tenant schema_id db.schemas) [
    | some r ↦ ok r
    | none ↦ err schema_not_found
  ]

  module _ ⦃fl : Float F⦄ where
    -- The CHECK constraints on the thresholds in migrations/versions/001_initial_schema.py.
    abbrev pub keeps_constraints : F → F → Bool
    keeps_constraints medium high =
        fl.ratio 0 1 <= medium && (less medium high && high <= fl.ratio 1 1)

    -- The flush of a schema that is inserted or updated: its thresholds are rounded by then.
    abbrev pub flush_schema :
        {A : Type 0} → Schema F → Outcome RegistryError A → Outcome RegistryError A
    flush_schema r saved =
        if keeps_constraints r.confidence_medium r.confidence_high
        then saved
        else err constraint_violated

    abbrev pub new_schema : ℕ → ℕ → CreateSchemaRequest F → Schema F
    new_schema id tenant payload = record {
      id = id;
      tenant_id = tenant;
      name = payload.name;
      description = payload.description;
      json_schema = payload.json_schema;
      required_fields = payload.required_fields;
      pii_fields = payload.pii_fields;
      prompt_template = payload.prompt_template;
      status = SchemaStatus.draft;
      current_version = 1;
      confidence_high = fl.round3 payload.confidence_high;
      confidence_medium = fl.round3 payload.confidence_medium;
      seed_count = 0;
      config = payload.config;
    }

    -- `create_schema`, with the new row.
    unfoldable pub create_schema :
        ℕ → CreateSchemaRequest F → Db F → Outcome RegistryError (Schema F × Db F)
    create_schema tenant payload db =
        let schema = new_schema db.next_id tenant payload in
        if has_name tenant payload.name db
        then err duplicate_schema
        else flush_schema schema (
            ok
              (schema, record db { schemas = db.schemas ++ schema ∷ []; next_id = suc db.next_id }))

    abbrev pub revise : CreateSchemaRequest F → Schema F → Schema F
    revise payload r = record r {
      description = payload.description;
      json_schema = payload.json_schema;
      required_fields = payload.required_fields;
      pii_fields = payload.pii_fields;
      prompt_template = payload.prompt_template;
      confidence_high = fl.round3 payload.confidence_high;
      confidence_medium = fl.round3 payload.confidence_medium;
      config = payload.config;
    }

    -- `update_schema`. `err` rolls the transaction back.
    unfoldable pub update_schema :
        ℕ → ℕ → CreateSchemaRequest F → Db F → Outcome RegistryError (Db F)
    unfolding get_schema set_row
    update_schema tenant schema_id payload db = elim (get_schema tenant schema_id db) [
      | err e ↦ err e
      | ok r ↦
          flush_schema (revise payload r)
            (ok (record db { schemas = set_row tenant schema_id (revise payload) db.schemas }))
    ]

  abbrev pub count_seed : Schema F → Schema F
  count_seed r = record r { seed_count = r.seed_count + 1 }

  -- `add_seed_example`
  unfoldable pub add_seed_example : Option String → ℕ → ℕ → Db F → Outcome RegistryError (Db F)
  unfolding get_schema set_row
  add_seed_example failure tenant schema_id db = elim (get_schema tenant schema_id db) [
    | err e ↦ err e
    | ok r ↦ elim failure [
      | some message ↦ err (example_failed message)
      | none ↦ ok (record db { schemas = set_row tenant schema_id count_seed db.schemas })
    ]
  ]

  abbrev pub version_row : ℕ → Schema F → ℕ → SchemaVersion
  version_row id r version = record {
    id = id;
    schema_id = r.id;
    tenant_id = r.tenant_id;
    version = version;
    json_schema = r.json_schema;
    required_fields = r.required_fields;
    pii_fields = r.pii_fields;
    prompt_template = r.prompt_template;
  }

  -- The unique constraint on (schema_id, version).
  abbrev pub has_version : ℕ → ℕ → Db F → Bool
  has_version schema_id version db =
      any (λ v. v.schema_id == schema_id && v.version == version) db.schema_versions

  abbrev pub mark_active : ℕ → Schema F → Schema F
  mark_active version r = record r { status = SchemaStatus.active; current_version = version }

  -- The snapshot, the assignments and the flush of `activate_schema`.
  abbrev pub snapshot_version : ℕ → Schema F → ℕ → Db F → Outcome RegistryError (Db F)
  snapshot_version tenant r version db =
      if has_version r.id version db
      then err duplicate_version
      else ok (record db {
        schema_versions = db.schema_versions ++ version_row db.next_id r version ∷ [];
        schemas = set_row tenant r.id (mark_active version) db.schemas;
        next_id = suc db.next_id;
      })

  abbrev pub activate : ℕ → Schema F → Db F → Outcome RegistryError (Db F)
  activate tenant r db =
      if ltb r.seed_count min_seeds_for_activation
      then err (activation_refused r.seed_count)
      else snapshot_version tenant r (r.current_version + bump r.status) db

  -- `activate_schema`. `err` rolls the transaction back.
  unfoldable pub activate_schema : ℕ → ℕ → Db F → Outcome RegistryError (Db F)
  unfolding get_schema set_row
  activate_schema tenant schema_id db = elim (get_schema tenant schema_id db) [
    | err e ↦ err e
    | ok r ↦ activate tenant r db
  ]

-- `validate_thresholds`: whether a request is accepted.
abbrev pub validate_thresholds : {F : Type 0} ⦃fl : Float F⦄ → CreateSchemaRequest F → Bool
validate_thresholds payload = not (payload.confidence_high <= payload.confidence_medium)
