-- ===== src/SchemaRegistry/History.antt =====
-- Any sequence of the operations of app/services/schema_registry.py.
use ocr_service.Prelude.{ℕ, ◌≡◌, String, true, Option, some, arith}
use ocr_service.Prelude.Outcome.{err}
use ocr_service.Float.{Float}
use ocr_service.Store.{Db, Schema, schema_row}
use ocr_service.Store.Rows.{get_row}
use ocr_service.SchemaRegistry.{
  duplicate_version, CreateSchemaRequest, is_active, create_schema, update_schema, add_seed_example,
  activate_schema, get_schema,
}
use ocr_service.SchemaRegistry.Activation.{
  AllReady, IsReady-Seen, after, created, create_schema-AllReady, update_schema-AllReady,
  add_seed_example-AllReady, activate_schema-AllReady,
}

module _ {F : Type 0} ⦃fl : Float F⦄ where
  -- The databases that calls of the registry lead to, those that raise included.
  pub data Reach (db : Db F) : Db F → Type 0 where
    start : Reach db db
    create :
        (tenant : ℕ) (payload : CreateSchemaRequest F) {t : Db F}
        → Reach db t
        → Reach db (created t (create_schema tenant payload t))
    update :
        (tenant schema_id : ℕ) (payload : CreateSchemaRequest F) {t : Db F}
        → Reach db t
        → Reach db (after t (update_schema tenant schema_id payload t))
    seed :
        (failure : Option String) (tenant schema_id : ℕ) {t : Db F}
        → Reach db t
        → Reach db (after t (add_seed_example failure tenant schema_id t))
    activate :
        (tenant schema_id : ℕ) {t : Db F}
        → Reach db t
        → Reach db (after t (activate_schema tenant schema_id t))

  -- From a database where every active schema has three seed examples or more and its current
  -- version on record, calls of the registry, in whatever order, lead only to such databases.
  pub Reach-AllReady : {db t : Db F} → AllReady db → Reach db t → AllReady t
  Reach-AllReady s start = s
  Reach-AllReady s (create tenant payload h) =
      create_schema-AllReady tenant payload _ (Reach-AllReady s h)
  Reach-AllReady s (update tenant schema_id payload h) =
      update_schema-AllReady tenant schema_id payload _ (Reach-AllReady s h)
  Reach-AllReady s (seed failure tenant schema_id h) =
      add_seed_example-AllReady failure tenant schema_id _ (Reach-AllReady s h)
  Reach-AllReady s (activate tenant schema_id h) =
      activate_schema-AllReady tenant schema_id _ (Reach-AllReady s h)

  -- Where every active schema has its version on record, as calls of the registry keep it, an active
  -- schema cannot be activated again: the unique constraint on the snapshots rolls it back.
  pub reactivation_refused :
      (tenant schema_id : ℕ) (r : Schema F) (db : Db F)
      → AllReady db
      → get_row tenant schema_id db.schemas ≡ some r
      → is_active r.status ≡ true
      → activate_schema tenant schema_id db ≡ err duplicate_version
  unfolding activate_schema get_schema
  reactivation_refused tenant schema_id r db s found act =
      let ready = IsReady-Seen tenant schema_id r db s found in
      rw (activate_schema, get_schema, found) (ground (arith, ready.seeded act, ready.recorded act))
