-- ===== src/SchemaRegistry/Activation.antt =====
-- The life of a schema in app/services/schema_registry.py.
use ocr_service.Prelude.{
  sym, ◌∙◌, Option-cases, ap, [], ◌+◌, ◌∷◌, ltb, ◌++◌, Bool, none, arith, Bool-cases, some, ◌&&◌, ℕ,
  ◌≤◌, ◌≡◌, refl, String, true, Option, List, any, ◌==◌, nat_eq, inl, inr,
}
use ocr_service.Prelude.Outcome.{Outcome, ok, err, Outcome-cases}
use ocr_service.Float.{Float}
use ocr_service.Store.{Db, Schema, SchemaVersion, schema_row}
use ocr_service.Store.Laws.{
  Seen-append, Seen-map, Seen-get_row, Seen-none, some_injective, id_of-get_row, KeepsKeys, Seen,
  Seen-set_row,
}
use ocr_service.SchemaRegistry.{
  keeps_constraints, version_row, version_row, bump, has_version, snapshot_version, activate_schema,
  get_row, RegistryError, CreateSchemaRequest, min_seeds_for_activation, is_active, create_schema,
  get_schema, revise, has_name, update_schema, count_seed, add_seed_example, mark_active,
}

any-append :
    (p : SchemaVersion → Bool) (vs ws : List SchemaVersion)
    → any p vs ≡ true
    → any p (vs ++ ws) ≡ true
any-append p [] ws h = ground arith
any-append p (v ∷ vs) ws h = ground (arith, any-append p vs ws)

any_last :
    (p : SchemaVersion → Bool) (vs : List SchemaVersion) (w : SchemaVersion)
    → p w ≡ true
    → any p (vs ++ w ∷ []) ≡ true
any_last p [] w h = ground arith
any_last p (v ∷ vs) w h = ground (arith, any_last p vs w h)

module _ {F : Type 0} where
  -- A schema that is active has its seed examples, and its version is on record.
  pub record IsReady (versions : List SchemaVersion) (r : Schema F) : Type 0 where
    pub seeded : is_active r.status ≡ true → min_seeds_for_activation ≤ r.seed_count
    pub recorded :
        is_active r.status ≡ true
        → any (λ v. v.schema_id == r.id && v.version == r.current_version) versions ≡ true

  -- Every schema that a session can see is ready.
  pub AllReady : Db F → Type 0
  AllReady db = Seen (IsReady db.schema_versions) db.schemas

  pub revise-KeepsKeys :
      ⦃fl : Float F⦄ (payload : CreateSchemaRequest F) → KeepsKeys (revise payload)
  revise-KeepsKeys payload = record { id_kept = λ r. refl; tenant_kept = λ r. refl }

  pub count_seed-KeepsKeys : KeepsKeys (count_seed {F = F})
  count_seed-KeepsKeys = record { id_kept = λ r. refl; tenant_kept = λ r. refl }

  pub mark_active-KeepsKeys : (version : ℕ) → KeepsKeys (mark_active {F = F} version)
  mark_active-KeepsKeys version = record { id_kept = λ r. refl; tenant_kept = λ r. refl }

  -- The database after a call, or the one before it where an exception is raised.
  abbrev pub after : Db F → Outcome RegistryError (Db F) → Db F
  after db (ok t) = t
  after db (err e) = db

  -- Whether the database accepts the thresholds of a request.
  abbrev pub keeps : ⦃fl : Float F⦄ → CreateSchemaRequest F → Bool
  keeps ⦃fl⦄ payload =
      keeps_constraints (fl.round3 payload.confidence_medium) (fl.round3 payload.confidence_high)

  pub update_schema-AllReady :
      ⦃fl : Float F⦄ (tenant schema_id : ℕ) (payload : CreateSchemaRequest F) (db : Db F)
      → AllReady db
      → AllReady (after db (update_schema tenant schema_id payload db))
  unfolding update_schema AllReady
  update_schema-AllReady tenant schema_id payload db s =
      elim (Outcome-cases (get_schema tenant schema_id db)) [
        | inr (e, h) ↦ rw (update_schema, h) s
        | inl (r, h) ↦ (elim (Bool-cases (keeps payload)) [
          | inr c ↦ rw (update_schema, h, c) s
          | inl c ↦
              rw (update_schema, h, c)
                (Seen-set_row (IsReady db.schema_versions) tenant schema_id (revise payload)
                  db.schemas (revise-KeepsKeys payload)
                  (λ a at ready. record { seeded = ready.seeded; recorded = ready.recorded }) s)
        ])
      ]

  pub add_seed_example-AllReady :
      (failure : Option String) (tenant schema_id : ℕ) (db : Db F)
      → AllReady db
      → AllReady (after db (add_seed_example failure tenant schema_id db))
  unfolding add_seed_example AllReady
  add_seed_example-AllReady (some message) tenant schema_id db s =
      elim (Outcome-cases (get_schema tenant schema_id db)) [
        | inr (e, h) ↦ rw (add_seed_example, h) s
        | inl (r, h) ↦ rw (add_seed_example, h) s
      ]
  add_seed_example-AllReady none tenant schema_id db s =
      elim (Outcome-cases (get_schema tenant schema_id db)) [
        | inr (e, h) ↦ rw (add_seed_example, h) s
        | inl (r, h) ↦
            rw (add_seed_example, h)
              (Seen-set_row (IsReady db.schema_versions) tenant schema_id count_seed db.schemas
                count_seed-KeepsKeys
                (λ a at ready. record {
                  seeded = λ act. omega (arith, ready.seeded act);
                  recorded = ready.recorded;
                })
                s)
      ]

  abbrev pub created : Db F → Outcome RegistryError (Schema F × Db F) → Db F
  created db (ok (r, t)) = t
  created db (err e) = db

  pub create_schema-AllReady :
      ⦃fl : Float F⦄ (tenant : ℕ) (payload : CreateSchemaRequest F) (db : Db F)
      → AllReady db
      → AllReady (created db (create_schema tenant payload db))
  unfolding create_schema AllReady
  create_schema-AllReady tenant payload db s = elim (Bool-cases (has_name tenant payload.name db)) [
    | inl h ↦ rw (create_schema, h) s
    | inr h ↦ (elim (Bool-cases (keeps payload)) [
      | inr c ↦ rw (create_schema, h, c) s
      | inl c ↦
          rw (create_schema, h, c)
            (Seen-append (IsReady db.schema_versions) db.schemas _ s
              (record { seeded = λ act. ground arith; recorded = λ act. ground arith }))
    ])
  ]

  grown-IsReady :
      (vs : List SchemaVersion) (w : SchemaVersion) (a : Schema F)
      → IsReady vs a
      → IsReady (vs ++ w ∷ []) a
  grown-IsReady vs w a ready = record {
    seeded = ready.seeded;
    recorded = λ act. any-append _ vs (w ∷ []) (ready.recorded act);
  }

  mark_active-IsReady :
      (vs : List SchemaVersion) (id version : ℕ) (r a : Schema F)
      → r.id ≡ a.id
      → min_seeds_for_activation ≤ a.seed_count
      → IsReady (vs ++ version_row id r version ∷ []) (mark_active version a)
  mark_active-IsReady vs id version r a same seeds = record {
    seeded = λ act. seeds;
    recorded = λ act. any_last _ vs (version_row id r version) (ground (arith, same));
  }

  snapshot_version-AllReady :
      (tenant : ℕ) (r : Schema F) (version : ℕ) (db : Db F)
      → get_row tenant r.id db.schemas ≡ some r
      → min_seeds_for_activation ≤ r.seed_count
      → AllReady db
      → AllReady (after db (snapshot_version tenant r version db))
  unfolding AllReady
  snapshot_version-AllReady tenant r version db found seeds s =
      elim (Bool-cases (has_version r.id version db)) [
        | inl h ↦ rw h s
        | inr h ↦ rw h (
            Seen-set_row (IsReady (db.schema_versions ++ version_row db.next_id r version ∷ []))
              tenant r.id (mark_active version) db.schemas (mark_active-KeepsKeys version)
              (λ a at ready.
                let same = some_injective (sym found ∙ at) in
                mark_active-IsReady db.schema_versions db.next_id version r a (ap (λ b. b.id) same)
                  (rw (ap (λ b. b.seed_count) same) at seeds))
              (Seen-map (IsReady db.schema_versions) _ db.schemas
                (grown-IsReady db.schema_versions (version_row db.next_id r version)) s))
      ]

  get_row-get_schema :
      (tenant schema_id : ℕ) (db : Db F) (r : Schema F)
      → get_schema tenant schema_id db ≡ ok r
      → get_row tenant schema_id db.schemas ≡ some r
  unfolding get_schema
  get_row-get_schema tenant schema_id db r h =
      elim (Option-cases (get_row tenant schema_id db.schemas)) [
        | inl n ↦ ground (arith, n, h)
        | inr (q, found) ↦ ground (arith, found, h)
      ]

  -- A row that is found is found under its own id.
  own_row :
      (tenant schema_id : ℕ) (db : Db F) (r : Schema F)
      → get_row tenant schema_id db.schemas ≡ some r
      → get_row tenant r.id db.schemas ≡ some r
  own_row tenant schema_id db r found =
      ap (λ n. get_row tenant n db.schemas) (id_of-get_row tenant schema_id db.schemas r found)
      ∙ found

  pub activate_schema-AllReady :
      (tenant schema_id : ℕ) (db : Db F)
      → AllReady db
      → AllReady (after db (activate_schema tenant schema_id db))
  unfolding activate_schema AllReady
  activate_schema-AllReady tenant schema_id db s =
      elim (Outcome-cases (get_schema tenant schema_id db)) [
        | inr (e, h) ↦ rw (activate_schema, h) s
        | inl (r, h) ↦ (elim (Bool-cases (ltb r.seed_count min_seeds_for_activation)) [
          | inl few ↦ rw (activate_schema, h, few) s
          | inr many ↦
              rw (activate_schema, h, many)
                (snapshot_version-AllReady tenant r (r.current_version + bump r.status) db
                  (own_row tenant schema_id db r (get_row-get_schema tenant schema_id db r h))
                  (ground arith) s)
        ])
      ]

  pub IsReady-Seen :
      (tenant schema_id : ℕ) (r : Schema F) (db : Db F)
      → AllReady db
      → get_row tenant schema_id db.schemas ≡ some r
      → IsReady db.schema_versions r
  unfolding AllReady
  IsReady-Seen tenant schema_id r db s found =
      Seen-get_row (IsReady db.schema_versions) tenant schema_id db.schemas r s found

  pub AllReady-start : (db : Db F) → db.schemas ≡ [] → AllReady db
  unfolding AllReady
  AllReady-start db h = rw h (Seen-none (IsReady db.schema_versions))
