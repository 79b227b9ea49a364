-- ===== src/Review/Actions.antt =====
-- What `apply_action` of app/services/review.py leaves in the database.
use ocr_service.Prelude.{
  [], ◌∷◌, ◌++◌, [], ◌∷◌, ◌++◌, sym, ap, ◌∙◌, ℕ, ◌≡◌, refl, String, true, none, some, arith,
  Bool-cases, ◌==◌, nat_eq, inl, inr, if◌then◌else◌,
}
use ocr_service.Prelude.Outcome.{err, Outcome, ok}
use ocr_service.Json.{Dict}
use ocr_service.Audit.{append_event}
use ocr_service.Store.{
  Db, AuditLog, ReviewTask, ExtractionResult, review_row, document_row, extraction_row,
}
use ocr_service.Store.Rows.{get_row, set_row}
use ocr_service.Store.Laws.{KeepsKeys, get-set_row, map_option}
use ocr_service.Review.{
  ReviewError, ReviewError, act_on, ReviewAction, accept, correct, reject, decide, is_dirty,
  update_task, write_task, apply_corrections, correct_extraction, settle_reviewed, flush_action,
  apply_action, refusal, review_event,
}

pub update_task-KeepsKeys : (a : ReviewAction) (v : ℕ) → KeepsKeys (update_task a v)
update_task-KeepsKeys accept v = record { id_kept = λ r. refl; tenant_kept = λ r. refl }
update_task-KeepsKeys (correct cs) v = record { id_kept = λ r. refl; tenant_kept = λ r. refl }
update_task-KeepsKeys (reject t) v = record { id_kept = λ r. refl; tenant_kept = λ r. refl }

-- The columns of the task after an action, if nobody has changed it.
abbrev pub acted : ReviewAction → ReviewTask → ReviewTask → ReviewTask
acted a old r = if is_dirty old (decide a old) then update_task a old.version r else r

abbrev value_or : {A : Type 0} → A → Outcome ReviewError A → A
value_or d (ok a) = a
value_or d (err e) = d

ok_injective : {A : Type 0} {a b : A} → ◌≡◌ {A = Outcome ReviewError A} (ok a) (ok b) → a ≡ b
ok_injective {a = a} h = ap (value_or a) h

same_version : (n : ℕ) → (n == n) ≡ true
same_version n = ground arith

-- The line of the audit for an action.
abbrev pub line : ℕ → ReviewAction → ReviewTask → ℕ → AuditLog
line tenant a r id = record {
  id = id;
  tenant_id = tenant;
  document_id = some r.document_id;
  event = review_event a r.id;
  payload_hash = none;
}

module _ {F : Type 0} where
  -- What an action does to the extraction of its task.
  abbrev pub corrects : ReviewAction → ExtractionResult F → ExtractionResult F
  corrects (correct cs) e = correct_extraction cs e
  corrects _ e = e

  settle_reviewed-KeepsKeys : (a : ReviewAction) → KeepsKeys (settle_reviewed {F = F} a)
  settle_reviewed-KeepsKeys a = record { id_kept = λ r. refl; tenant_kept = λ r. refl }

  corrects-KeepsKeys : (a : ReviewAction) → KeepsKeys (corrects a)
  corrects-KeepsKeys accept = record { id_kept = λ r. refl; tenant_kept = λ r. refl }
  corrects-KeepsKeys (correct cs) = record {
    id_kept = λ e. ground arith;
    tenant_kept = λ e. ground arith;
  }
  corrects-KeepsKeys (reject t) = record { id_kept = λ r. refl; tenant_kept = λ r. refl }

  -- The database that `write_task` leaves, for a task that nobody has changed.
  written : ℕ → ReviewAction → ReviewTask → Db F → Db F
  written tenant a r db =
      if is_dirty r (decide a r)
      then record db {
        review_tasks = set_row tenant r.id (update_task a r.version) db.review_tasks;
      }
      else db

  write_task_lem :
      (tenant : ℕ) (a : ReviewAction) (r : ReviewTask) (db : Db F)
      → write_task tenant a r (some r) db ≡ ok (written tenant a r db)
  unfolding written
  write_task_lem tenant a r db = elim (Bool-cases (is_dirty r (decide a r))) [
    | inl h ↦ rw (h, same_version r.version) refl
    | inr h ↦ rw h refl
  ]

  -- The database that `flush_action` leaves, for a task that nobody has changed.
  flushed : (Dict → String) → ℕ → ReviewAction → ReviewTask → Db F → Db F
  flushed digest tenant a r db =
      append_event digest tenant (some r.document_id) (review_event a r.id) none (
        written tenant a r (
          apply_corrections a tenant r (record db {
            documents = set_row tenant r.document_id (settle_reviewed a) db.documents;
          })))

  flush_action_lem :
      (digest : Dict → String) (tenant : ℕ) (a : ReviewAction) (r : ReviewTask) (db : Db F)
      → get_row tenant r.id db.review_tasks ≡ some r
      → flush_action digest tenant a r db ≡ ok (flushed digest tenant a r db)
  unfolding flush_action flushed
  flush_action_lem digest tenant a r db found =
      rw
        (
          flush_action,
          found,
          write_task_lem tenant a r (
              apply_corrections a tenant r (record db {
                documents = set_row tenant r.document_id (settle_reviewed a) db.documents;
              })),
        )
        refl

  review_tasks-apply_corrections :
      (a : ReviewAction) (tenant : ℕ) (r : ReviewTask) (db : Db F)
      → (apply_corrections a tenant r db).review_tasks ≡ db.review_tasks
  review_tasks-apply_corrections accept tenant r db = refl
  review_tasks-apply_corrections (correct cs) tenant r db = refl
  review_tasks-apply_corrections (reject t) tenant r db = refl

  extraction_results-apply_corrections :
      (a : ReviewAction) (tenant : ℕ) (r : ReviewTask) (db : Db F)
      → get_row tenant r.extraction_result_id (apply_corrections a tenant r db).extraction_results
        ≡ map_option (corrects a) (get_row tenant r.extraction_result_id db.extraction_results)
  extraction_results-apply_corrections accept tenant r db = ground arith
  extraction_results-apply_corrections (correct cs) tenant r db =
      get-set_row tenant r.extraction_result_id (correct_extraction cs) db.extraction_results
        (corrects-KeepsKeys (correct cs))
  extraction_results-apply_corrections (reject t) tenant r db = ground arith

  documents-apply_corrections :
      (a : ReviewAction) (tenant : ℕ) (r : ReviewTask) (db : Db F)
      → (apply_corrections a tenant r db).documents ≡ db.documents
  documents-apply_corrections accept tenant r db = refl
  documents-apply_corrections (correct cs) tenant r db = refl
  documents-apply_corrections (reject t) tenant r db = refl

  audit_log-apply_corrections :
      (a : ReviewAction) (tenant : ℕ) (r : ReviewTask) (db : Db F)
      → (apply_corrections a tenant r db).audit_log ≡ db.audit_log
  audit_log-apply_corrections accept tenant r db = refl
  audit_log-apply_corrections (correct cs) tenant r db = refl
  audit_log-apply_corrections (reject t) tenant r db = refl

  review_tasks-written :
      (tenant : ℕ) (a : ReviewAction) (r : ReviewTask) (db : Db F)
      → get_row tenant r.id db.review_tasks ≡ some r
      → get_row tenant r.id (written tenant a r db).review_tasks ≡ some (acted a r r)
  unfolding written
  review_tasks-written tenant a r db found = elim (Bool-cases (is_dirty r (decide a r))) [
    | inl h ↦ rw h (
        get-set_row tenant r.id (update_task a r.version) db.review_tasks
          (update_task-KeepsKeys a r.version)
        ∙ ap (map_option (update_task a r.version)) found)
    | inr h ↦ rw h found
  ]

  tables-written :
      (tenant : ℕ) (a : ReviewAction) (r : ReviewTask) (db : Db F)
      → ((written tenant a r db).documents ≡ db.documents)
        × ((written tenant a r db).extraction_results ≡ db.extraction_results)
        × ((written tenant a r db).audit_log ≡ db.audit_log)
  unfolding written
  tables-written tenant a r db = elim (Bool-cases (is_dirty r (decide a r))) [
    | inl h ↦ rw h (refl, refl, refl)
    | inr h ↦ rw h (refl, refl, refl)
  ]

  -- What holds after an action: of the task, its document, its extraction and the audit.
  pub record Acted (tenant : ℕ) (a : ReviewAction) (r : ReviewTask) (db t : Db F) : Type 0 where
    pub task : get_row tenant r.id t.review_tasks ≡ some (acted a r r)
    pub document :
        get_row tenant r.document_id t.documents
        ≡ map_option (settle_reviewed a) (get_row tenant r.document_id db.documents)
    pub extraction :
        get_row tenant r.extraction_result_id t.extraction_results
        ≡ map_option (corrects a) (get_row tenant r.extraction_result_id db.extraction_results)
    pub audit : (id : ℕ) × (t.audit_log ≡ db.audit_log ++ line tenant a r id ∷ [])

  flushed-Acted :
      (digest : Dict → String) (tenant : ℕ) (a : ReviewAction) (r : ReviewTask) (db : Db F)
      → get_row tenant r.id db.review_tasks ≡ some r
      → Acted tenant a r db (flushed digest tenant a r db)
  unfolding flushed append_event
  flushed-Acted digest tenant a r db found =
      let settled = record db {
        documents = set_row tenant r.document_id (settle_reviewed a) db.documents;
      } in
      let corrected = apply_corrections a tenant r settled in
      let tables = tables-written tenant a r corrected in
      record {
        task =
            review_tasks-written tenant a r corrected (
              ap (get_row tenant r.id) (review_tasks-apply_corrections a tenant r settled) ∙ found);
        document =
            ap (get_row tenant r.document_id)
              (tables.0 ∙ documents-apply_corrections a tenant r settled)
            ∙ get-set_row tenant r.document_id (settle_reviewed a) db.documents
                (settle_reviewed-KeepsKeys a);
        extraction =
            ap (get_row tenant r.extraction_result_id) (tables.1)
            ∙ extraction_results-apply_corrections a tenant r settled;
        audit = (
          (written tenant a r corrected).next_id,
          ap (λ log. log ++ line tenant a r (written tenant a r corrected).next_id ∷ [])
              (tables.2 ∙ audit_log-apply_corrections a tenant r settled),
        );
      }

  pub apply_action_lem :
      (digest : Dict → String) (tenant : ℕ) (a : ReviewAction) (expected : ℕ) (r : ReviewTask)
      (db : Db F)
      → get_row tenant r.id db.review_tasks ≡ some r
      → refusal a expected r ≡ none
      → (t : Db F) × (apply_action digest tenant r.id a expected db ≡ ok t) × Acted tenant a r db t
  unfolding apply_action
  apply_action_lem digest tenant a expected r db found pass = (
    flushed digest tenant a r db,
    rw (apply_action, found, act_on, pass) (flush_action_lem digest tenant a r db found),
    flushed-Acted digest tenant a r db found,
  )

  pub flush_action-Acted :
      (digest : Dict → String) (tenant : ℕ) (a : ReviewAction) (r : ReviewTask) (db t : Db F)
      → get_row tenant r.id db.review_tasks ≡ some r
      → flush_action digest tenant a r db ≡ ok t
      → Acted tenant a r db t
  flush_action-Acted digest tenant a r db t found h =
      let same : flushed digest tenant a r db ≡ t =
        ok_injective (sym (flush_action_lem digest tenant a r db found) ∙ h) in
      rw same at (flushed-Acted digest tenant a r db found)
