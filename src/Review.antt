-- ===== src/Review.antt =====
-- `apply_action` of app/services/review.py, `act_on_review` of app/api/routers/review.py, and the
-- optimistic lock of the mapper of app/db/models.py. The write-back of an example to the vector
-- store changes nothing here, and its exceptions are caught; it is left out.
pub mod Actions
pub mod Conflict
pub mod Meaning
pub mod Decided
use ocr_service.Prelude.{
  ℕ, suc, ◌+◌, String, Bool, true, false, not, ◌&&◌, ◌||◌, Option, none, some, List, [], ◌∷◌, ◌==◌,
  nat_eq, string_eq, if◌then◌else◌,
}
use ocr_service.Prelude.Outcome.{Outcome, ok, err}
use ocr_service.Json
use ocr_service.Json.{Json, Dict, get, put}
use ocr_service.Json.Equal.{json_eq}
use ocr_service.Status.{DocumentStatus, ReviewStatus}
use ocr_service.Audit.{append_event}
use ocr_service.Store.{
  Db, Document, ExtractionResult, ReviewTask, Correction, Event, document_row, extraction_row,
  review_row,
}
use ocr_service.Store.Rows.{get_row, set_row}

-- The actions that a request may name, with what it brings along.
pub data ReviewAction : Type 0 where
  accept : ReviewAction
  correct : List Correction → ReviewAction
  reject : Option String → ReviewAction

pub data ReviewError : Type 0 where
  not_found version_mismatch corrections_required stale_data : ReviewError

-- `corrected[field] = change["new"]` for each change that has the key
abbrev pub apply_changes : List Correction → Dict → Dict
apply_changes [] d = d
apply_changes (c ∷ cs) d = elim (get "new" c.change) [
  | some v ↦ apply_changes cs (put c.field v d)
  | none ↦ apply_changes cs d
]

abbrev pub corrections_dict : List Correction → Dict
corrections_dict [] = Json.empty
corrections_dict (c ∷ cs) = Json.entry c.field (Json.obj c.change) (corrections_dict cs)

-- Whether an assignment changes the column, by Python's `==`.
abbrev pub same_corrections : Option (List Correction) → Option (List Correction) → Bool
same_corrections none none = true
same_corrections (some cs) (some ds) =
    json_eq (Json.obj (corrections_dict cs)) (Json.obj (corrections_dict ds))
same_corrections _ _ = false

abbrev pub same_text : Option String → Option String → Bool
same_text none none = true
same_text (some a) (some b) = a == b
same_text _ _ = false

abbrev pub same_status : ReviewStatus → ReviewStatus → Bool
same_status ReviewStatus.pending ReviewStatus.pending = true
same_status ReviewStatus.in_progress ReviewStatus.in_progress = true
same_status ReviewStatus.accepted ReviewStatus.accepted = true
same_status ReviewStatus.corrected ReviewStatus.corrected = true
same_status ReviewStatus.rejected ReviewStatus.rejected = true
same_status _ _ = false

-- The assignments to the loaded task.
abbrev pub decide : ReviewAction → ReviewTask → ReviewTask
decide accept r = record r { status = ReviewStatus.accepted }
decide (correct cs) r = record r { status = ReviewStatus.corrected; corrections = some cs }
decide (reject reason) r = record r { status = ReviewStatus.rejected; rejection_reason = reason }

-- The columns that the `UPDATE` sets.
abbrev pub update_task : ReviewAction → ℕ → ReviewTask → ReviewTask
update_task a version r = record (decide a r) { version = suc version }

-- Whether the flush has an `UPDATE` to send for the task.
abbrev pub is_dirty : ReviewTask → ReviewTask → Bool
is_dirty old new = not (
    same_status old.status new.status
    && (same_corrections old.corrections new.corrections
        && same_text old.rejection_reason new.rejection_reason))

abbrev pub decided_status : ReviewAction → DocumentStatus
decided_status (reject reason) = DocumentStatus.rejected
decided_status _ = DocumentStatus.completed

abbrev pub review_event : ReviewAction → ℕ → Event
review_event accept id = Event.review_accept id
review_event (correct cs) id = Event.review_correct id
review_event (reject reason) id = Event.review_reject id

-- The guards before anything is assigned.
abbrev pub refusal : ReviewAction → ℕ → ReviewTask → Option ReviewError
refusal (correct []) expected r =
    if r.version == expected then some corrections_required else some version_mismatch
refusal a expected r = if r.version == expected then none else some version_mismatch

module _ {F : Type 0} where
  -- `UPDATE review_tasks ... WHERE id = ? AND version = ?`; no row is a `StaleDataError`.
  abbrev pub write_task :
      ℕ → ReviewAction → ReviewTask → Option ReviewTask → Db F → Outcome ReviewError (Db F)
  write_task tenant a old none db = if is_dirty old (decide a old) then err stale_data else ok db
  write_task tenant a old (some current) db =
      if is_dirty old (decide a old)
      then (if current.version == old.version
          then ok (record db {
            review_tasks = set_row tenant old.id (update_task a old.version) db.review_tasks;
          })
          else err stale_data)
      else ok db

  abbrev pub correct_extraction : List Correction → ExtractionResult F → ExtractionResult F
  correct_extraction cs e = elim e.extracted_json [
    | some d ↦ record e { extracted_json = some (apply_changes cs d) }
    | none ↦ e
  ]

  -- `_apply_corrections`
  abbrev pub apply_corrections : ReviewAction → ℕ → ReviewTask → Db F → Db F
  apply_corrections (correct cs) tenant r db = record db {
    extraction_results =
        set_row tenant r.extraction_result_id (correct_extraction cs) db.extraction_results;
  }
  apply_corrections _ tenant r db = db

  abbrev pub settle_reviewed : ReviewAction → Document F → Document F
  settle_reviewed a d = record d { status = decided_status a }

  abbrev pub log_review :
      (Dict → String)
      → ℕ
      → ReviewTask
      → ReviewAction
      → Outcome ReviewError (Db F)
      → Outcome ReviewError (Db F)
  log_review digest tenant r a (err e) = err e
  log_review digest tenant r a (ok db) =
      ok (append_event digest tenant (some r.document_id) (review_event a r.id) none db)

  -- The part of `apply_action` after the guards, flushed into a database that may have moved on
  -- since the task was loaded.
  unfoldable pub flush_action :
      (Dict → String) → ℕ → ReviewAction → ReviewTask → Db F → Outcome ReviewError (Db F)
  unfolding get_row set_row append_event
  flush_action digest tenant a r db = log_review digest tenant r a (
      write_task tenant a r (get_row tenant r.id db.review_tasks) (
        apply_corrections a tenant r (record db {
          documents = set_row tenant r.document_id (settle_reviewed a) db.documents;
        })))

  -- `apply_action` on the task that a session has loaded.
  abbrev pub act_on :
      (Dict → String) → ℕ → ReviewAction → ℕ → ReviewTask → Db F → Outcome ReviewError (Db F)
  act_on digest tenant a expected r db = elim (refusal a expected r) [
    | some e ↦ err e
    | none ↦ flush_action digest tenant a r db
  ]

  -- `apply_action`, undisturbed. `err` rolls the transaction back.
  unfoldable pub apply_action :
      (Dict → String) → ℕ → ℕ → ReviewAction → ℕ → Db F → Outcome ReviewError (Db F)
  unfolding get_row flush_action
  apply_action digest tenant review_id a expected db =
      elim (get_row tenant review_id db.review_tasks) [
        | none ↦ err not_found
        | some r ↦ act_on digest tenant a expected r db
      ]
