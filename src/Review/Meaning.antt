-- ===== src/Review/Meaning.antt =====
-- What an action of app/services/review.py means for each column, in terms of the action alone.
use ocr_service.Prelude.{
  ℕ, suc, ◌≡◌, ◌⊎◌, inl, inr, refl, ap, ◌∙◌, String, true, false, Option, none, some, List, [], ◌∷◌,
  ◌++◌, arith, Bool-cases, Option-cases, ◌==◌, string_eq, if◌then◌else◌,
}
use ocr_service.Json.{Json, Dict, get, put}
use ocr_service.Json.Laws.{get-put}
use ocr_service.Status.{DocumentStatus, ReviewStatus}
use ocr_service.Store.{
  ReviewTask, Correction, AuditLog, Event, review_row, document_row, extraction_row,
}
use ocr_service.Review.{
  update_task, same_status, ReviewAction, accept, correct, reject, decide, is_dirty, apply_changes,
  same_corrections, same_text,
}
use ocr_service.Review.Actions.{acted, line}

-- The task's status, and the document's.
abbrev pub task_status : ReviewAction → ReviewStatus
task_status accept = ReviewStatus.accepted
task_status (correct cs) = ReviewStatus.corrected
task_status (reject reason) = ReviewStatus.rejected

abbrev pub document_status : ReviewAction → DocumentStatus
document_status accept = DocumentStatus.completed
document_status (correct cs) = DocumentStatus.completed
document_status (reject reason) = DocumentStatus.rejected

abbrev pub event_of : ReviewAction → ℕ → Event
event_of accept id = Event.review_accept id
event_of (correct cs) id = Event.review_correct id
event_of (reject reason) id = Event.review_reject id

abbrev pub corrections_of : ReviewAction → Option (List Correction) → Option (List Correction)
corrections_of accept old = old
corrections_of (correct cs) old = some cs
corrections_of (reject reason) old = old

abbrev pub reason_of : ReviewAction → Option String → Option String
reason_of accept old = old
reason_of (correct cs) old = old
reason_of (reject reason) old = reason

-- A task that an action finds decided as it would decide it stays as it is.
abbrev pub AsBefore : ReviewAction → ReviewTask → Type 0
AsBefore a r =
    (r.status ≡ task_status a)
    × (same_corrections r.corrections (corrections_of a r.corrections) ≡ true)
    × (same_text r.rejection_reason (reason_of a r.rejection_reason) ≡ true)

-- Otherwise it has the columns of the action, and a version one higher.
pub record Judged (a : ReviewAction) (r u : ReviewTask) : Type 0 where
  pub status : u.status ≡ task_status a
  pub corrections : u.corrections ≡ corrections_of a r.corrections
  pub reason : u.rejection_reason ≡ reason_of a r.rejection_reason
  pub version : u.version ≡ suc r.version

-- The value of a field after one correction.
abbrev pub newer : Option Json → String → String → Option Json → Option Json
newer none field k v = v
newer (some w) field k v = if field == k then some w else v

-- The value of a field after corrections: the `new` of the last correction of the field that has
-- one, or else what it was.
abbrev pub latest : String → List Correction → Option Json → Option Json
latest k [] v = v
latest k (c ∷ cs) v = latest k cs (newer (get "new" c.change) c.field k v)

abbrev pub field_of : ReviewAction → String → Option Json → Option Json
field_of (correct cs) k v = latest k cs v
field_of accept k v = v
field_of (reject reason) k v = v

-- The fields of an extraction, if it has any.
abbrev pub FieldsOf : ReviewAction → Option Dict → Option Dict → Type 0
FieldsOf a none new = new ≡ none
FieldsOf a (some d) new =
    (e : Dict) × (new ≡ some e) × ((k : String) → get k e ≡ field_of a k (get k d))

pub get-apply_changes :
    (k : String) (cs : List Correction) (d : Dict)
    → get k (apply_changes cs d) ≡ latest k cs (get k d)
get-apply_changes k [] d = refl
get-apply_changes k (c ∷ cs) d = elim (Option-cases (get "new" c.change)) [
  | inl h ↦ ground (arith, get-apply_changes k cs d)
  | inr (v, h) ↦
      let later =
        get-apply_changes k cs (put c.field v d) ∙ ap (latest k cs) (get-put c.field k v d) in
      ground arith
]

-- The event at the end of the log.
abbrev pub Logged : ℕ → ReviewAction → ReviewTask → List AuditLog → List AuditLog → Type 0
Logged tenant a r old new =
    (row : AuditLog) × (new ≡ old ++ row ∷ [])
    × (row.event ≡ event_of a r.id)
    × (row.tenant_id ≡ tenant)
    × (row.document_id ≡ some r.document_id)

same_status-eq : (s t : ReviewStatus) → same_status s t ≡ true → s ≡ t
same_status-eq s t h = ground arith

as_before : (a : ReviewAction) (r : ReviewTask) → is_dirty r (decide a r) ≡ false → AsBefore a r
as_before accept r h = ground (arith, same_status-eq r.status ReviewStatus.accepted)
as_before (correct cs) r h = ground (arith, same_status-eq r.status ReviewStatus.corrected)
as_before (reject reason) r h = ground (arith, same_status-eq r.status ReviewStatus.rejected)

judged : (a : ReviewAction) (r : ReviewTask) → Judged a r (update_task a r.version r)
judged accept r = record { status = refl; corrections = refl; reason = refl; version = refl }
judged (correct cs) r = record { status = refl; corrections = refl; reason = refl; version = refl }
judged (reject t) r = record { status = refl; corrections = refl; reason = refl; version = refl }

pub acted-Judged :
    (a : ReviewAction) (r : ReviewTask)
    → ((acted a r r ≡ r) × AsBefore a r) ⊎ Judged a r (acted a r r)
acted-Judged a r = elim (Bool-cases (is_dirty r (decide a r))) [
  | inl h ↦ rw h (inr (judged a r))
  | inr h ↦ rw h (inl (refl, as_before a r h))
]

pub FieldsOf-same :
    (a : ReviewAction) (o : Option Dict)
    → ((k : String) (v : Option Json) → v ≡ field_of a k v)
    → FieldsOf a o o
FieldsOf-same a none h = refl
FieldsOf-same a (some d) h = (d, refl, λ k. h k (get k d))

pub line-Logged :
    (tenant : ℕ) (a : ReviewAction) (r : ReviewTask) (id : ℕ) (old : List AuditLog)
    → Logged tenant a r old (old ++ line tenant a r id ∷ [])
line-Logged tenant accept r id old = (line tenant accept r id, refl, refl, refl, refl)
line-Logged tenant (correct cs) r id old = (line tenant (correct cs) r id, refl, refl, refl, refl)
line-Logged tenant (reject t) r id old = (line tenant (reject t) r id, refl, refl, refl, refl)
