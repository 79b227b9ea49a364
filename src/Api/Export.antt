-- ===== src/Api/Export.antt =====
-- `export_audit` of app/api/routers/audit.py: the body that is streamed, as one text. The texts of ids
-- and of times, the time at which the database stores a row, and `json.dumps` are parameters. A table
-- is in the order of `created_at`.
use ocr_service.Prelude.{
  if◌then◌else◌, ℕ, String, Bool, true, false, ◌&&◌, Option, none, some, List, [], ◌∷◌, map, keep,
  leb, ◌==◌, nat_eq,
}
use ocr_service.Text.{append}
use ocr_service.Json.{Json, null, str, Dict, empty, entry, get}
use ocr_service.Status.{DocumentStatus}
use ocr_service.Csv.{write_line}
use ocr_service.Store.{Db, AuditLog, Event}

-- The value of a status.
abbrev status_value : DocumentStatus → String
status_value DocumentStatus.pending = "pending"
status_value DocumentStatus.parsing = "parsing"
status_value DocumentStatus.guarding = "guarding"
status_value DocumentStatus.extracting = "extracting"
status_value DocumentStatus.scoring = "scoring"
status_value DocumentStatus.routing = "routing"
status_value DocumentStatus.delivering = "delivering"
status_value DocumentStatus.completed = "completed"
status_value DocumentStatus.review = "review"
status_value DocumentStatus.rejected = "rejected"
status_value DocumentStatus.error = "error"
status_value DocumentStatus.cancelled = "cancelled"
status_value DocumentStatus.tombstone = "tombstone"

-- `f"PIPELINE_{document.status.upper()}"`
abbrev pipeline_event : DocumentStatus → String
pipeline_event DocumentStatus.pending = "PIPELINE_PENDING"
pipeline_event DocumentStatus.parsing = "PIPELINE_PARSING"
pipeline_event DocumentStatus.guarding = "PIPELINE_GUARDING"
pipeline_event DocumentStatus.extracting = "PIPELINE_EXTRACTING"
pipeline_event DocumentStatus.scoring = "PIPELINE_SCORING"
pipeline_event DocumentStatus.routing = "PIPELINE_ROUTING"
pipeline_event DocumentStatus.delivering = "PIPELINE_DELIVERING"
pipeline_event DocumentStatus.completed = "PIPELINE_COMPLETED"
pipeline_event DocumentStatus.review = "PIPELINE_REVIEW"
pipeline_event DocumentStatus.rejected = "PIPELINE_REJECTED"
pipeline_event DocumentStatus.error = "PIPELINE_ERROR"
pipeline_event DocumentStatus.cancelled = "PIPELINE_CANCELLED"
pipeline_event DocumentStatus.tombstone = "PIPELINE_TOMBSTONE"

-- The columns `event_type`, `actor` and `status` with which an event is appended: by
-- app/worker/runner.py and, under app/services, by review.py, webhook_delivery.py and erasure.py.
abbrev pub event_type : Event → String
event_type (Event.pipeline status decision) = pipeline_event status
event_type (Event.review_accept id) = "REVIEW_ACCEPT"
event_type (Event.review_correct id) = "REVIEW_CORRECT"
event_type (Event.review_reject id) = "REVIEW_REJECT"
event_type (Event.webhook_delivered attempt status) = "WEBHOOK_DELIVERED"
event_type (Event.webhook_exhausted attempts status) = "WEBHOOK_EXHAUSTED"
event_type Event.erasure_completed = "ERASURE_COMPLETED"

abbrev pub actor : Event → String
actor (Event.pipeline status decision) = "system:pipeline"
actor (Event.review_accept id) = "reviewer"
actor (Event.review_correct id) = "reviewer"
actor (Event.review_reject id) = "reviewer"
actor (Event.webhook_delivered attempt status) = "system:webhook"
actor (Event.webhook_exhausted attempts status) = "system:webhook"
actor Event.erasure_completed = "system:gdpr"

abbrev pub event_status : Event → String
event_status (Event.pipeline status decision) = status_value status
event_status (Event.review_accept id) = "accepted"
event_status (Event.review_correct id) = "corrected"
event_status (Event.review_reject id) = "rejected"
event_status (Event.webhook_delivered attempt status) = "completed"
event_status (Event.webhook_exhausted attempts status) = "error"
event_status Event.erasure_completed = "cancelled"

-- `_COLUMNS`
abbrev pub export_columns : List String
export_columns =
    "id" ∷ "document_id" ∷ "event_type" ∷ "actor" ∷ "status" ∷ "payload_hash" ∷ "created_at" ∷ []

abbrev text_or_null : Option String → Json
text_or_null none = null
text_or_null (some s) = str s

-- A value as `csv.writer` writes it: `None` is the empty text.
abbrev column_text : Option Json → String
column_text (some (str s)) = s
column_text _ = ""

-- `_build_query`
abbrev from_start : Option ℕ → ℕ → Bool
from_start none t = true
from_start (some start) t = leb start t

abbrev to_end : Option ℕ → ℕ → Bool
to_end none t = true
to_end (some stop) t = leb t stop

unfoldable pub in_period : Option ℕ → Option ℕ → ℕ → Bool
in_period start stop t = from_start start t && to_end stop t

-- `order_by(column)`
abbrev pub insert_by : {A : Type 0} → (A → ℕ) → A → List A → List A
insert_by column a [] = a ∷ []
insert_by column a (b ∷ bs) =
    let later = insert_by column a bs in if leb (column a) (column b) then a ∷ b ∷ bs else b ∷ later

unfoldable pub order_by : {A : Type 0} → (A → ℕ) → List A → List A
order_by column [] = []
order_by column (a ∷ rows) = insert_by column a (order_by column rows)

-- The parameters of the export.
pub record Texts : Type 0 where
  pub id_text : ℕ → String
  pub created_at : AuditLog → ℕ
  pub time_text : ℕ → String
  pub dumps : Dict → String

abbrev optional_id : (ℕ → String) → Option ℕ → Json
optional_id id_text none = null
optional_id id_text (some id) = str (id_text id)

module _ (t : Texts) where
  -- `_row_values`
  unfoldable pub row_values : AuditLog → Dict
  row_values row = entry "id" (str (t.id_text row.id)) (
      entry "document_id" (optional_id t.id_text row.document_id) (
        entry "event_type" (str (event_type row.event)) (
          entry "actor" (str (actor row.event)) (
            entry "status" (str (event_status row.event)) (
              entry "payload_hash" (text_or_null row.payload_hash)
                (entry "created_at" (str (t.time_text (t.created_at row))) empty))))))

  -- `[_row_values(row)[c] for c in _COLUMNS]`
  unfoldable pub csv_values : AuditLog → List String
  unfolding row_values
  csv_values row = map (λ c. column_text (get c (row_values row))) export_columns

  -- `_stream_rows`, in the session of a tenant.
  unfoldable pub stream_rows : ℕ → Option ℕ → Option ℕ → List AuditLog → List AuditLog
  unfolding in_period order_by
  stream_rows tenant start stop rows =
      order_by t.created_at
        (keep (λ r. r.tenant_id == tenant && in_period start stop (t.created_at r)) rows)

  -- `csv_rows`, after the header
  unfoldable pub csv_lines : List AuditLog → String
  unfolding csv_values append
  csv_lines [] = ""
  csv_lines (row ∷ rows) = append (write_line (csv_values row)) (csv_lines rows)

  -- `ndjson`
  unfoldable pub ndjson : List AuditLog → String
  unfolding row_values append
  ndjson [] = ""
  ndjson (row ∷ rows) = append (t.dumps (row_values row)) (append "\n" (ndjson rows))

  -- `export_audit`, for a format that is `csv` or not; another than `ndjson` is a 422 before it.
  unfoldable pub export_audit : {F : Type 0} → ℕ → Bool → Option ℕ → Option ℕ → Db F → String
  unfolding csv_lines ndjson stream_rows
  export_audit tenant true start stop db =
      append (write_line export_columns) (csv_lines (stream_rows tenant start stop db.audit_log))
  export_audit tenant false start stop db = ndjson (stream_rows tenant start stop db.audit_log)
