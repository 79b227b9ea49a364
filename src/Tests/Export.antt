-- ===== src/Tests/Export.antt =====
-- Runs of the export of the audit log.
use ocr_service.Prelude.{List, map, ℕ, ◌≡◌, refl, true, none, some, [], ◌∷◌}
use ocr_service.Text.{append}
use ocr_service.Csv.{write_line, write_row}
use ocr_service.Csv.Reader.{read_csv}
use ocr_service.Store.{Db, AuditLog, Event}
use ocr_service.Status.{DocumentStatus}
use ocr_service.Api.Export.{
  Texts, export_columns, csv_lines, stream_rows, in_period, order_by, export_audit,
}
use ocr_service.Api.Exports.{shown, export_audit-read}
use ocr_service.Api.Ordering.{InOrder, Shuffled}
use ocr_service.Tests.Fixtures.{blank}

abbrev texts : Texts
texts = record {
  id_text = λ n. "a \"b\", c";
  created_at = λ r. r.id;
  time_text = λ n. "noon";
  dumps = λ d. "{}";
}

abbrev event : ℕ → ℕ → AuditLog
event tenant id = record {
  id = id;
  tenant_id = tenant;
  document_id = none;
  event = Event.pipeline DocumentStatus.completed none;
  payload_hash = none;
}

-- The table is not in the order of creation.
abbrev logged : Db ℕ
logged = record blank { audit_log = event 7 4 ∷ event 8 2 ∷ event 7 3 ∷ event 7 9 ∷ [] }

quoted_columns : write_line ("a \"b\"" ∷ "" ∷ "c,d" ∷ []) ≡ "\"a \"\"b\"\"\",,\"c,d\"\r\n"
unfolding write_row append
quoted_columns = refl

in_order :
    csv_lines texts (stream_rows texts 7 (some 2) (some 5) logged.audit_log)
    ≡ csv_lines texts (event 7 3 ∷ event 7 4 ∷ [])
unfolding stream_rows in_period order_by
in_order = refl

export_audit-read_example :
    (rows : List AuditLog) × (read_csv (export_audit texts 7 true (some 2) (some 5) logged)
      ≡ export_columns ∷ map (shown texts) rows)
    × InOrder texts.created_at rows
    × Shuffled (event 7 4 ∷ event 7 3 ∷ []) rows
export_audit-read_example = export_audit-read texts 7 (some 2) (some 5) logged
