-- ===== src/Api/Dlq.antt =====
-- `retry_dlq` of app/api/routers/dlq.py.
use ocr_service.Prelude.{ℕ, ◌+◌, Bool, true, false, none, some}
use ocr_service.Prelude.Outcome.{Outcome, ok, err}
use ocr_service.Status.{DocumentStatus, DlqStatus}
use ocr_service.Store.{Db, DeadLetter, Document, document_row, dlq_row}
use ocr_service.Store.Rows.{get_row, set_row}
use ocr_service.Runner.Process.{Process, enqueue_pipeline}
use ocr_service.Api.{HttpError, not_found_404, conflict_409}

abbrev pub is_pending : DlqStatus → Bool
is_pending DlqStatus.pending = true
is_pending _ = false

module _ {F : Type 0} where
  abbrev pub mark_retrying : DeadLetter F → DeadLetter F
  mark_retrying e = record e { status = DlqStatus.retrying; retry_count = e.retry_count + 1 }

  abbrev pub mark_pending : Document F → Document F
  mark_pending d = record d { status = DocumentStatus.pending }

  -- The assignments of `retry_dlq` to the entry and to its document.
  abbrev pub reopen : ℕ → DeadLetter F → Db F → Db F
  reopen tenant e db = record db {
    dlq = set_row tenant e.id mark_retrying db.dlq;
    documents = set_row tenant e.document_id mark_pending db.documents;
  }

  abbrev pub retry_entry :
      ℕ → DeadLetter F → DlqStatus → Process F → Outcome HttpError ℕ × Process F
  retry_entry tenant e DlqStatus.pending p = (
    ok e.document_id,
    enqueue_pipeline e.document_id e.tenant_id (record p { db = reopen tenant e p.db }),
  )
  retry_entry tenant e _ p = (err conflict_409, p)

  -- `retry_dlq`, in the session of a tenant: the id of the document, and the process.
  unfoldable pub retry_dlq : ℕ → ℕ → Process F → Outcome HttpError ℕ × Process F
  unfolding get_row set_row
  retry_dlq tenant dlq_id p = elim (get_row tenant dlq_id p.db.dlq) [
    | none ↦ (err not_found_404, p)
    | some e ↦ retry_entry tenant e e.status p
  ]
