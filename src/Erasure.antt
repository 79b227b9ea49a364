-- ===== src/Erasure.antt =====
-- `erase_document` of app/services/erasure.py, in the two transactions and the calls between them, on
-- the process of app/worker/runner.py. The blob storage, the vector store and the checkpoint tables
-- are parameters: exceptions of the first two are suppressed, one of the third leaves the function.
pub mod Barrier
use ocr_service.Prelude.{
  ℕ, String, Bool, not, ◌&&◌, Option, none, some, List, [], ◌∷◌, ◌++◌, keep, contains, ◌==◌, nat_eq,
  if◌then◌else◌,
}
use ocr_service.Prelude.Outcome.{Outcome, ok, err}
use ocr_service.Json.{Dict}
use ocr_service.Status.{DocumentStatus}
use ocr_service.Audit.{append_event}
use ocr_service.Store.{Db, Document, Event, document_row}
use ocr_service.Store.Rows.{get_row, set_row}
use ocr_service.Runner.Process.{Process}

pub data ErasureError : Type 0 where
  document_not_found : ErasureError
  purge_failed : String → ErasureError

-- `cancel`, `is_cancelled` and `clear` of app/worker/cancellation.py.
abbrev pub cancel : ℕ → List ℕ → List ℕ
cancel document_id cancelled =
    if contains document_id cancelled then cancelled else cancelled ++ document_id ∷ []

abbrev pub is_cancelled : ℕ → List ℕ → Bool
is_cancelled document_id cancelled = contains document_id cancelled

abbrev pub clear : ℕ → List ℕ → List ℕ
clear document_id cancelled = keep (λ d. not (d == document_id)) cancelled

module _ {F : Type 0} where
  abbrev pub mark_cancelled : Document F → Document F
  mark_cancelled d = record d { status = DocumentStatus.cancelled }

  -- The first transaction.
  abbrev pub mark : ℕ → ℕ → Db F → Db F
  mark tenant document_id db = record db {
    documents = set_row tenant document_id mark_cancelled db.documents;
  }

  -- `DELETE FROM documents WHERE id = ...`, in a tenant's session. The foreign keys of
  -- migrations/versions/001_initial_schema.py cascade, whoever owns the rows.
  abbrev pub delete_document : ℕ → ℕ → Db F → Db F
  delete_document tenant document_id db = record db {
    documents = keep (λ d. not (d.tenant_id == tenant && d.id == document_id)) db.documents;
    extraction_results = keep (λ r. not (r.document_id == document_id)) db.extraction_results;
    guardrail_reports = keep (λ r. not (r.document_id == document_id)) db.guardrail_reports;
    review_tasks = keep (λ r. not (r.document_id == document_id)) db.review_tasks;
    dlq = keep (λ r. not (r.document_id == document_id)) db.dlq;
    webhook_deliveries = keep (λ r. not (r.document_id == document_id)) db.webhook_deliveries;
  }

  -- The second transaction: the rows go, and the tombstone is written.
  unfoldable pub bury : (Dict → String) → ℕ → ℕ → Db F → Db F
  unfolding append_event
  bury digest tenant document_id db =
      append_event digest tenant (some document_id) Event.erasure_completed none
        (delete_document tenant document_id db)

  abbrev pub first_step : ℕ → ℕ → Process F → Process F
  first_step tenant document_id p = record p {
    cancelled = cancel document_id p.cancelled;
    db = mark tenant document_id p.db;
  }

  abbrev pub last_step : (Dict → String) → ℕ → ℕ → Process F → Process F
  last_step digest tenant document_id p = record p {
    cancelled = clear document_id p.cancelled;
    db = bury digest tenant document_id p.db;
  }

  -- `erase_document`, undisturbed: what it raises, if anything, and the process.
  unfoldable pub erase_document :
      (Dict → String) → Option String → ℕ → ℕ → Process F → Option ErasureError × Process F
  unfolding get_row set_row bury
  erase_document digest purge document_id tenant p =
      elim (get_row tenant document_id p.db.documents) [
        | none ↦ (some document_not_found, record p { cancelled = cancel document_id p.cancelled })
        | some d ↦ elim purge [
          | some message ↦ (some (purge_failed message), first_step tenant document_id p)
          | none ↦ (none, last_step digest tenant document_id (first_step tenant document_id p))
        ]
      ]
