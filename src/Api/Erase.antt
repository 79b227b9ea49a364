-- ===== src/Api/Erase.antt =====
-- `erase_document` of app/api/routers/extract.py.
use ocr_service.Prelude.{ℕ, String, Option, none, some}
use ocr_service.Prelude.Outcome.{Outcome, ok, err}
use ocr_service.Json.{Dict}
use ocr_service.Runner.Process.{Process}
use ocr_service.Erasure.{ErasureError, document_not_found, purge_failed, erase_document}
use ocr_service.Api.{HttpError, not_found_404, server_error}

-- The answer: the id of a document that was erased, or the exception.
abbrev pub erasure_answer : ℕ → Option ErasureError → Outcome HttpError ℕ
erasure_answer document_id none = ok document_id
erasure_answer document_id (some document_not_found) = err not_found_404
erasure_answer document_id (some (purge_failed message)) = err (server_error message)

unfoldable pub handle_erasure :
    {F : Type 0}
    → (Dict → String)
    → Option String
    → ℕ
    → ℕ
    → Process F
    → Outcome HttpError ℕ × Process F
unfolding erase_document
handle_erasure digest purge document_id tenant p =
    let (raised, q) = erase_document digest purge document_id tenant p in
    (erasure_answer document_id raised, q)
