-- ===== src/Tests/Trail.antt =====
-- A history of the audit log.
use ocr_service.Prelude.{ℕ, ◌≡◌, refl, length, none, String}
use ocr_service.Prelude.Outcome.{Outcome, ok, err}
use ocr_service.Float.Scaled.{scaled}
use ocr_service.Runner.Process.{Process}
use ocr_service.WebhookDelivery.{deliver}
use ocr_service.Erasure.{erase_document}
use ocr_service.Api.Dlq.{retry_dlq}
use ocr_service.Trail.{start, later, delivered, erased, retried, History-Appends}
use ocr_service.Trail.Log.{Appends}
use ocr_service.Tests.Fixtures.{under_review, digest, crypto, idle}

abbrev no_answer : ℕ → Outcome String ℕ
no_answer attempt = err "refused"

abbrev undelivered : Process ℕ
undelivered = record idle { db = (deliver digest 7 1 no_answer under_review).db }

abbrev reopened : Process ℕ
reopened = (retry_dlq 7 105 undelivered).1

abbrev gone : Process ℕ
gone = (erase_document digest none 1 7 reopened).1

two_events : length gone.db.audit_log ≡ 2
unfolding deliver retry_dlq erase_document
two_events = refl

History-Appends_example : Appends under_review gone.db
History-Appends_example = History-Appends crypto (
    later (later (later start (delivered 7 1 no_answer under_review)) (retried 7 105 undelivered))
      (erased none 1 7 reopened))

letter_found : (retry_dlq 7 105 undelivered).0 ≡ ok 1
unfolding deliver retry_dlq
letter_found = refl
