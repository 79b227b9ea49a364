-- ===== src/Tests/Actions.antt =====
-- The review, the deliveries, the registry and the erasure of app/services at work.
use ocr_service.Prelude.{
  zero, ℕ, suc, ◌≡◌, refl, String, false, none, some, [], ◌∷◌, contains, nat_eq,
}
use ocr_service.Prelude.Outcome.{Outcome, ok, err}
use ocr_service.Json.{Json, empty, entry}
use ocr_service.Float.Scaled.{scaled, ratio_scaled, round3_scaled}
use ocr_service.Store.{Schema, Db, review_row, document_row, schema_row}
use ocr_service.Store.Rows.{get_row, set_row}
use ocr_service.Audit.{append_event}
use ocr_service.Review.{
  ReviewError, ReviewAction, accept, correct, reject, stale_data, flush_action, act_on,
}
use ocr_service.Review.Decided.{Decided}
use ocr_service.Review.Conflict.{second_reviewer_refused}
use ocr_service.WebhookDelivery.{retry_schedule, deliver}
use ocr_service.WebhookDelivery.Attempts.{Outlined, deliver-Outlined}
use ocr_service.SchemaRegistry.{
  get_schema, create_schema, activate_schema, CreateSchemaRequest, add_seed_example,
}
use ocr_service.SchemaRegistry.Activation.{created, AllReady, AllReady-start, after}
use ocr_service.SchemaRegistry.History.{start as unchanged, create, activate, seed, Reach-AllReady}
use ocr_service.Erasure.{erase_document}
use ocr_service.Erasure.Barrier.{Erased, erase_document-Erased}
use ocr_service.Tests.Fixtures.{
  invoice_schema, blank, one_document, document, task, under_review, digest, idle,
}
use ocr_service.Tests.Service.{found}

abbrev reviewed : Outcome ReviewError (Db ℕ) → Db ℕ
reviewed (ok t) = t
reviewed (err e) = blank

task_found : get_row 7 5 under_review.review_tasks ≡ some task
unfolding get_row
task_found = refl

abbrev correction : ReviewAction
correction =
    correct (record { field = "total"; change = entry "new" (Json.str "13.00") empty } ∷ [])

accepted : Db ℕ
accepted = reviewed (act_on digest 7 accept 1 task under_review)

accepted_ok : act_on digest 7 accept 1 task under_review ≡ ok accepted
unfolding accepted flush_action get_row set_row append_event
accepted_ok = refl

second_reviewer_refused_example : act_on digest 7 (reject none) 1 task accepted ≡ err stale_data
second_reviewer_refused_example =
    second_reviewer_refused digest 7 accept (reject none) 1 task under_review accepted refl
      task_found refl refl accepted_ok

-- The receiver is down at first, and answers the third attempt.
abbrev receiver : ℕ → Outcome String ℕ
receiver (suc zero) = err "connection refused"
receiver (suc (suc zero)) = ok 503
receiver n = ok 200

deliver_example :
    Outlined receiver 1 retry_schedule one_document (deliver digest 7 1 receiver one_document)
deliver_example = deliver-Outlined digest 7 1 receiver one_document

erase_document_example :
    ((erase_document digest none 1 7 idle).0 ≡ none)
    × (contains 1 (erase_document digest none 1 7 idle).1.cancelled ≡ false)
    × Erased 7 1 0 (erase_document digest none 1 7 idle).1.db
erase_document_example = erase_document-Erased digest 7 1 document idle found

-- A schema that is created, gets three examples and is activated.
abbrev request : CreateSchemaRequest ℕ
request = record {
  name = "invoice";
  description = none;
  json_schema = empty;
  required_fields = "total" ∷ [];
  pii_fields = [];
  prompt_template = none;
  confidence_high = 8500;
  confidence_medium = 6000;
  config = empty;
}

abbrev seed_one : Db ℕ → Db ℕ
seed_one db = after db (add_seed_example none 7 100 db)

abbrev seeded : Db ℕ
seeded = seed_one (seed_one (seed_one (created blank (create_schema 7 request blank))))

abbrev active : Db ℕ
active = after seeded (activate_schema 7 100 seeded)

Reach-AllReady_example : AllReady active
Reach-AllReady_example = Reach-AllReady (AllReady-start blank refl) (
    activate 7 100
      (seed none 7 100 (seed none 7 100 (seed none 7 100 (create 7 request unchanged)))))

abbrev active_schema : Schema ℕ
active_schema = record invoice_schema { id = 100 }

active_found : get_row 7 100 active.schemas ≡ some active_schema
unfolding ratio_scaled round3_scaled get_row set_row create_schema add_seed_example activate_schema
    get_schema
active_found = refl
