-- ===== src/Runner/Webhook.antt =====
-- `_deliver_webhook` of app/worker/runner.py, on the database that its session reads.
use ocr_service.Prelude.{ℕ, String, Option, none, some, nat_eq, if◌then◌else◌}
use ocr_service.Prelude.Outcome.{Outcome, ok, err}
use ocr_service.Text.{is_empty}
use ocr_service.Json
use ocr_service.Json.{Json, Dict, entry}
use ocr_service.Status.{DocumentStatus}
use ocr_service.Confidence.{RoutingDecision}
use ocr_service.Store.{Db, Document, ExtractionResult, Tenant, document_row}
use ocr_service.Store.Rows.{get_row}
use ocr_service.Webhook.{Signer, SignedRequest, build_signed_request}
use ocr_service.WebhookDelivery.{deliver}
use ocr_service.Api.{HttpError}
use ocr_service.Api.Extract.{get_tenant}
use ocr_service.Api.Reads.{one_or_none, extractions_of}

-- The texts of the two enumerations and of an id.
pub record Labels : Type 0 where
  pub status : DocumentStatus → String
  pub decision : RoutingDecision → String
  pub id : ℕ → String

abbrev pub decision_json : Labels → Option RoutingDecision → Json
decision_json l none = Json.null
decision_json l (some d) = Json.str (l.decision d)

abbrev pub dict_json : Option Dict → Json
dict_json none = Json.null
dict_json (some d) = Json.obj d

-- What is posted, and where.
pub record Posting : Type 0 where
  pub url : String
  pub request : SignedRequest

-- `tenant.webhook_url`, if it is not empty.
abbrev pub url_of : Option Tenant → Option (Tenant × String)
url_of none = none
url_of (some t) = elim t.webhook_url [
  | none ↦ none
  | some url ↦ if is_empty url then none else some (t, url)
]

module _ {F : Type 0} where
  abbrev pub extracted_of : Option (ExtractionResult F) → Json
  extracted_of none = Json.null
  extracted_of (some e) = dict_json e.extracted_json

  -- The payload of a document.
  abbrev pub webhook_payload : Labels → Document F → Option (ExtractionResult F) → Dict
  webhook_payload l d extraction = entry "document_id" (Json.str (l.id d.id)) (
      entry "status" (Json.str (l.status d.status)) (
        entry "routing_decision" (decision_json l d.routing_decision)
          (entry "extracted_json" (extracted_of extraction) Json.empty)))

  module _ (l : Labels) (s : Signer) (digest : Dict → String)
      (post : String → SignedRequest → ℕ → Outcome String ℕ) where
    -- The call of the deliverer.
    abbrev pub post_result :
        ℕ
        → Document F
        → Tenant × String
        → Outcome HttpError (Option (ExtractionResult F))
        → Db F
        → Outcome HttpError (Option Posting × Db F)
    post_result tenant d (t, url) (err e) db = err e
    post_result tenant d (t, url) (ok extraction) db =
        let request = build_signed_request s (webhook_payload l d extraction) t.webhook_secret in
        ok (
          some (record { url = url; request = request }),
          (deliver digest tenant d.id (post url request) db).db,
        )

    abbrev pub to_tenant :
        ℕ → Document F → Option (Tenant × String) → Db F → Outcome HttpError (Option Posting × Db F)
    to_tenant tenant d none db = ok (none, db)
    to_tenant tenant d (some target) db =
        post_result tenant d target (one_or_none (extractions_of tenant d.id db)) db

    -- `_deliver_webhook`: what was posted, if anything, and the database. `err` is what
    -- `scalar_one_or_none` raises.
    unfoldable pub deliver_webhook : ℕ → ℕ → Db F → Outcome HttpError (Option Posting × Db F)
    unfolding get_row get_tenant build_signed_request deliver
    deliver_webhook document_id tenant db = elim (get_row tenant document_id db.documents) [
      | none ↦ ok (none, db)
      | some d ↦ to_tenant tenant d (url_of (get_tenant tenant db.tenants)) db
    ]
