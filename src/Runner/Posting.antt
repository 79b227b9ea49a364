-- ===== src/Runner/Posting.antt =====
-- What `_deliver_webhook` of app/worker/runner.py posts.
use ocr_service.Prelude.{ℕ, ◌≡◌, true, Option, none, some, nat_eq}
use ocr_service.Prelude.Outcome.{Outcome, ok, err}
use ocr_service.Store.{Db, Document, ExtractionResult, Tenant, document_row}
use ocr_service.Store.Rows.{get_row}
use ocr_service.Webhook.{Signer, verify}
use ocr_service.Api.{HttpError}
use ocr_service.Api.Extract.{get_tenant}
use ocr_service.Api.Reads.{one_or_none, extractions_of}
use ocr_service.Runner.Webhook.{Labels, webhook_payload, Posting}

module _ {F : Type 0} (l : Labels) (s : Signer) (tenant document_id : ℕ) (db : Db F) where
  -- What is posted is the payload of the tenant's document, with its extraction if there is one, to
  -- the address of the tenant, and verifies under the tenant's secret.
  pub record IsMeant (p : Posting) : Type 0 where
    pub document : Document F
    pub found : get_row tenant document_id db.documents ≡ some document
    pub receiver : Tenant
    pub is_tenant : get_tenant tenant db.tenants ≡ some receiver
    pub address : receiver.webhook_url ≡ some p.url
    pub extraction : Option (ExtractionResult F)
    pub is_extraction : one_or_none (extractions_of tenant document.id db) ≡ ok extraction
    pub body : p.request.body ≡ s.dumps (webhook_payload l document extraction)
    pub verified : verify s p.request.body receiver.webhook_secret p.request.signature ≡ true

  Meant : Outcome HttpError (Option Posting × Db F) → Type 0
  Meant (err e) = Unit
  Meant (ok (none, t)) = t ≡ db
  Meant (ok (some p, t)) = IsMeant p
