-- ===== src/Audit.antt =====
-- app/services/audit.py. The digest of a payload, SHA-256 of its canonical JSON, is a parameter.
use ocr_service.Prelude.{ℕ, suc, String, Option, none, some, [], ◌∷◌, ◌++◌}
use ocr_service.Json.{Dict}
use ocr_service.Store.{Db, Event}

-- `payload_hash`
unfoldable pub payload_hash : (Dict → String) → Option Dict → Option String
payload_hash digest none = none
payload_hash digest (some payload) = some (digest payload)

-- `append_event`: one row more, in the caller's transaction. An `Event` is the event type with the
-- actor, the status and the metadata that the callers give with it.
unfoldable pub append_event :
    {F : Type 0} → (Dict → String) → ℕ → Option ℕ → Event → Option Dict → Db F → Db F
unfolding payload_hash
append_event digest tenant document_id event payload db = record db {
  audit_log =
      db.audit_log
      ++ record {
        id = db.next_id;
        tenant_id = tenant;
        document_id = document_id;
        event = event;
        payload_hash = payload_hash digest payload;
      }
        ∷ [];
  next_id = suc db.next_id;
}
