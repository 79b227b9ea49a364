-- ===== src/WebhookDelivery.antt =====
-- `WebhookDeliverer.deliver` of app/services/webhook_delivery.py. A `POST` is a parameter: the status
-- of the response to an attempt, or the text of an `httpx.HTTPError` or an `OSError`.
pub mod Attempts
use ocr_service.Prelude.{
  ◌-◌, ℕ, zero, suc, ◌+◌, String, Bool, true, false, ◌&&◌, Option, none, some, List, [], ◌∷◌, ◌++◌,
  length, leb, ltb, if◌then◌else◌,
}
use ocr_service.Prelude.Outcome.{Outcome, ok, err}
use ocr_service.Json.{Dict}
use ocr_service.Status.{FailureReason, DlqStatus}
use ocr_service.Audit.{append_event}
use ocr_service.Store.{Db, Event}

-- `RETRY_SCHEDULE_S`
abbrev pub retry_schedule : List ℕ
retry_schedule = 1 ∷ 5 ∷ 30 ∷ 120 ∷ 600 ∷ []

-- `last_status` after an attempt.
abbrev pub last_status : Outcome String ℕ → Option ℕ
last_status (ok status) = some status
last_status (err message) = none

abbrev pub error_text : Outcome String ℕ → Option String
error_text (ok status) = none
error_text (err message) = some message

-- `last_status is not None and 200 <= last_status < 300`
abbrev pub is_success : Option ℕ → Bool
is_success none = false
is_success (some status) = leb 200 status && ltb status 300

-- `if attempt < len(schedule): sleep(schedule[attempt - 1])`: nothing after the last attempt.
abbrev pub wait_before : List ℕ → ℕ → List ℕ → List ℕ
wait_before [] wait slept = slept
wait_before (w ∷ schedule) wait slept = wait ∷ slept

-- The waits, in seconds, the result, and the database.
pub record Delivery (F : Type 0) : Type 0 where
  pub delivered : Bool
  pub slept : List ℕ
  pub db : Db F

module _ {F : Type 0} (digest : Dict → String) (tenant document_id : ℕ)
    (post : ℕ → Outcome String ℕ) where
  -- One `WebhookDelivery` row.
  abbrev pub record_attempt : ℕ → Outcome String ℕ → Db F → Db F
  record_attempt attempt response db = record db {
    webhook_deliveries =
        db.webhook_deliveries
        ++ record {
          id = db.next_id;
          document_id = document_id;
          tenant_id = tenant;
          attempt = attempt;
          http_status = last_status response;
          error = error_text response;
        }
          ∷ [];
    next_id = suc db.next_id;
  }

  -- The end of a delivery whose attempts are used up.
  unfoldable pub exhaust : ℕ → Option ℕ → Db F → Db F
  unfolding append_event
  exhaust attempts status db =
      append_event digest tenant (some document_id) (Event.webhook_exhausted attempts status) none
        (record db {
          dlq =
              db.dlq
              ++ record {
                id = db.next_id;
                document_id = document_id;
                tenant_id = tenant;
                failure_reason = FailureReason.webhook_delivery_failed;
                pipeline_state = none;
                last_http_status = status;
                status = DlqStatus.pending;
                retry_count = 0;
              }
                ∷ [];
          next_id = suc db.next_id;
        })

  -- The audit of a success.
  abbrev pub succeed : ℕ → Outcome String ℕ → Db F → Db F
  succeed attempt (ok status) db =
      append_event digest tenant (some document_id) (Event.webhook_delivered attempt status) none db
  succeed attempt (err message) db = db

  -- The loop, from an attempt on, with the waits of the schedule that are left and the status of
  -- the attempt before.
  unfoldable pub attempt_from : ℕ → List ℕ → Option ℕ → Db F → Delivery F
  unfolding exhaust append_event
  attempt_from attempt [] status db = record {
    delivered = false;
    slept = [];
    db = exhaust (attempt - 1) status db;
  }
  attempt_from attempt (wait ∷ schedule) status db =
      let response = post attempt in
      let recorded = record_attempt attempt response db in
      let rest = attempt_from (suc attempt) schedule (last_status response) recorded in
      if is_success (last_status response)
      then record { delivered = true; slept = []; db = succeed attempt response recorded }
      else record rest { slept = wait_before schedule wait rest.slept }

  -- `deliver`, with the default schedule.
  unfoldable pub deliver : Db F → Delivery F
  unfolding attempt_from
  deliver db = attempt_from 1 retry_schedule none db
