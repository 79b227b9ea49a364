-- ===== src/Parsers/Cloud.antt =====
-- `_call_cloud` of app/pipeline/parsers/llamaparse.py. Times are in milliseconds; the HTTP client is
-- a parameter.
use ocr_service.Prelude.{
  ℕ, zero, suc, ◌+◌, String, Bool, false, ◌&&◌, Option, none, some, ltb, leb, ◌==◌, string_eq,
  if◌then◌else◌,
}
use ocr_service.Prelude.Outcome.{Outcome, ok, err}
use ocr_service.Json.{Json, get}
use ocr_service.Json.Values.{or_else}

-- `httpx.TimeoutException`, `_CloudServerError`, and any other exception by its text.
pub data CloudError : Type 0 where
  timed_out cloud_server_error : CloudError
  other : String → CloudError

-- `body` is `response.json()`; `err` is its exception.
pub record Response : Type 0 where
  pub status_code : ℕ
  pub body : Outcome String Json

-- The service as one call meets it: the answer to the upload, and those to the questions for a job
-- and for its result at a time; how long a question at a time takes, with what the clock adds to the
-- sleep after it.
pub record Cloud : Type 0 where
  pub upload : Outcome CloudError Response
  pub job : Json → ℕ → Outcome CloudError Response
  pub markdown : Json → ℕ → Outcome CloudError Response
  pub latency : ℕ → ℕ
  pub begin : ℕ
  pub show : Json → String

-- `is_ok_status` of httpx, which `raise_for_status` asks.
abbrev pub is_ok_status : ℕ → Bool
is_ok_status code = leb 200 code && ltb code 300

abbrev pub poll_timeout_ms : ℕ
poll_timeout_ms = 30000

-- `body.get(k)`, of a body that must be a dict.
abbrev pub member : String → Outcome String Json → Outcome CloudError (Option Json)
member k (err message) = err (other message)
member k (ok (Json.obj d)) = ok (get k d)
member k (ok v) = err (other "object has no such attribute")

-- The turns that the loop is given: one for each second, and one to see the deadline.
abbrev pub poll_fuel : ℕ
poll_fuel = 31

abbrev pub is_done : Option Json → Bool
is_done (some (Json.str s)) = s == "SUCCESS"
is_done v = false

module _ (c : Cloud) where
  -- The text of the result of a job.
  abbrev pub read_result : Response → Outcome CloudError String
  read_result r =
      if is_ok_status r.status_code
      then elim (member "markdown" r.body) [
        | err e ↦ err e
        | ok v ↦ ok (c.show (or_else (Json.str "") v))
      ]
      else err (other "HTTP status error")

  abbrev pub fetch_result : Json → ℕ → Outcome CloudError String
  fetch_result job_id now = elim (c.markdown job_id now) [ err e ↦ err e | ok r ↦ read_result r ]

  -- One turn of the loop: `none` where it sleeps.
  abbrev pub look : Json → ℕ → Response → Option (Outcome CloudError String)
  look job_id now r =
      if leb 500 r.status_code
      then some (err cloud_server_error)
      else elim (member "status" r.body) [
        | err e ↦ some (err e)
        | ok v ↦ if is_done v then some (fetch_result job_id now) else none
      ]

  abbrev pub turn : Json → ℕ → Option (Outcome CloudError String)
  turn job_id now = elim (c.job job_id now) [ err e ↦ some (err e) | ok r ↦ look job_id now r ]

  -- The loop, on fuel; `none` is out of fuel.
  unfoldable pub poll : ℕ → ℕ → Json → ℕ → Option (Outcome CloudError String)
  poll zero deadline job_id now = none
  poll (suc fuel) deadline job_id now =
      let rest = poll fuel deadline job_id (now + c.latency now + 1000) in
      if ltb now deadline
      then elim (turn job_id now) [ some o ↦ some o | none ↦ rest ]
      else some (err cloud_server_error)

  -- What follows the upload. The out-of-fuel case does not come up.
  abbrev pub returned : Option (Outcome CloudError String) → Outcome CloudError String
  returned none = err (other "out of fuel")
  returned (some o) = o

  abbrev pub follow_job : Option Json → Outcome CloudError String
  follow_job none = err (other "id")
  follow_job (some job_id) = returned (poll poll_fuel (c.begin + poll_timeout_ms) job_id c.begin)

  abbrev pub after_upload : Response → Outcome CloudError String
  after_upload r =
      if leb 500 r.status_code
      then err cloud_server_error
      else if is_ok_status r.status_code
      then elim (member "id" r.body) [ err e ↦ err e | ok v ↦ follow_job v ]
      else err (other "HTTP status error")

  -- `_call_cloud`
  unfoldable pub call_cloud : Outcome CloudError String
  unfolding poll
  call_cloud = elim c.upload [ err e ↦ err e | ok r ↦ after_upload r ]
