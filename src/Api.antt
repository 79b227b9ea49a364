-- ===== src/Api.antt =====
-- The handlers of app/api/routers, and how they answer exceptions.
pub mod Extract
pub mod Dlq
pub mod Slots
pub mod Queue
pub mod Refusal
pub mod Reads
pub mod Reviews
pub mod Schemas
pub mod Thresholds
pub mod Answers
pub mod Isolation
pub mod Pages
pub mod Export
pub mod Ordering
pub mod Erase
pub mod Exports
use ocr_service.Prelude.{String}

-- `HTTPException`, by its status code, and an exception that FastAPI turns into a 500.
pub data HttpError : Type 0 where
  unauthorized_401 forbidden_403 not_found_404 conflict_409 too_large_413 unprocessable_422
        too_many_requests_429 :
      HttpError
  server_error : String → HttpError
