-- ===== src/Api/Answers.antt =====
-- What `act_on_review` of app/api/routers/review.py answers.
use ocr_service.Prelude.{ℕ, ◌≡◌, ◌≢◌, none, some, nat_eq, string_eq}
use ocr_service.Prelude.Outcome.{Outcome, ok, err}
use ocr_service.Store.{Db, ReviewTask, review_row}
use ocr_service.Store.Rows.{get_row}
use ocr_service.Review.{ReviewAction}
use ocr_service.Review.Decided.{Decided}
use ocr_service.Api.{HttpError, not_found_404, conflict_409, unprocessable_422}
use ocr_service.Api.Reviews.{ReviewActionRequest, validate_action_fields}

pub data Answer {F : Type 0} (tenant review_id : ℕ) (q : ReviewActionRequest) (db : Db F)
    : Outcome HttpError (Db F) → Type 0 where
  malformed : validate_action_fields q ≡ none → Answer tenant review_id q db (err unprocessable_422)
  missing :
      (a : ReviewAction)
      → validate_action_fields q ≡ some a
      → get_row tenant review_id db.review_tasks ≡ none
      → Answer tenant review_id q db (err not_found_404)
  conflicting :
      (a : ReviewAction) (r : ReviewTask)
      → validate_action_fields q ≡ some a
      → get_row tenant review_id db.review_tasks ≡ some r
      → r.version ≢ q.version
      → Answer tenant review_id q db (err conflict_409)
  done :
      (a : ReviewAction) (r : ReviewTask) (t : Db F)
      → validate_action_fields q ≡ some a
      → get_row tenant review_id db.review_tasks ≡ some r
      → r.version ≡ q.version
      → Decided tenant a r db t
      → Answer tenant review_id q db (ok t)
