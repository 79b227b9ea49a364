-- ===== src/Api/Reviews.antt =====
-- `act_on_review` of app/api/routers/review.py, with the request of app/api/schemas/document.py.
use ocr_service.Prelude.{
  ℕ, String, Option, none, some, List, [], ◌∷◌, ◌==◌, string_eq, if◌then◌else◌,
}
use ocr_service.Prelude.Outcome.{Outcome, ok, err}
use ocr_service.Text.{is_empty}
use ocr_service.Json.{Dict}
use ocr_service.Store.{Db, Correction}
use ocr_service.Review.{
  ReviewAction, accept, correct, reject, ReviewError, not_found, version_mismatch,
  corrections_required, stale_data, apply_action,
}
use ocr_service.Api.{HttpError, not_found_404, conflict_409, unprocessable_422}

-- `ReviewActionRequest`
pub record ReviewActionRequest : Type 0 where
  pub action : String
  pub corrections : Option (List Correction)
  pub rejection_reason : Option String
  pub version : ℕ

-- `validate_action_fields`, once the action is "correct".
abbrev pub correct_action : Option (List Correction) → Option ReviewAction
correct_action none = none
correct_action (some []) = none
correct_action (some (c ∷ cs)) = some (correct (c ∷ cs))

-- The same, once it is "reject".
abbrev pub reject_action : Option String → Option ReviewAction
reject_action none = none
reject_action (some reason) = if is_empty reason then none else some (reject (some reason))

-- The pattern of `action` and `validate_action_fields`: `none` is a 422.
unfoldable pub validate_action_fields : ReviewActionRequest → Option ReviewAction
validate_action_fields q =
    if q.action == "accept"
    then some accept
    else if q.action == "correct"
    then correct_action q.corrections
    else if q.action == "reject"
    then reject_action q.rejection_reason
    else none

abbrev pub review_response : ReviewError → HttpError
review_response not_found = not_found_404
review_response version_mismatch = conflict_409
review_response corrections_required = conflict_409
review_response stale_data = conflict_409

module _ {F : Type 0} (digest : Dict → String) where
  abbrev review_answer : Outcome ReviewError (Db F) → Outcome HttpError (Db F)
  review_answer (ok db) = ok db
  review_answer (err e) = err (review_response e)

  -- `act_on_review`, in the session of a tenant, undisturbed.
  unfoldable pub act_on_review : ℕ → ℕ → ReviewActionRequest → Db F → Outcome HttpError (Db F)
  unfolding validate_action_fields apply_action
  act_on_review tenant review_id q db = elim (validate_action_fields q) [
    | none ↦ err unprocessable_422
    | some a ↦ review_answer (apply_action digest tenant review_id a q.version db)
  ]
