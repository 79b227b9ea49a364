-- ===== src/Review/Conflict.antt =====
-- Two reviewers who act on one task: app/services/review.py and the lock of app/db/models.py.
use ocr_service.Prelude.{
  refl, nat_eq, ◌==◌, none, String, ◌==◌, some, suc, ℕ, ◌≡◌, Bool, true, false, arith,
}
use ocr_service.Status.{ReviewStatus}
use ocr_service.Store.{ReviewTask, review_row}
use ocr_service.Review.Actions.{acted, flush_action-Acted}
use ocr_service.Review.{
  flush_action, ok, act_on, refusal, get_row, Dict, stale_data, err, write_task, Db, ReviewAction,
  decide, is_dirty,
}

abbrev pub is_open : ReviewStatus → Bool
is_open ReviewStatus.pending = true
is_open ReviewStatus.in_progress = true
is_open _ = false

open_is_dirty :
    (a : ReviewAction) (r : ReviewTask) → is_open r.status ≡ true → is_dirty r (decide a r) ≡ true
open_is_dirty a r h = ground arith

other_version : (m n : ℕ) → m ≡ suc n → (m == n) ≡ false
other_version m n h = ground arith

write_task_stale :
    {F : Type 0} (tenant : ℕ) (a : ReviewAction) (r current : ReviewTask) (db : Db F)
    → is_open r.status ≡ true
    → current.version ≡ suc r.version
    → write_task tenant a r (some current) db ≡ err stale_data
write_task_stale tenant a r current db o v =
    rw (open_is_dirty a r o, other_version current.version r.version v) refl

version-acted :
    (a : ReviewAction) (r : ReviewTask)
    → is_open r.status ≡ true
    → (acted a r r).version ≡ suc r.version
version-acted a r o = rw (open_is_dirty a r o) refl

flush_action_stale :
    {F : Type 0} (digest : Dict → String) (tenant : ℕ) (a : ReviewAction) (r current : ReviewTask)
    (db : Db F)
    → is_open r.status ≡ true
    → get_row tenant r.id db.review_tasks ≡ some current
    → current.version ≡ suc r.version
    → flush_action digest tenant a r db ≡ err stale_data
unfolding flush_action
flush_action_stale digest tenant a r current db o found v =
    rw (flush_action, found, write_task_stale tenant a r current _ o v) refl

module _ {F : Type 0} (digest : Dict → String) (tenant : ℕ) where
  -- Of two reviewers who have loaded the same open task and whose actions pass the guards, once the
  -- first is saved the second is refused with `StaleDataError`, whatever the two decide.
  pub second_reviewer_refused :
      (a b : ReviewAction) (expected : ℕ) (r : ReviewTask) (db t : Db F)
      → is_open r.status ≡ true
      → get_row tenant r.id db.review_tasks ≡ some r
      → refusal a expected r ≡ none
      → refusal b expected r ≡ none
      → act_on digest tenant a expected r db ≡ ok t
      → act_on digest tenant b expected r t ≡ err stale_data
  second_reviewer_refused a b expected r db t o found pa pb h =
      let first = flush_action-Acted digest tenant a r db t found (rw (act_on, pa) at h) in
      rw (act_on, pb)
        (flush_action_stale digest tenant b r (acted a r r) t o first.task (version-acted a r o))
