-- ===== src/WebhookDelivery/Attempts.antt =====
-- The attempts of `deliver` of app/services/webhook_delivery.py.
use ocr_service.Prelude.{
  lengths, ◌≤◌, nat_eq, contains, none, ℕ, zero, suc, ◌+◌, ◌≡◌, refl, ap, ◌∙◌, String, Bool, true,
  false, Option, List, [], ◌∷◌, length, length-append, arith, Bool-cases, inl, inr, if◌then◌else◌,
}
use ocr_service.Prelude.Outcome.{Outcome, ok, err}
use ocr_service.Json.{Dict}
use ocr_service.Audit.{append_event}
use ocr_service.Store.{Db}
use ocr_service.WebhookDelivery.{
  succeed, succeed, is_success, last_status, retry_schedule, wait_before, Delivery, record_attempt,
  exhaust, attempt_from, deliver,
}

-- Whether one of `k` attempts succeeds, from attempt `n` on.
abbrev pub succeeds : (ℕ → Outcome String ℕ) → ℕ → ℕ → Bool
succeeds post n zero = false
succeeds post n (suc k) =
    let rest = succeeds post (suc n) k in if is_success (last_status (post n)) then true else rest

-- How many of `k` attempts are made, from attempt `n` on: up to the first that succeeds.
abbrev pub made : (ℕ → Outcome String ℕ) → ℕ → ℕ → ℕ
made post n zero = 0
made post n (suc k) =
    let rest = made post (suc n) k in if is_success (last_status (post n)) then 1 else suc rest

-- The first waits of a schedule.
abbrev pub take : ℕ → List ℕ → List ℕ
take zero xs = []
take (suc n) [] = []
take (suc n) (x ∷ xs) = x ∷ take n xs

abbrev pub pred : ℕ → ℕ
pred zero = zero
pred (suc n) = n

waits :
    (post : ℕ → Outcome String ℕ) (n wait : ℕ) (schedule : List ℕ)
    → wait_before schedule wait (take (pred (made post n (length schedule))) schedule)
      ≡ take (made post n (length schedule)) (wait ∷ schedule)
waits post n wait [] = refl
waits post n wait (w ∷ schedule) = elim (Bool-cases (is_success (last_status (post n)))) [
  | inl h ↦ rw h refl
  | inr h ↦ rw h refl
]

made_le : (post : ℕ → Outcome String ℕ) (n k : ℕ) → made post n k ≤ k
made_le post n zero = omega arith
made_le post n (suc k) = ground (arith, made_le post (suc n) k)

pred_le : (n : ℕ) → n ≤ 5 → pred n ≤ 4
pred_le zero h = omega arith
pred_le (suc n) h = omega arith

pred-made : (post : ℕ → Outcome String ℕ) → pred (made post 1 5) ≤ 4
pred-made post = pred_le (made post 1 5) (made_le post 1 5)

short_waits : (k : ℕ) → k ≤ 4 → contains 600 (take k retry_schedule) ≡ false
short_waits zero h = refl
short_waits (suc zero) h = refl
short_waits (suc (suc zero)) h = refl
short_waits (suc (suc (suc zero))) h = refl
short_waits (suc (suc (suc (suc zero)))) h = refl
short_waits (suc (suc (suc (suc (suc k))))) h = ground arith

plus_zero : (n : ℕ) → n ≡ n + 0
plus_zero n = omega arith

module _ {F : Type 0} (post : ℕ → Outcome String ℕ) where
  -- What a delivery says, waits and adds to the database.
  pub record Outlined (n : ℕ) (schedule : List ℕ) (db : Db F) (d : Delivery F) : Type 0 where
    pub said : d.delivered ≡ succeeds post n (length schedule)
    pub waited : d.slept ≡ take (pred (made post n (length schedule))) schedule
    pub attempts :
        length d.db.webhook_deliveries
        ≡ length db.webhook_deliveries + made post n (length schedule)
    pub letters :
        length d.db.dlq ≡ length db.dlq + (if succeeds post n (length schedule) then 0 else 1)
    pub audits : length d.db.audit_log ≡ suc (length db.audit_log)

module _ {F : Type 0} (digest : Dict → String) (tenant document_id : ℕ)
    (post : ℕ → Outcome String ℕ) where
  succeed-deliveries :
      (n : ℕ) (response : Outcome String ℕ) (db : Db F)
      → length (succeed digest tenant document_id post n response db).webhook_deliveries
        ≡ length db.webhook_deliveries
  unfolding append_event
  succeed-deliveries n (ok status) db = refl
  succeed-deliveries n (err message) db = refl

  succeed-dlq :
      (n : ℕ) (response : Outcome String ℕ) (db : Db F)
      → (succeed digest tenant document_id post n response db).dlq ≡ db.dlq
  unfolding append_event
  succeed-dlq n (ok status) db = refl
  succeed-dlq n (err message) db = refl

  succeed-audits :
      (n : ℕ) (response : Outcome String ℕ) (db : Db F)
      → is_success (last_status response) ≡ true
      → length (succeed digest tenant document_id post n response db).audit_log
        ≡ suc (length db.audit_log)
  unfolding append_event
  succeed-audits n (ok status) db h = grind lengths
  succeed-audits n (err message) db h = ground arith

  attempt_from-Outlined :
      (n : ℕ) (schedule : List ℕ) (status : Option ℕ) (db : Db F)
      → Outlined post n schedule db
          (attempt_from digest tenant document_id post n schedule status db)
  unfolding attempt_from exhaust append_event
  attempt_from-Outlined n [] status db = record {
    said = refl;
    waited = refl;
    attempts = omega arith;
    letters = length-append db.dlq _;
    audits = grind lengths;
  }
  attempt_from-Outlined n (wait ∷ schedule) status db =
      let recorded = record_attempt digest tenant document_id post n (post n) db in
      let ih = attempt_from-Outlined (suc n) schedule (last_status (post n)) recorded in
      elim (Bool-cases (is_success (last_status (post n)))) [
        | inl h ↦ record {
          said = rw h refl;
          waited = rw h refl;
          attempts =
              rw h (succeed-deliveries n (post n) recorded ∙ length-append db.webhook_deliveries _);
          letters = rw h (ap length (succeed-dlq n (post n) recorded) ∙ plus_zero _);
          audits = rw h (succeed-audits n (post n) recorded h);
        }
        | inr h ↦ record {
          said = rw h ih.said;
          waited =
              rw h (ap (wait_before schedule wait) ih.waited ∙ waits post (suc n) wait schedule);
          attempts = rw h omega (arith, ih.attempts, length-append db.webhook_deliveries _);
          letters = rw h ih.letters;
          audits = rw h ih.audits;
        }
      ]

  -- A delivery makes its attempts up to the first that is answered with 2xx, five at most, and
  -- records each. It waits between two attempts, in the order of the schedule. It says whether an
  -- attempt succeeded, and adds one line to the audit and, where none did, one dead letter.
  pub deliver-Outlined :
      (db : Db F) → Outlined post 1 retry_schedule db (deliver digest tenant document_id post db)
  unfolding deliver
  deliver-Outlined db = attempt_from-Outlined 1 retry_schedule none db

  -- A delivery never waits the last of the schedule's waits, 600 seconds.
  pub last_wait_unused :
      (db : Db F) → contains 600 (deliver digest tenant document_id post db).slept ≡ false
  last_wait_unused db =
      ap (contains 600) (deliver-Outlined db).waited
      ∙ short_waits (pred (made post 1 5)) (pred-made post)
