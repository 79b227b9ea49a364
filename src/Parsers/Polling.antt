-- ===== src/Parsers/Polling.antt =====
-- The loop of `_call_cloud` in app/pipeline/parsers/llamaparse.py ends.
use ocr_service.Prelude.{
  false, ℕ, zero, suc, ◌+◌, ◌*◌, ◌≤◌, ◌≡◌, refl, String, none, some, ltb, arith, Bool-cases,
  Option-cases, inl, inr,
}
use ocr_service.Prelude.Outcome.{Outcome, err}
use ocr_service.Json.{Json}
use ocr_service.Parsers.Cloud.{
  CloudError, cloud_server_error, Cloud, turn, poll, poll_timeout_ms, poll_fuel,
}

module _ (c : Cloud) where
  turn_ends :
      (turns deadline : ℕ) (job_id : Json) (now : ℕ)
      → (turn c job_id now ≡ none
          → (o : Outcome CloudError String) × (poll c turns deadline job_id
                (now + c.latency now + 1000)
              ≡ some o))
      → (o : Outcome CloudError String) × (poll c (suc turns) deadline job_id now ≡ some o)
  unfolding poll
  turn_ends turns deadline job_id now rest = elim (Bool-cases (ltb now deadline)) [
    | inr f ↦ (err cloud_server_error, rw (poll, f) refl)
    | inl f ↦ (elim (Option-cases (turn c job_id now)) [
      | inr (o, t) ↦ (o, rw (poll, f, t) refl)
      | inl t ↦ ((rest t).0, rw (poll, f, t) ((rest t).1))
    ])
  ]

  -- With a turn for each second up to the deadline, and one more, the loop ends.
  poll_ends :
      (n deadline : ℕ) (job_id : Json) (now : ℕ)
      → deadline ≤ now + 1000 * n
      → (o : Outcome CloudError String) × (poll c (suc n) deadline job_id now ≡ some o)
  unfolding poll
  poll_ends zero deadline job_id now h = (err cloud_server_error, rw (poll, late) refl)
    where
      late : ltb now deadline ≡ false
      late = ground arith
  poll_ends (suc n) deadline job_id now h =
      turn_ends (suc n) deadline job_id now
        (λ t. poll_ends n deadline job_id (now + c.latency now + 1000) (omega (arith, h)))

  -- However the service answers, and however long it takes, the loop has ended after at most 31
  -- turns: with an answer, or with the exception of the deadline.
  pub poll_total :
      (job_id : Json) (begin : ℕ)
      → (o : Outcome CloudError String) × (poll c poll_fuel (begin + poll_timeout_ms) job_id begin
          ≡ some o)
  poll_total job_id begin = poll_ends 30 (begin + poll_timeout_ms) job_id begin (omega arith)
