-- ===== src/Parsers/Attempts.antt =====
-- The attempts of `LlamaParseClient.parse` in app/pipeline/parsers/llamaparse.py.
use ocr_service.Prelude.{
  ℕ, zero, suc, ◌+◌, ◌-◌, ◌≤◌, ◌<◌, ◌≡◌, refl, ap, ◌∙◌, String, true, false, List, [], ◌∷◌, ltb,
  arith, inl, inr,
}
use ocr_service.Prelude.Outcome.{Outcome, ok, err, Outcome-cases}
use ocr_service.Parsers.Local.{cloud_failed, Pdf, parse_local}
use ocr_service.Parsers.Cloud.{CloudError, timed_out, cloud_server_error, other, Cloud, call_cloud}
use ocr_service.Parsers.Llama.{
  Parsed, backoff, min_of, cloud_result, retry_after, attempts_from, parse_llama,
}

-- A time-out, or an error of the server.
pub data IsRetryable : Outcome CloudError String → Type 0 where
  slow : IsRetryable (err timed_out)
  broken : IsRetryable (err cloud_server_error)

-- The waits after so many attempts, from one on.
abbrev pub backoffs : ℕ → ℕ → List ℕ
backoffs attempt zero = []
backoffs attempt (suc n) = backoff attempt ∷ backoffs (suc attempt) n

module _ (pdf : Pdf) (content : List ℕ) (cloud : ℕ → Cloud) where
  -- How the attempts from one on end, after `k` of at most `left` that are retried.
  pub data End (attempt left k : ℕ) (p : Parsed) : Type 0 where
    parsed :
        (text : String)
        → k < left
        → call_cloud (cloud (attempt + k)) ≡ ok text
        → p.result ≡ ok (cloud_result text)
        → p.calls ≡ suc k
        → End attempt left k p
    propagated :
        (message : String)
        → k < left
        → call_cloud (cloud (attempt + k)) ≡ err (other message)
        → p.result ≡ err (cloud_failed message)
        → p.calls ≡ suc k
        → End attempt left k p
    fell_back : k ≡ left → p.result ≡ parse_local pdf content → p.calls ≡ k → End attempt left k p

  pub record Course (attempt left : ℕ) (p : Parsed) : Type 0 where
    pub k : ℕ
    pub failed : (i : ℕ) → i < k → IsRetryable (call_cloud (cloud (attempt + i)))
    pub waits : p.waits ≡ backoffs attempt (min_of k (left - 1))
    pub end : End attempt left k p

  first : (attempt : ℕ) → attempt + 0 ≡ attempt
  first attempt = omega arith

  further : (attempt i : ℕ) → attempt + suc i ≡ suc attempt + i
  further attempt i = omega arith

  pred : (left : ℕ) → suc left - 1 ≡ left
  pred left = omega arith

  failed-retry_after :
      (attempt k : ℕ)
      → IsRetryable (call_cloud (cloud attempt))
      → ((i : ℕ) → i < k → IsRetryable (call_cloud (cloud (suc attempt + i))))
      → (i : ℕ) → i < suc k
      → IsRetryable (call_cloud (cloud (attempt + i)))
  failed-retry_after attempt k r f zero h = rw (first attempt) r
  failed-retry_after attempt k r f (suc i) h = rw (further attempt i) (f i (omega (arith, h)))

  waits-retry_after :
      (max_retries attempt left k : ℕ) (p : Parsed)
      → attempt + left ≡ max_retries
      → k ≤ left
      → p.waits ≡ backoffs (suc attempt) (min_of k (left - 1))
      → (retry_after max_retries attempt p).waits ≡ backoffs attempt (min_of (suc k) left)
  waits-retry_after max_retries attempt zero k p m le w = rw (last, none_left, w, none_yet) refl
    where
      last : ltb attempt max_retries ≡ false
      last = ground arith

      none_left : min_of (suc k) 0 ≡ 0
      none_left = ground arith

      none_yet : min_of k (0 - 1) ≡ 0
      none_yet = ground arith
  waits-retry_after max_retries attempt (suc left) k p m le w =
      rw (more, one_more, w, pred left) refl
    where
      more : ltb attempt max_retries ≡ true
      more = ground arith

      one_more : min_of (suc k) (suc left) ≡ suc (min_of k left)
      one_more = ground arith

  End-retry_after :
      (max_retries attempt left k : ℕ) (p : Parsed)
      → End (suc attempt) left k p
      → End attempt (suc left) (suc k) (retry_after max_retries attempt p)
  End-retry_after max_retries attempt left k p (parsed text l h r c) =
      parsed text (omega (arith, l)) (rw (further attempt k) h) r (ap suc c)
  End-retry_after max_retries attempt left k p (propagated message l h r c) =
      propagated message (omega (arith, l)) (rw (further attempt k) h) r (ap suc c)
  End-retry_after max_retries attempt left k p (fell_back e r c) = fell_back (ap suc e) r (ap suc c)

  End-within : (attempt left k : ℕ) (p : Parsed) → End attempt left k p → k ≤ left
  End-within attempt left k p (parsed text l h r c) = omega (arith, l)
  End-within attempt left k p (propagated message l h r c) = omega (arith, l)
  End-within attempt left k p (fell_back e r c) = omega (arith, e)

  Course-retry_after :
      (max_retries attempt left : ℕ) (p : Parsed)
      → attempt + left ≡ max_retries
      → IsRetryable (call_cloud (cloud attempt))
      → Course (suc attempt) left p
      → Course attempt (suc left) (retry_after max_retries attempt p)
  Course-retry_after max_retries attempt left p m r c = record {
    k = suc c.k;
    failed = failed-retry_after attempt c.k r c.failed;
    waits =
        rw (pred left)
          (waits-retry_after max_retries attempt left c.k p m (End-within _ _ _ p c.end) c.waits);
    end = End-retry_after max_retries attempt left c.k p c.end;
  }

  Course-ended :
      (attempt left : ℕ) (p : Parsed) → p.waits ≡ [] → End attempt left 0 p → Course attempt left p
  Course-ended attempt left p w e = record {
    k = 0;
    failed = λ i h. absurd (ground arith);
    waits = w ∙ ap (backoffs attempt) none_yet;
    end = e;
  }
    where
      none_yet : 0 ≡ min_of 0 (left - 1)
      none_yet = ground arith

  attempts_from-Course :
      (max_retries left attempt : ℕ)
      → attempt + left ≡ suc max_retries
      → Course attempt left (attempts_from pdf content cloud max_retries left attempt)
  unfolding attempts_from
  attempts_from-Course max_retries zero attempt m =
      Course-ended attempt zero _ refl (fell_back refl refl refl)
  attempts_from-Course max_retries (suc left) attempt m =
      elim (Outcome-cases (call_cloud (cloud attempt))) [
        | inl (text, h) ↦
            rw (attempts_from, h)
              (Course-ended attempt (suc left) _ refl
                (parsed text (omega arith) (rw (first attempt) h) refl refl))
        | inr (timed_out, h) ↦
            rw (attempts_from, h)
              (Course-retry_after max_retries attempt left _ (omega (arith, m)) (rw h slow)
                (attempts_from-Course max_retries left (suc attempt) (omega (arith, m))))
        | inr (cloud_server_error, h) ↦
            rw (attempts_from, h)
              (Course-retry_after max_retries attempt left _ (omega (arith, m)) (rw h broken)
                (attempts_from-Course max_retries left (suc attempt) (omega (arith, m))))
        | inr (other message, h) ↦
            rw (attempts_from, h)
              (Course-ended attempt (suc left) _ refl
                (propagated message (omega arith) (rw (first attempt) h) refl refl))
      ]

  -- With an API key, the cloud is called until it answers, or fails with neither a time-out nor an
  -- error of the server, which leaves the parser; or it has failed so `max_retries` times, and the
  -- local parser decides. The wait after the attempt `i` is the smaller of 2 ^ i and 4 seconds, and
  -- there is none after the last attempt.
  pub parse_llama-Course :
      (max_retries : ℕ) → Course 1 max_retries (parse_llama pdf content cloud max_retries true)
  unfolding parse_llama
  parse_llama-Course max_retries = attempts_from-Course max_retries max_retries 1 (omega arith)
