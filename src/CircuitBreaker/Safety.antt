-- ===== src/CircuitBreaker/Safety.antt =====
-- Overlapping calls of the breaker of app/domain/circuit_breaker.py, as steps of a process.
use ocr_service.Prelude.{
  if◌then◌else◌, ℕ, ◌-◌, ◌+◌, ◌≤◌, ◌<◌, ◌≡◌, ◌≢◌, refl, none, some, arith, leb, length,
}
use ocr_service.CircuitBreaker.{
  System, opened, half_open, new, state, record_failure, record_success,
}

-- Time passes; a call is let through, or refused with `CircuitOpenError`; a call that was let
-- through returns or raises.
pub data Step : System → System → Type 0 where
  tick : (s : System) (n : ℕ) → Step s (record s { now = s.now + n })
  admit :
      (s : System)
      → state s.now s.breaker ≢ opened
      → Step s (record s { in_flight = s.in_flight + 1 })
  refuse : (s : System) → state s.now s.breaker ≡ opened → Step s s
  succeed :
      (s : System)
      → 0 < s.in_flight
      → Step s (record s { breaker = record_success s.breaker; in_flight = s.in_flight - 1 })
  fail :
      (s : System)
      → 0 < s.in_flight
      → Step s (record s { breaker = record_failure s.now s.breaker; in_flight = s.in_flight - 1 })

pub data Reach (s : System) : System → Type 0 where
  here : Reach s s
  next : {t u : System} → Reach s t → Step t u → Reach s u

-- What holds of the breaker at every moment.
pub record IsValid (s : System) : Type 0 where
  pub positive : 0 < s.breaker.threshold
  pub past : (t : ℕ) → s.breaker.opened_at ≡ some t → t ≤ s.now
  pub few : s.breaker.opened_at ≡ none → length s.breaker.failures < s.breaker.threshold

Step-IsValid : {s t : System} → Step s t → IsValid s → IsValid t
Step-IsValid (tick s n) v = record {
  positive = v.positive;
  past = λ t e. omega (arith, v.past t e);
  few = v.few;
}
Step-IsValid (admit s h) v = record { positive = v.positive; past = v.past; few = v.few }
Step-IsValid (refuse s h) v = v
Step-IsValid (succeed s h) v = record {
  positive = unfold record_success in v.positive;
  past = λ t. unfold record_success in ground arith;
  few = unfold record_success in ground (arith, v.positive);
}
Step-IsValid (fail s h) v = record {
  positive = unfold record_failure in v.positive;
  past = λ t. unfold record_failure in ground (arith, v.past t);
  few = unfold record_failure in ground arith;
}

-- From a valid process, whatever calls overlap in whatever order, the opening time is never ahead
-- of the clock, and a breaker that is closed holds fewer failures than its threshold.
pub Reach-IsValid : {s t : System} → IsValid s → Reach s t → IsValid t
Reach-IsValid v here = v
Reach-IsValid v (next r st) = Step-IsValid st (Reach-IsValid v r)

abbrev pub start : ℕ → ℕ → ℕ → System
start threshold window cooldown = record {
  breaker = new threshold window cooldown;
  now = 0;
  in_flight = 0;
}

pub IsValid-start :
    (threshold window cooldown : ℕ) → 0 < threshold → IsValid (start threshold window cooldown)
unfolding new
IsValid-start threshold window cooldown h = ground arith

-- Steps among which no call succeeds.
abbrev pub NoSuccess : {s t : System} → Step s t → Type 0
NoSuccess (succeed s h) = ⊥
NoSuccess _ = Unit

pub data Drought (s : System) : System → Type 0 where
  here : Drought s s
  next : {t u : System} → Drought s t → (st : Step t u) → NoSuccess st → Drought s u

-- What a drought keeps: the opening time, the cooldown, and a clock that does not go back.
record Kept (at : ℕ) (s t : System) : Type 0 where
  opening : t.breaker.opened_at ≡ some at
  cooling : t.breaker.cooldown ≡ s.breaker.cooldown
  later : s.now ≤ t.now

Step-Kept : {at : ℕ} {s t u : System} → (st : Step t u) → NoSuccess st → Kept at s t → Kept at s u
Step-Kept (tick t n) q k = record {
  opening = k.opening;
  cooling = k.cooling;
  later = omega (arith, k.later);
}
Step-Kept (admit t h) q k = record { opening = k.opening; cooling = k.cooling; later = k.later }
Step-Kept (refuse t h) q k = k
Step-Kept (succeed t h) q k = elim q [ ]
Step-Kept (fail t h) q k = record {
  opening = unfold record_failure in ground (arith, k.opening);
  cooling = unfold record_failure in k.cooling;
  later = k.later;
}

Drought-Kept : {at : ℕ} {s t : System} → s.breaker.opened_at ≡ some at → Drought s t → Kept at s t
Drought-Kept e here = record { opening = e; cooling = refl; later = omega arith }
Drought-Kept e (next d st q) = Step-Kept st q (Drought-Kept e d)

-- Once the breaker has opened at `at`, and until a call succeeds, its state depends on the clock
-- alone: calls are refused before `at + cooldown`, and from then on the breaker is half-open,
-- however many of the calls that it then lets through fail.
pub state-Drought :
    {at : ℕ} {s t : System}
    → s.breaker.opened_at ≡ some at
    → Drought s t
    → state t.now t.breaker ≡ (if leb s.breaker.cooldown (t.now - at) then half_open else opened)
unfolding state
state-Drought {at} {s} {t} e d =
    ground (arith, (Drought-Kept e d).opening, (Drought-Kept e d).cooling)
