-- ===== src/CircuitBreaker.antt =====
-- app/domain/circuit_breaker.py: `CircuitBreaker`. Times are readings of `time.monotonic()`, in
-- ticks; the name of the breaker stands only in log lines and messages, and is left out. The lock
-- only makes each recording atomic, which a function is.
pub mod Window
pub mod Safety
use ocr_service.Prelude.{
  ℕ, ◌-◌, ◌+◌, ◌≤◌, Bool, true, false, not, ◌&&◌, Option, none, some, List, [], ◌∷◌, ◌++◌, ltb, leb,
  length, keep, if◌then◌else◌,
}
use ocr_service.Prelude.Outcome.{Outcome, ok, err}

pub data State : Type 0 where
  closed opened half_open : State

pub record CircuitBreaker : Type 0 where
  pub threshold : ℕ
  pub window : ℕ
  pub cooldown : ℕ
  pub failures : List ℕ
  pub opened_at : Option ℕ

-- `CircuitBreaker.__init__`
unfoldable pub new : ℕ → ℕ → ℕ → CircuitBreaker
new failure_threshold window_s cooldown_s = record {
  threshold = failure_threshold;
  window = window_s;
  cooldown = cooldown_s;
  failures = [];
  opened_at = none;
}

-- The property `state`, read at a time.
unfoldable pub state : ℕ → CircuitBreaker → State
state now b = elim b.opened_at [
  | none ↦ closed
  | some t ↦ if leb b.cooldown (now - t) then half_open else opened
]

abbrev pub is_none {ℓ} : {A : Type ℓ} → Option A → Bool
is_none none = true
is_none (some a) = false

-- `now - t < self._window`
abbrev pub within : ℕ → ℕ → ℕ → Bool
within now window t = ltb (now - t) window

-- `_record_failure`, the lock held throughout.
unfoldable pub record_failure : ℕ → CircuitBreaker → CircuitBreaker
record_failure now b =
    let failures = keep (within now b.window) b.failures ++ now ∷ [] in
    let opens = leb b.threshold (length failures) && is_none b.opened_at in
    record b { failures = failures; opened_at = if opens then some now else b.opened_at }

-- `_record_success`
unfoldable pub record_success : CircuitBreaker → CircuitBreaker
record_success b = record b { failures = []; opened_at = none }

pub data CallError (E : Type 0) : Type 0 where
  circuit_open : CallError E
  raised : E → CallError E

module _ {E A : Type 0} where
  -- What follows `await fn()`: the failure or the success is recorded at the time it ends.
  unfoldable pub settle :
      ℕ → Outcome E A → CircuitBreaker → Outcome (CallError E) A × CircuitBreaker
  settle finish (ok a) b = (ok a, record_success b)
  settle finish (err e) b = (err (raised e), record_failure finish b)

  -- `call`: begun at `start`. While `fn` is awaited, other tasks change the breaker by `others`;
  -- `fn` ends at `finish` with `result`.
  unfoldable pub call :
      ℕ
      → (CircuitBreaker → CircuitBreaker)
      → ℕ
      → Outcome E A
      → CircuitBreaker
      → Outcome (CallError E) A × CircuitBreaker
  unfolding state settle record_success record_failure
  call start others finish result b = elim (state start b) [
    | opened ↦ (err circuit_open, b)
    | _ ↦ settle finish result (others b)
  ]

-- A process in which any number of calls overlap: the breaker, the clock, the calls in flight.
pub record System : Type 0 where
  pub breaker : CircuitBreaker
  pub now : ℕ
  pub in_flight : ℕ
