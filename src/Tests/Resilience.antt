-- ===== src/Tests/Resilience.antt =====
-- The circuit breaker of app/domain/circuit_breaker.py at work.
use ocr_service.Prelude.{none, ℕ, ◌≡◌, refl, ◌↔◌, ◌≤◌, some, List, [], ◌∷◌, arith, length, ◌++◌}
use ocr_service.WorkerPool.{WorkerPool, entered, enter, semaphore_for, limit_for}
use ocr_service.WorkerPool.Bound.{jobs_of, jobs_within_limit, go, ask, start as fresh_pool}
use ocr_service.CircuitBreaker.{
  CircuitBreaker, System, opened, half_open, new, state, record_failure,
}
use ocr_service.CircuitBreaker.Window.{record_all, recent, opens_iff}
use ocr_service.CircuitBreaker.Safety.{
  Step, Reach, Drought, IsValid, IsValid-start, start, Reach-IsValid, state-Drought,
}

abbrev times : List ℕ
times = 1 ∷ 5 ∷ 70 ∷ 90 ∷ []

opens_iff_example :
    ((record_failure 95 (record_all times (new 3 60 60))).opened_at ≡ some 95)
    ↔ (3 ≤ length (recent 60 95 (times ++ 95 ∷ [])))
unfolding record_all record_failure new
opens_iff_example = opens_iff 3 60 60 times 95 (omega arith) (omega arith) refl

-- A single failure opens a breaker with threshold 1.
tripped : CircuitBreaker
tripped = record_failure 10 (new 1 60 60)

tripped-state : state 20 tripped ≡ opened
unfolding tripped state record_failure new
tripped-state = refl

abbrev broken : System
broken = record { breaker = record_failure 0 (new 1 60 60); now = 0; in_flight = 0 }

Reach-IsValid_example : IsValid broken
unfolding record_failure new state
Reach-IsValid_example = Reach-IsValid (IsValid-start 1 60 60 (omega arith)) (
    Reach.next (Reach.next Reach.here (Step.admit (start 1 60 60) (λ e. cc)))
      (Step.fail (record (start 1 60 60) { in_flight = 1 }) (omega arith)))

state-Drought_example : state 70 broken.breaker ≡ half_open
unfolding record_failure new
state-Drought_example =
    state-Drought {at = 0} {s = broken} {t = record broken { now = 70 }} refl
      (Drought.next Drought.here (Step.tick broken 70) tt)

abbrev new_pool : WorkerPool
new_pool = record {
  default = 2;
  limits = λ tid. none;
  semaphores = λ tid. none;
  slots = λ sem. 0;
  held = λ sem. 0;
  next = 0;
}

abbrev asked : WorkerPool
asked = (semaphore_for 7 new_pool).1

asked-enter : enter 0 asked ≡ some (entered 0 asked)
unfolding enter semaphore_for
asked-enter = refl

asked_own : asked.semaphores 7 ≡ some 0
unfolding semaphore_for
asked_own = refl

jobs_within_limit_example : jobs_of 7 ((7, 0) ∷ []) ≤ limit_for 7 (entered 0 asked)
jobs_within_limit_example =
    jobs_within_limit (entered 0 asked) ((7, 0) ∷ []) 7
      (go 7 0 asked_own asked-enter (ask 7 (fresh_pool new_pool (λ tid. refl) refl)))
