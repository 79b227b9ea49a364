-- ===== src/RateLimit.antt =====
-- `TenantRateLimiter` of app/services/rate_limit.py. `_inflight` is the list of its items, oldest
-- first; the lock makes each operation one step.
pub mod Counting
use ocr_service.Prelude.{
  ℕ, suc, ◌+◌, ◌-◌, Bool, not, List, [], ◌∷◌, ◌==◌, nat_eq, keep, leb, if◌then◌else◌,
}
use ocr_service.Prelude.Outcome.{Outcome, ok, err}

pub data QueueFullError : Type 0 where
  queue_full : ℕ → QueueFullError

abbrev pub Inflight : Type 0
Inflight = List (ℕ × ℕ)

-- `inflight`, which is also the `get(tid, 0)` of the other methods
unfoldable pub inflight : ℕ → Inflight → ℕ
inflight tid [] = 0
inflight tid ((key, n) ∷ slots) = if key == tid then n else inflight tid slots

-- `self._inflight[tid] = n`
unfoldable pub set_slot : ℕ → ℕ → Inflight → Inflight
set_slot tid n [] = (tid, n) ∷ []
set_slot tid n ((key, m) ∷ slots) =
    let rest = set_slot tid n slots in if key == tid then (key, n) ∷ slots else (key, m) ∷ rest

-- `self._inflight.pop(tid, None)`
unfoldable pub pop : ℕ → Inflight → Inflight
pop tid [] = []
pop tid ((key, m) ∷ slots) =
    let rest = pop tid slots in if key == tid then rest else (key, m) ∷ rest

unfoldable pub acquire : ℕ → ℕ → Inflight → Outcome QueueFullError Inflight
unfolding inflight set_slot
acquire tid limit slots =
    let current = inflight tid slots in
    if leb limit current then err (queue_full 5) else ok (set_slot tid (current + 1) slots)

unfoldable pub release : ℕ → Inflight → Inflight
unfolding inflight set_slot pop
release tid slots =
    let current = inflight tid slots in
    if leb current 1 then pop tid slots else set_slot tid (current - 1) slots
