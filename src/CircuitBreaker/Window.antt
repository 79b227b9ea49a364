-- ===== src/CircuitBreaker/Window.antt =====
-- The failure list of app/domain/circuit_breaker.py against the whole history of failures.
use ocr_service.Prelude.{
  some, ℕ, ◌≤◌, ◌<◌, ◌≡◌, ◌↔◌, ◌∙◌, refl, Bool, List, [], ◌∷◌, ◌++◌, none, arith, length, keep,
}
use mathlib.Core.List.{append-nil, append_assoc}
use ocr_service.CircuitBreaker.{CircuitBreaker, new, within, record_failure}

-- Failures recorded one after another.
unfoldable pub record_all : List ℕ → CircuitBreaker → CircuitBreaker
record_all [] b = b
record_all (t ∷ ts) b = record_all ts (record_failure t b)

-- Times in the order of a monotonic clock, from `t` on.
abbrev pub IsMonotonic : ℕ → List ℕ → Type 0
IsMonotonic t [] = Unit
IsMonotonic t (u ∷ us) = (t ≤ u) × IsMonotonic u us

-- The last of the times, `t` where there is none.
abbrev pub last : ℕ → List ℕ → ℕ
last t [] = t
last t (u ∷ us) = last u us

-- What an observer of the whole history keeps: the failures close enough to the last one.
abbrev pub recent : ℕ → ℕ → List ℕ → List ℕ
recent window now ts = keep (within now window) ts

-- Pruning at `t` and later at `u` is pruning at `u`.
keep-keep :
    (w t u : ℕ) (xs : List ℕ)
    → t ≤ u
    → keep (within u w) (keep (within t w) xs) ≡ keep (within u w) xs
keep-keep w t u [] h = refl
keep-keep w t u (x ∷ xs) h = ground (arith, keep-keep w t u xs h)

keep-append : (p : ℕ → Bool) (xs ys : List ℕ) → keep p (xs ++ ys) ≡ keep p xs ++ keep p ys
keep-append p [] ys = refl
keep-append p (x ∷ xs) ys = ground (arith, keep-append p xs ys)

window-record_all : (ts : List ℕ) (b : CircuitBreaker) → (record_all ts b).window ≡ b.window
unfolding record_all record_failure
window-record_all [] b = refl
window-record_all (t ∷ ts) b = window-record_all ts (record_failure t b)

threshold-record_all :
    (ts : List ℕ) (b : CircuitBreaker) → (record_all ts b).threshold ≡ b.threshold
unfolding record_all record_failure
threshold-record_all [] b = refl
threshold-record_all (t ∷ ts) b = threshold-record_all ts (record_failure t b)

-- One failure more, when the list is the pruned history.
failures-record_failure :
    (w t u : ℕ) (h : List ℕ) (b : CircuitBreaker)
    → b.window ≡ w
    → 0 < w
    → t ≤ u
    → b.failures ≡ recent w t h
    → (record_failure u b).failures ≡ recent w u (h ++ u ∷ [])
unfolding record_failure
failures-record_failure w t u h b ew pos le e =
    rw (ew, e, keep-keep w t u h le, keep-append (within u w) h (u ∷ [])) (ground arith)

failures-record_all_from :
    (w t : ℕ) (h ts : List ℕ) (b : CircuitBreaker)
    → b.window ≡ w
    → 0 < w
    → IsMonotonic t ts
    → b.failures ≡ recent w t h
    → (record_all ts b).failures ≡ recent w (last t ts) (h ++ ts)
unfolding record_all
failures-record_all_from w t h [] b ew pos m e = rw append-nil e
failures-record_all_from w t h (u ∷ ts) b ew pos m e = rw (← append_assoc h (u ∷ []) ts) (
    failures-record_all_from w u (h ++ u ∷ []) ts (record_failure u b) (unfold record_failure in ew)
      pos m.1 (failures-record_failure w t u h b ew pos m.0 e))

-- For failure times in the order of the clock, and a window that is not empty, the list that a new
-- breaker keeps after them all is the whole history, pruned once at the last time.
pub failures-record_all :
    (threshold window cooldown : ℕ) (ts : List ℕ)
    → 0 < window
    → IsMonotonic 0 ts
    → (record_all ts (new threshold window cooldown)).failures ≡ recent window (last 0 ts) ts
failures-record_all threshold window cooldown ts pos m =
    failures-record_all_from window 0 [] ts (new threshold window cooldown) (unfold new in refl) pos
      m (unfold new in refl)

IsMonotonic-last : (t : ℕ) (ts : List ℕ) (u : ℕ) → IsMonotonic t (ts ++ u ∷ []) → last t ts ≤ u
IsMonotonic-last t [] u m = m.0
IsMonotonic-last t (s ∷ ts) u m = IsMonotonic-last s ts u m.1

IsMonotonic-init : (t : ℕ) (ts : List ℕ) (u : ℕ) → IsMonotonic t (ts ++ u ∷ []) → IsMonotonic t ts
IsMonotonic-init t [] u m = tt
IsMonotonic-init t (s ∷ ts) u m = (m.0, IsMonotonic-init s ts u m.1)

opened-record_failure :
    (threshold u : ℕ) (xs : List ℕ) (b : CircuitBreaker)
    → b.opened_at ≡ none
    → b.threshold ≡ threshold
    → (record_failure u b).failures ≡ xs
    → ((record_failure u b).opened_at ≡ some u) ↔ (threshold ≤ length xs)
unfolding record_failure
opened-record_failure threshold u xs b e et ex = ground arith

-- A breaker that is closed after the failures `ts` opens on the next one, at `u`, exactly when the
-- failures of the whole history that are close enough to `u`, `u` among them, reach the threshold.
pub opens_iff :
    (threshold window cooldown : ℕ) (ts : List ℕ) (u : ℕ)
    → 0 < window
    → IsMonotonic 0 (ts ++ u ∷ [])
    → (record_all ts (new threshold window cooldown)).opened_at ≡ none
    → ((record_failure u (record_all ts (new threshold window cooldown))).opened_at ≡ some u)
      ↔ (threshold ≤ length (recent window u (ts ++ u ∷ [])))
opens_iff threshold window cooldown ts u pos m shut =
    opened-record_failure threshold u (recent window u (ts ++ u ∷ [])) b shut kept counted
  where
    b : CircuitBreaker
    b = record_all ts (new threshold window cooldown)

    kept : b.threshold ≡ threshold
    kept = threshold-record_all ts (new threshold window cooldown) ∙ (unfold new in refl)

    counted : (record_failure u b).failures ≡ recent window u (ts ++ u ∷ [])
    counted =
        failures-record_failure window (last 0 ts) u ts b
          (window-record_all ts (new threshold window cooldown) ∙ (unfold new in refl)) pos
          (IsMonotonic-last 0 ts u m)
          (failures-record_all threshold window cooldown ts pos (IsMonotonic-init 0 ts u m))
