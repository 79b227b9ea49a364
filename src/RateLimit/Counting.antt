-- ===== src/RateLimit/Counting.antt =====
-- How `acquire` and `release` of app/services/rate_limit.py count the slots of each tenant.
use ocr_service.Prelude.{
  nat_eq, inr, inl, ◌==◌, ℕ, ◌+◌, ◌-◌, ◌≤◌, ◌≡◌, ◌≢◌, ◌↔◌, refl, [], ◌∷◌, arith, Bool-cases,
}
use ocr_service.Prelude.Outcome.{ok, err}
use ocr_service.RateLimit.{queue_full, Inflight, inflight, set_slot, pop, acquire, release}

inflight-set_slot : (tid n : ℕ) (slots : Inflight) → inflight tid (set_slot tid n slots) ≡ n
unfolding inflight set_slot
inflight-set_slot tid n [] = ground arith
inflight-set_slot tid n ((key, m) ∷ slots) = ground (arith, inflight-set_slot tid n slots)

inflight-set_slot_ne :
    (tid other n : ℕ) (slots : Inflight)
    → other ≢ tid
    → inflight other (set_slot tid n slots) ≡ inflight other slots
unfolding inflight set_slot
inflight-set_slot_ne tid other n [] ne = ground arith
inflight-set_slot_ne tid other n ((key, m) ∷ slots) ne =
    ground (arith, inflight-set_slot_ne tid other n slots ne)

inflight-pop : (tid : ℕ) (slots : Inflight) → inflight tid (pop tid slots) ≡ 0
unfolding inflight pop
inflight-pop tid [] = refl
inflight-pop tid ((key, m) ∷ slots) = elim (Bool-cases (key == tid)) [
  | inl h ↦ rw h (inflight-pop tid slots)
  | inr h ↦ rw (h, h) (inflight-pop tid slots)
]

inflight-pop_ne :
    (tid other : ℕ) (slots : Inflight)
    → other ≢ tid
    → inflight other (pop tid slots) ≡ inflight other slots
unfolding inflight pop
inflight-pop_ne tid other [] ne = refl
inflight-pop_ne tid other ((key, m) ∷ slots) ne = elim (Bool-cases (key == tid)) [
  | inl h ↦ rw h (ground (arith, inflight-pop_ne tid other slots ne))
  | inr h ↦ rw h (ground (arith, inflight-pop_ne tid other slots ne))
]

-- A release takes one from the tenant's count, and leaves a count of zero alone.
pub inflight-release :
    (tid : ℕ) (slots : Inflight) → inflight tid (release tid slots) ≡ inflight tid slots - 1
unfolding release
inflight-release tid slots =
    ground (arith, inflight-pop tid slots, inflight-set_slot tid (inflight tid slots - 1) slots)

pub inflight-release_ne :
    (tid other : ℕ) (slots : Inflight)
    → other ≢ tid
    → inflight other (release tid slots) ≡ inflight other slots
unfolding release
inflight-release_ne tid other slots ne = ground (
  arith,
  inflight-pop_ne tid other slots ne,
  inflight-set_slot_ne tid other (inflight tid slots - 1) slots ne,
)

-- A slot is refused just when the tenant has reached its limit.
pub acquire-refused_iff :
    (tid limit : ℕ) (slots : Inflight)
    → (acquire tid limit slots ≡ err (queue_full 5)) ↔ (limit ≤ inflight tid slots)
unfolding acquire
acquire-refused_iff tid limit slots = ground arith

pub inflight-acquire :
    (tid limit : ℕ) (slots taken : Inflight)
    → acquire tid limit slots ≡ ok taken
    → (inflight tid taken ≡ inflight tid slots + 1) × (inflight tid taken ≤ limit)
unfolding acquire
inflight-acquire tid limit slots taken h =
    ground (arith, inflight-set_slot tid (inflight tid slots + 1) slots)

pub inflight-acquire_ne :
    (tid other limit : ℕ) (slots taken : Inflight)
    → acquire tid limit slots ≡ ok taken
    → other ≢ tid
    → inflight other taken ≡ inflight other slots
unfolding acquire
inflight-acquire_ne tid other limit slots taken h ne =
    ground (arith, inflight-set_slot_ne tid other (inflight tid slots + 1) slots ne)

pub ruleset slot_laws =
    (arith, inflight-release, inflight-release_ne, inflight-acquire, inflight-acquire_ne)
