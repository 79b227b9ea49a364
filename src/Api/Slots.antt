-- ===== src/Api/Slots.antt =====
-- The slots of app/services/rate_limit.py against the runs of the process.
use ocr_service.Prelude.{
  ◌&&◌, ℕ, suc, ◌+◌, ◌≤◌, ◌≡◌, Bool, true, false, List, [], ◌∷◌, ◌++◌, ◌==◌, nat_eq, arith,
  if◌then◌else◌, Bool-cases, inl, inr,
}
use ocr_service.Prelude.Outcome.{ok}
use ocr_service.RateLimit.{Inflight, inflight, acquire, release}
use ocr_service.RateLimit.Counting.{slot_laws}
use ocr_service.Runner.Process.{finish}

-- The runs of a tenant among the tasks.
abbrev pub runs : ℕ → List (ℕ × ℕ) → ℕ
runs tenant [] = 0
runs tenant ((d, t) ∷ ts) = let rest = runs tenant ts in if t == tenant then suc rest else rest

abbrev pub is_running : ℕ → ℕ → List (ℕ × ℕ) → Bool
is_running document_id tenant [] = false
is_running document_id tenant ((d, t) ∷ ts) =
    let rest = is_running document_id tenant ts in
    if d == document_id && t == tenant then true else rest

runs-append :
    (tenant d t : ℕ) (ts : List (ℕ × ℕ))
    → runs tenant (ts ++ (d, t) ∷ []) ≡ runs tenant ts + (if t == tenant then 1 else 0)
runs-append tenant d t [] = ground arith
runs-append tenant d t ((e, u) ∷ ts) = ground (arith, runs-append tenant d t ts)

runs-finish :
    (tenant d t : ℕ) (ts : List (ℕ × ℕ))
    → is_running d t ts ≡ true
    → runs tenant (finish d t ts) + (if t == tenant then 1 else 0) ≡ runs tenant ts
runs-finish tenant d t [] h = ground arith
runs-finish tenant d t ((e, u) ∷ ts) h = elim (Bool-cases (e == d && u == t)) [
  | inl k ↦ rw k (ground arith)
  | inr k ↦ rw k (ground (arith, runs-finish tenant d t ts))
]

-- No tenant holds more slots than it has runs, and at most `n` of its runs have no slot.
pub Balanced : ℕ → Inflight → List (ℕ × ℕ) → Type 0
Balanced n slots running =
    (tenant : ℕ)
    → (inflight tenant slots ≤ runs tenant running)
      × (runs tenant running ≤ inflight tenant slots + n)

pub Balanced-take :
    (n limit d t : ℕ) (slots taken : Inflight) (running : List (ℕ × ℕ))
    → acquire t limit slots ≡ ok taken
    → Balanced n slots running
    → Balanced n taken (running ++ (d, t) ∷ [])
unfolding Balanced
Balanced-take n limit d t slots taken running h b tenant =
    grind (slot_laws, b tenant, runs-append tenant d t running)

pub Balanced-give_back :
    (n limit t : ℕ) (slots taken : Inflight) (running : List (ℕ × ℕ))
    → acquire t limit slots ≡ ok taken
    → Balanced n slots running
    → Balanced n (release t taken) running
unfolding Balanced
Balanced-give_back n limit t slots taken running h b tenant = grind (slot_laws, b tenant)

pub Balanced-extra :
    (n d t : ℕ) (slots : Inflight) (running : List (ℕ × ℕ))
    → Balanced n slots running
    → Balanced (suc n) slots (running ++ (d, t) ∷ [])
unfolding Balanced
Balanced-extra n d t slots running b tenant =
    ground (arith, b tenant, runs-append tenant d t running)

pub Balanced-end :
    (n d t : ℕ) (slots : Inflight) (running : List (ℕ × ℕ))
    → is_running d t running ≡ true
    → Balanced n slots running
    → Balanced n (release t slots) (finish d t running)
unfolding Balanced
Balanced-end n d t slots running h b tenant =
    grind (slot_laws, b tenant, runs-finish tenant d t running h)

pub Balanced-weaken :
    (n : ℕ) (slots : Inflight) (running : List (ℕ × ℕ))
    → Balanced n slots running
    → Balanced (suc n) slots running
unfolding Balanced
Balanced-weaken n slots running b tenant = ground (arith, b tenant)

pub Balanced-start : Balanced 0 [] []
unfolding Balanced inflight
Balanced-start tenant = omega arith

pub Balanced-bound :
    (n tenant : ℕ) (slots : Inflight) (running : List (ℕ × ℕ))
    → Balanced n slots running
    → runs tenant running ≤ inflight tenant slots + n
unfolding Balanced
Balanced-bound n tenant slots running b = (b tenant).1
