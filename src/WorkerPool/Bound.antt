-- ===== src/WorkerPool/Bound.antt =====
-- The jobs of each tenant at one time, in app/worker/pool.py, while its limit is not changed.
use ocr_service.Prelude.{
  refl, ltb→lt, ltb, ltb, Bool-cases, false, ◌+◌, Bool, true, ◌&&◌, ℕ, suc, ◌≤◌, ◌<◌, ◌≡◌, none,
  some, List, [], ◌∷◌, ◌==◌, nat_eq, arith, if◌then◌else◌, Option-cases, inl, inr,
}
use ocr_service.Store.Laws.{some_injective}
use ocr_service.WorkerPool.{entered, leave, enter, WorkerPool, limit_for, semaphore_for}

-- The jobs inside: each with its tenant and the semaphore that it holds.
abbrev pub jobs_of : ℕ → List (ℕ × ℕ) → ℕ
jobs_of tid [] = 0
jobs_of tid ((t, s) ∷ jobs) = let rest = jobs_of tid jobs in if t == tid then suc rest else rest

-- A job of the tenant that holds the semaphore is inside.
abbrev pub is_inside : ℕ → ℕ → List (ℕ × ℕ) → Bool
is_inside tid sem [] = false
is_inside tid sem ((t, s) ∷ jobs) =
    let rest = is_inside tid sem jobs in if t == tid && s == sem then true else rest

-- One such job is gone.
abbrev pub drop_job : ℕ → ℕ → List (ℕ × ℕ) → List (ℕ × ℕ)
drop_job tid sem [] = []
drop_job tid sem ((t, s) ∷ jobs) =
    let rest = drop_job tid sem jobs in if t == tid && s == sem then jobs else (t, s) ∷ rest

jobs_of-drop_job :
    (tid sem other : ℕ) (jobs : List (ℕ × ℕ))
    → is_inside tid sem jobs ≡ true
    → jobs_of other (drop_job tid sem jobs) + (if tid == other then 1 else 0) ≡ jobs_of other jobs
jobs_of-drop_job tid sem other [] h = ground arith
jobs_of-drop_job tid sem other ((t, s) ∷ jobs) h = elim (Bool-cases (t == tid && s == sem)) [
  | inl k ↦ rw k (ground arith)
  | inr k ↦ rw k (ground (arith, jobs_of-drop_job tid sem other jobs))
]

is_inside-drop_job :
    (tid sem t s : ℕ) (jobs : List (ℕ × ℕ))
    → is_inside t s (drop_job tid sem jobs) ≡ true
    → is_inside t s jobs ≡ true
is_inside-drop_job tid sem t s [] h = h
is_inside-drop_job tid sem t s ((u, v) ∷ jobs) h = elim (Bool-cases (u == tid && v == sem)) [
  | inl k ↦ ground (arith, rw k at h)
  | inr k ↦ ground (arith, rw k at h, is_inside-drop_job tid sem t s jobs)
]

pub record IsBounded (pool : WorkerPool) (jobs : List (ℕ × ℕ)) : Type 0 where
  pub counted : (tid sem : ℕ) → pool.semaphores tid ≡ some sem → jobs_of tid jobs ≡ pool.held sem
  pub absent : (tid : ℕ) → pool.semaphores tid ≡ none → jobs_of tid jobs ≡ 0
  pub within : (sem : ℕ) → sem < pool.next → pool.held sem ≤ pool.slots sem
  pub old : (tid sem : ℕ) → pool.semaphores tid ≡ some sem → sem < pool.next
  pub single :
      (tid other sem : ℕ)
      → pool.semaphores tid ≡ some sem
      → pool.semaphores other ≡ some sem
      → tid ≡ other
  pub sized : (tid sem : ℕ) → pool.semaphores tid ≡ some sem → pool.slots sem ≡ limit_for tid pool
  pub holds : (tid sem : ℕ) → is_inside tid sem jobs ≡ true → pool.semaphores tid ≡ some sem

semaphore_for-IsBounded :
    (tid : ℕ) (pool : WorkerPool) (jobs : List (ℕ × ℕ))
    → IsBounded pool jobs
    → IsBounded (semaphore_for tid pool).1 jobs
unfolding semaphore_for
semaphore_for-IsBounded tid pool jobs b = elim (Option-cases (pool.semaphores tid)) [
  | inr (s, h) ↦ rw (semaphore_for, h) b
  | inl h ↦
      rw (semaphore_for, h)
        (record {
          counted = λ t s e. ground (arith, b.counted t s, b.old t s, b.absent t);
          absent = λ t e. ground (arith, b.absent t);
          within = λ s e. ground (arith, b.within s);
          old = λ t s e. ground (arith, b.old t s);
          single = λ t o s e f. ground (arith, b.single t o s, b.old t s, b.old o s);
          sized = λ t s e. ground (arith, b.sized t s, b.old t s);
          holds = λ t s e. ground (arith, b.holds t s e);
        })
]

entered-IsBounded :
    (tid sem : ℕ) (pool : WorkerPool) (jobs : List (ℕ × ℕ))
    → pool.semaphores tid ≡ some sem
    → pool.held sem < pool.slots sem
    → IsBounded pool jobs
    → IsBounded (entered sem pool) ((tid, sem) ∷ jobs)
entered-IsBounded tid sem pool jobs own room b = record {
  counted = λ t s e. ground (arith, b.counted t s e, b.counted tid sem own, b.single tid t sem own);
  absent = λ t e. ground (arith, b.absent t e);
  within = λ s e. ground (arith, b.within s e);
  old = b.old;
  single = b.single;
  sized = b.sized;
  holds = λ t s e. ground (arith, b.holds t s);
}

enter-IsBounded :
    (tid sem : ℕ) (pool q : WorkerPool) (jobs : List (ℕ × ℕ))
    → pool.semaphores tid ≡ some sem
    → enter sem pool ≡ some q
    → IsBounded pool jobs
    → IsBounded q ((tid, sem) ∷ jobs)
unfolding enter
enter-IsBounded tid sem pool q jobs own h b =
    elim (Bool-cases (ltb (pool.held sem) (pool.slots sem))) [
      | inr k ↦ absurd (ground (arith, h, k))
      | inl k ↦
          let same : entered sem pool ≡ q = some_injective (rw (enter, k) at h) in
          rw same at (entered-IsBounded tid sem pool jobs own (ltb→lt _ _ k) b)
    ]

leave-IsBounded :
    (tid sem : ℕ) (pool : WorkerPool) (jobs : List (ℕ × ℕ))
    → is_inside tid sem jobs ≡ true
    → IsBounded pool jobs
    → IsBounded (leave sem pool) (drop_job tid sem jobs)
unfolding leave
leave-IsBounded tid sem pool jobs h b =
    let own = b.holds tid sem h in
    record {
      counted = λ t s e. ground (
        arith,
        b.counted t s e,
        b.counted tid sem own,
        b.single tid t sem own,
        jobs_of-drop_job tid sem t jobs h,
      );
      absent = λ t e. ground (arith, b.absent t e, jobs_of-drop_job tid sem t jobs h);
      within = λ s e. ground (arith, b.within s e);
      old = b.old;
      single = b.single;
      sized = b.sized;
      holds = λ t s e. b.holds t s (is_inside-drop_job tid sem t s jobs e);
    }

-- The pools that a new one becomes, with the jobs inside: a job asks for its tenant's semaphore,
-- enters, and leaves.
pub data Reach : WorkerPool → List (ℕ × ℕ) → Type 0 where
  start :
      (pool : WorkerPool) → ((tid : ℕ) → pool.semaphores tid ≡ none) → pool.next ≡ 0 → Reach pool []
  ask :
      (tid : ℕ) {pool : WorkerPool} {jobs : List (ℕ × ℕ)}
      → Reach pool jobs
      → Reach (semaphore_for tid pool).1 jobs
  go :
      (tid sem : ℕ) {pool q : WorkerPool} {jobs : List (ℕ × ℕ)}
      → pool.semaphores tid ≡ some sem
      → enter sem pool ≡ some q
      → Reach pool jobs
      → Reach q ((tid, sem) ∷ jobs)
  done :
      (tid sem : ℕ) {pool : WorkerPool} {jobs : List (ℕ × ℕ)}
      → is_inside tid sem jobs ≡ true
      → Reach pool jobs
      → Reach (leave sem pool) (drop_job tid sem jobs)

start-IsBounded :
    (pool : WorkerPool)
    → ((tid : ℕ) → pool.semaphores tid ≡ none)
    → pool.next ≡ 0
    → IsBounded pool []
start-IsBounded pool fresh zero_next = record {
  counted = λ t s e. absurd (ground (arith, fresh t));
  absent = λ t e. refl;
  within = λ s e. absurd (omega (arith, e, zero_next));
  old = λ t s e. absurd (ground (arith, fresh t));
  single = λ t o s e f. absurd (ground (arith, fresh t));
  sized = λ t s e. absurd (ground (arith, fresh t));
  holds = λ t s e. absurd (ground arith);
}

Reach-IsBounded : {pool : WorkerPool} {jobs : List (ℕ × ℕ)} → Reach pool jobs → IsBounded pool jobs
Reach-IsBounded (start pool fresh zero_next) = start-IsBounded pool fresh zero_next
Reach-IsBounded (ask tid {pool} {jobs} r) =
    semaphore_for-IsBounded tid pool jobs (Reach-IsBounded r)
Reach-IsBounded (go tid sem {pool} {q} {jobs} own h r) =
    enter-IsBounded tid sem pool q jobs own h (Reach-IsBounded r)
Reach-IsBounded (done tid sem {pool} {jobs} h r) =
    leave-IsBounded tid sem pool jobs h (Reach-IsBounded r)

-- While no limit is changed, no tenant has more jobs inside than its limit, however the jobs of
-- all tenants come and go.
pub jobs_within_limit :
    (pool : WorkerPool) (jobs : List (ℕ × ℕ)) (tid : ℕ)
    → Reach pool jobs
    → jobs_of tid jobs ≤ limit_for tid pool
jobs_within_limit pool jobs tid r =
    let b = Reach-IsBounded r in
    elim (Option-cases (pool.semaphores tid)) [
      | inl h ↦ omega (arith, b.absent tid h)
      | inr (s, h) ↦ omega (arith, b.counted tid s h, b.within s (b.old tid s h), b.sized tid s h)
    ]
