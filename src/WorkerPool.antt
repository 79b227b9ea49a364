-- ===== src/WorkerPool.antt =====
-- `WorkerPool` of app/worker/pool.py. The semaphores that the pool has made are numbered: `slots` is
-- the size of each, and `held` how many jobs are inside. A dict is a function.
pub mod Bound
use ocr_service.Prelude.{
  ℕ, zero, suc, ◌-◌, Option, none, some, Bool, ◌==◌, nat_eq, if◌then◌else◌, ltb,
}
use ocr_service.Prelude.Outcome.{Outcome, ok, err}

pub data LimitError : Type 0 where
  limit_below_one : LimitError

pub record WorkerPool : Type 0 where
  pub default : ℕ
  pub limits : ℕ → Option ℕ
  pub semaphores : ℕ → Option ℕ
  pub slots : ℕ → ℕ
  pub held : ℕ → ℕ
  pub next : ℕ

-- `d[k] = v`
abbrev pub assign : {A : Type 0} → (ℕ → A) → ℕ → A → ℕ → A
assign d k v j = if j == k then v else d j

abbrev pub limit_for : ℕ → WorkerPool → ℕ
limit_for tid pool = elim (pool.limits tid) [ some limit ↦ limit | none ↦ pool.default ]

-- `_semaphore_for`: the tenant's semaphore, and the pool, with a new semaphore if there is none.
unfoldable pub semaphore_for : ℕ → WorkerPool → ℕ × WorkerPool
semaphore_for tid pool = elim (pool.semaphores tid) [
  | some sem ↦ (sem, pool)
  | none ↦ (
    pool.next,
    record pool {
      semaphores = assign pool.semaphores tid (some pool.next);
      slots = assign pool.slots pool.next (limit_for tid pool);
      held = assign pool.held pool.next 0;
      next = suc pool.next;
    },
  )
]

-- `set_tenant_limit`: the tenant's semaphore is dropped, whoever is inside.
unfoldable pub set_tenant_limit : ℕ → ℕ → WorkerPool → Outcome LimitError WorkerPool
set_tenant_limit tid limit pool =
    if ltb limit 1
    then err limit_below_one
    else ok (record pool {
      limits = assign pool.limits tid (some limit);
      semaphores = assign pool.semaphores tid none;
    })

abbrev pub entered : ℕ → WorkerPool → WorkerPool
entered sem pool = record pool { held = assign pool.held sem (suc (pool.held sem)) }

-- `async with sem`: a job enters if there is a slot, and waits otherwise.
unfoldable pub enter : ℕ → WorkerPool → Option WorkerPool
enter sem pool = if ltb (pool.held sem) (pool.slots sem) then some (entered sem pool) else none

-- The end of a job, whether it returns or raises.
unfoldable pub leave : ℕ → WorkerPool → WorkerPool
leave sem pool = record pool { held = assign pool.held sem (pool.held sem - 1) }
