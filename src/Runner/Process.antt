-- ===== src/Runner/Process.antt =====
-- `enqueue_pipeline`, `run_pipeline` and `_process` of app/worker/runner.py, on the state of the
-- process: the database, the slots of the rate limiter, the tasks that run, and the registry of
-- app/worker/cancellation.py. The checkpointer's saved state of a document, to which LangGraph joins
-- the input of a further run, is a parameter.
use ocr_service.Prelude.{
  ℕ, String, Bool, true, false, ◌&&◌, Option, none, some, List, [], ◌∷◌, ◌++◌, ◌==◌, nat_eq,
  if◌then◌else◌,
}
use ocr_service.Prelude.Outcome.{Outcome, ok, err}
use ocr_service.Status.{DocumentStatus}
use ocr_service.Float.{Float}
use ocr_service.Pipeline.State.{ExtractionState, merge}
use ocr_service.Pipeline.Nodes.{Services}
use ocr_service.Pipeline.Graph.{run_graph}
use ocr_service.RateLimit.{Inflight, release}
use ocr_service.Store.{Db}
use ocr_service.Runner.Persist.{PersistError, Crypto, persist_outcome}
use ocr_service.Runner.Load.{load_initial_state}

-- An exception that leaves `_process`: of a node, or of the transaction.
pub data ProcessError : Type 0 where
  node_failed : String → ProcessError
  persist_failed : PersistError → ProcessError

pub record Process (F : Type 0) : Type 0 where
  pub db : Db F
  pub slots : Inflight
  pub running : List (ℕ × ℕ)
  pub webhooks : List (ℕ × ℕ)
  pub cancelled : List ℕ

-- The first task of a document is done.
abbrev pub finish : ℕ → ℕ → List (ℕ × ℕ) → List (ℕ × ℕ)
finish document_id tenant [] = []
finish document_id tenant ((d, t) ∷ ts) =
    let rest = finish document_id tenant ts in
    if d == document_id && t == tenant then ts else (d, t) ∷ rest

abbrev pub is_completed : Option DocumentStatus → Bool
is_completed (some DocumentStatus.completed) = true
is_completed _ = false

module _ {F : Type 0} where
  abbrev pub enqueue_pipeline : ℕ → ℕ → Process F → Process F
  enqueue_pipeline document_id tenant p = record p {
    running = p.running ++ (document_id, tenant) ∷ [];
  }

  abbrev persisted :
      Option DocumentStatus → Outcome PersistError (Db F) → Outcome ProcessError (Bool × Db F)
  persisted status (ok db) = ok (is_completed status, db)
  persisted status (err e) = err (persist_failed e)

module _ {F : Type 0} ⦃fl : Float F⦄ (svc : Services F) (x : Crypto)
    (checkpoint : ℕ → ExtractionState F) where
  -- `_process`: whether a webhook is scheduled, and the database. Nothing is written before the
  -- outcome is persisted, so an exception leaves the database as it was.
  unfoldable pub process : List ℕ → ℕ → ℕ → Db F → Outcome ProcessError (Bool × Db F)
  unfolding load_initial_state run_graph persist_outcome
  process cancelled document_id tenant db = elim (load_initial_state document_id tenant db) [
    | none ↦ ok (false, db)
    | some initial ↦ elim (run_graph svc (merge (checkpoint document_id) initial)) [
      | err message ↦ err (node_failed message)
      | ok (_, final) ↦
          persisted final.status (persist_outcome x cancelled tenant document_id final db)
    ]
  ]

  abbrev pub settle_run : ℕ → ℕ → Process F → Outcome ProcessError (Bool × Db F) → Process F
  settle_run document_id tenant p (ok (true, db)) = record p {
    db = db;
    webhooks = p.webhooks ++ (document_id, tenant) ∷ [];
  }
  settle_run document_id tenant p (ok (false, db)) = record p { db = db }
  settle_run document_id tenant p (err e) = p

  -- `run_pipeline`, to its end: the slot is released whether the run returns or raises.
  unfoldable pub run_pipeline : ℕ → ℕ → Process F → Process F
  unfolding process release
  run_pipeline document_id tenant p =
      let q = settle_run document_id tenant p (process p.cancelled document_id tenant p.db) in
      record q { slots = release tenant q.slots; running = finish document_id tenant q.running }
