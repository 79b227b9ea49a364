-- ===== src/Api/Queue.antt =====
-- The life of a process: uploads, retries from the dead-letter queue, and runs that end, in any
-- order, and what it means for the limit of app/services/rate_limit.py.
use ocr_service.Prelude.{
  String, ℕ, suc, ◌+◌, ◌≤◌, ◌≡◌, true, false, List, [], arith, Option-cases, inl, inr,
}
use ocr_service.Prelude.Outcome.{Outcome, ok, err, Outcome-cases}
use ocr_service.Float.{Float}
use ocr_service.Pipeline.State.{ExtractionState}
use ocr_service.Pipeline.Nodes.{Services}
use ocr_service.Store.{DeadLetter, dlq_row}
use ocr_service.Store.Rows.{get_row}
use ocr_service.Status.{DlqStatus}
use ocr_service.RateLimit.{inflight, acquire}
use ocr_service.RateLimit.Counting.{inflight-acquire}
use ocr_service.Ingest.{Settings, create_document}
use ocr_service.Runner.Persist.{Crypto}
use ocr_service.Runner.Process.{Process, process, run_pipeline}
use ocr_service.Api.{HttpError}
use ocr_service.Api.Extract.{Upload, extract, get_tenant, queue_size}
use ocr_service.Api.Dlq.{retry_dlq, retry_entry}
use ocr_service.Api.Slots.{
  Balanced-bound, Balanced-start, Balanced-weaken, Balanced-weaken, runs, is_running, Balanced,
  Balanced-take, Balanced-give_back, Balanced-extra, Balanced-end,
}

module _ {F : Type 0} ⦃fl : Float F⦄ (svc : Services F) (x : Crypto)
    (checkpoint : ℕ → ExtractionState F) (settings : Settings)
    (save : ℕ → ℕ → List ℕ → Outcome String String) where
  -- The processes that a fresh one becomes, with the number of retries on the way.
  pub data Reach : ℕ → Process F → Type 0 where
    start : (p : Process F) → p.slots ≡ [] → p.running ≡ [] → Reach 0 p
    upload :
        (n : ℕ) (p : Process F) (u : Upload) → Reach n p → Reach n ((extract settings save u p).1)
    retry :
        (n tenant dlq_id : ℕ) (p : Process F)
        → Reach n p
        → Reach (suc n) ((retry_dlq tenant dlq_id p).1)
    end :
        (n document_id tenant : ℕ) (p : Process F)
        → is_running document_id tenant p.running ≡ true
        → Reach n p
        → Reach n (run_pipeline svc x checkpoint document_id tenant p)

  extract-Balanced :
      (n : ℕ) (u : Upload) (p : Process F)
      → Balanced n p.slots p.running
      → let q = (extract settings save u p).1 in Balanced n q.slots q.running
  unfolding extract
  extract-Balanced n u p b =
      elim (Outcome-cases
        (acquire u.tenant (queue_size (get_tenant u.tenant p.db.tenants)) p.slots)) [
          | inr (e, h) ↦ rw (extract, h) b
          | inl (taken, h) ↦
              (elim (Outcome-cases (
                create_document settings save u.tenant u.schema_name u.file_name u.content
                  u.mime_type u.dry_run p.db)) [
                    | inl ((id, db), c) ↦
                        rw (extract, h, c)
                          (Balanced-take n _ id u.tenant p.slots taken p.running h b)
                    | inr (e, c) ↦
                        rw (extract, h, c)
                          (Balanced-give_back n _ u.tenant p.slots taken p.running h b)
                  ])
        ]

  retry_entry-Balanced :
      (n tenant : ℕ) (e : DeadLetter F) (status : DlqStatus) (p : Process F)
      → Balanced n p.slots p.running
      → let q = (retry_entry tenant e status p).1 in Balanced (suc n) q.slots q.running
  retry_entry-Balanced n tenant e DlqStatus.pending p b =
      Balanced-extra n e.document_id e.tenant_id p.slots p.running b
  retry_entry-Balanced n tenant e DlqStatus.retrying p b = Balanced-weaken n p.slots p.running b
  retry_entry-Balanced n tenant e DlqStatus.resolved p b = Balanced-weaken n p.slots p.running b
  retry_entry-Balanced n tenant e DlqStatus.expired p b = Balanced-weaken n p.slots p.running b

  retry_dlq-Balanced :
      (n tenant dlq_id : ℕ) (p : Process F)
      → Balanced n p.slots p.running
      → let q = (retry_dlq tenant dlq_id p).1 in Balanced (suc n) q.slots q.running
  unfolding retry_dlq
  retry_dlq-Balanced n tenant dlq_id p b = elim (Option-cases (get_row tenant dlq_id p.db.dlq)) [
    | inl h ↦ rw (retry_dlq, h) (Balanced-weaken n p.slots p.running b)
    | inr (e, h) ↦ rw (retry_dlq, h) (retry_entry-Balanced n tenant e e.status p b)
  ]

  run_pipeline-Balanced :
      (n document_id tenant : ℕ) (p : Process F)
      → is_running document_id tenant p.running ≡ true
      → Balanced n p.slots p.running
      → let q = run_pipeline svc x checkpoint document_id tenant p in Balanced n q.slots q.running
  unfolding run_pipeline
  run_pipeline-Balanced n document_id tenant p h b =
      elim (Outcome-cases (process svc x checkpoint p.cancelled document_id tenant p.db)) [
        | inl ((true, db), c) ↦
            rw (run_pipeline, c) (Balanced-end n document_id tenant p.slots p.running h b)
        | inl ((false, db), c) ↦
            rw (run_pipeline, c) (Balanced-end n document_id tenant p.slots p.running h b)
        | inr (e, c) ↦
            rw (run_pipeline, c) (Balanced-end n document_id tenant p.slots p.running h b)
      ]

  -- However uploads, retries from the dead-letter queue and ends of runs follow each other, no tenant
  -- holds more slots than it has runs, and at most as many of its runs are without a slot as there
  -- were retries.
  pub Reach-Balanced : {n : ℕ} {p : Process F} → Reach n p → Balanced n p.slots p.running
  Reach-Balanced (start q s r) = rw (s, r) Balanced-start
  Reach-Balanced (upload n q u h) = extract-Balanced n u q (Reach-Balanced h)
  Reach-Balanced (retry m tenant dlq_id q h) =
      retry_dlq-Balanced m tenant dlq_id q (Reach-Balanced h)
  Reach-Balanced (end n document_id tenant q i h) =
      run_pipeline-Balanced n document_id tenant q i (Reach-Balanced h)

  -- Where the answer accepts an upload, the tenant is within its limit.
  Within : ℕ → ℕ → Outcome HttpError ℕ × Process F → Type 0
  Within tenant limit (ok id, q) = inflight tenant q.slots ≤ limit
  Within tenant limit (err e, q) = Unit {0}

  extract-Within :
      (u : Upload) (p : Process F)
      → Within u.tenant (queue_size (get_tenant u.tenant p.db.tenants)) (extract settings save u p)
  unfolding extract Within
  extract-Within u p =
      elim (Outcome-cases
        (acquire u.tenant (queue_size (get_tenant u.tenant p.db.tenants)) p.slots)) [
          | inr (e, h) ↦ rw (extract, h) tt
          | inl (taken, h) ↦
              (elim (Outcome-cases (
                create_document settings save u.tenant u.schema_name u.file_name u.content
                  u.mime_type u.dry_run p.db)) [
                    | inl ((id, db), c) ↦
                        rw (extract, h, c) ((inflight-acquire u.tenant _ p.slots taken h).1)
                    | inr (e, c) ↦ rw (extract, h, c) tt
                  ])
        ]

  Within-ok :
      (tenant limit id : ℕ) (r : Outcome HttpError ℕ × Process F)
      → Within tenant limit r
      → r.0 ≡ ok id
      → inflight tenant r.1.slots ≤ limit
  unfolding Within
  Within-ok tenant limit id (ok _, q) w h = w
  Within-ok tenant limit id (err e, q) w h = ground arith

  -- An upload that is accepted leaves its tenant with at most `max_queue_size` runs, and as many
  -- more as there were retries from the dead-letter queue.
  pub accepted_within_limit :
      (n : ℕ) (u : Upload) (p : Process F) (id : ℕ)
      → Reach n p
      → (extract settings save u p).0 ≡ ok id
      → runs u.tenant (extract settings save u p).1.running
        ≤ queue_size (get_tenant u.tenant p.db.tenants) + n
  accepted_within_limit n u p id r a = omega (
    arith,
    Balanced-bound n u.tenant _ _ (extract-Balanced n u p (Reach-Balanced r)),
    Within-ok u.tenant _ id (extract settings save u p) (extract-Within u p) a,
  )
