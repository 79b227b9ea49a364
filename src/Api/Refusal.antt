-- ===== src/Api/Refusal.antt =====
-- What an upload that `extract` of app/api/routers/extract.py refuses leaves behind.
use ocr_service.Prelude.{String, ℕ, ◌≡◌, refl, List, arith, inl, inr, nat_eq}
use ocr_service.Prelude.Outcome.{Outcome, ok, err, Outcome-cases}
use ocr_service.RateLimit.{Inflight, inflight, acquire, release}
use ocr_service.RateLimit.Counting.{slot_laws}
use ocr_service.Ingest.{Settings, create_document}
use ocr_service.Runner.Process.{Process}
use ocr_service.Api.{HttpError}
use ocr_service.Api.Extract.{Upload, extract, get_tenant, queue_size}

-- A slot that is taken and released leaves every count as it was.
pub release-acquire :
    (tid limit other : ℕ) (slots taken : Inflight)
    → acquire tid limit slots ≡ ok taken
    → inflight other (release tid taken) ≡ inflight other slots
release-acquire tid limit other slots taken h = grind slot_laws

module _ {F : Type 0} where
  -- The process is as it was, up to the order of the counts.
  pub record Restored (p q : Process F) : Type 0 where
    pub db : q.db ≡ p.db
    pub running : q.running ≡ p.running
    pub slots : (tenant : ℕ) → inflight tenant q.slots ≡ inflight tenant p.slots

module _ {F : Type 0} (settings : Settings) (save : ℕ → ℕ → List ℕ → Outcome String String) where
  Refused : Process F → Outcome HttpError ℕ × Process F → Type 0
  Refused p (ok id, q) = Unit {0}
  Refused p (err e, q) = Restored p q

  extract-Refused : (u : Upload) (p : Process F) → Refused p (extract settings save u p)
  unfolding extract Refused
  extract-Refused u p =
      elim (Outcome-cases
        (acquire u.tenant (queue_size (get_tenant u.tenant p.db.tenants)) p.slots)) [
          | inr (e, h) ↦ rw (extract, h) (record { db = refl; running = refl; slots = λ t. refl })
          | inl (taken, h) ↦
              (elim (Outcome-cases (
                create_document settings save u.tenant u.schema_name u.file_name u.content
                  u.mime_type u.dry_run p.db)) [
                    | inl ((id, db), c) ↦ rw (extract, h, c) tt
                    | inr (e, c) ↦
                        rw (extract, h, c)
                          (record {
                            db = refl;
                            running = refl;
                            slots = λ t. release-acquire u.tenant _ t p.slots taken h;
                          })
                  ])
        ]

  Refused-err :
      (p : Process F) (e : HttpError) (r : Outcome HttpError ℕ × Process F)
      → Refused p r
      → r.0 ≡ err e
      → Restored p r.1
  unfolding Refused
  Refused-err p e (ok id, q) f h = record {
    db = ground arith;
    running = ground arith;
    slots = λ t. ground arith;
  }
  Refused-err p e (err _, q) f h = f

  -- An upload that is refused, for whatever reason, changes neither the database nor the tasks, and
  -- leaves every tenant with the slots that it held.
  pub extract_refused :
      (u : Upload) (p : Process F) (e : HttpError)
      → (extract settings save u p).0 ≡ err e
      → Restored p (extract settings save u p).1
  extract_refused u p e h = Refused-err p e (extract settings save u p) (extract-Refused u p) h
