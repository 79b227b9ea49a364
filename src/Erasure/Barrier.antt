-- ===== src/Erasure/Barrier.antt =====
-- What an erasure leaves, and what a run that is still on its way does after it.
use ocr_service.Prelude.{
  lengths, Option-cases, String, ℕ, suc, ◌≡◌, refl, ap, ◌∙◌, Bool, false, not, ◌&&◌, Option, none,
  some, List, [], ◌∷◌, any, keep, length, contains, arith, ◌==◌, nat_eq, Bool-cases, inl, inr,
}
use ocr_service.Prelude.Outcome.{Outcome, ok}
use ocr_service.Webhook.{Signer, SignedRequest}
use ocr_service.Runner.Webhook.{Labels, deliver_webhook}
use ocr_service.Float.{Float}
use ocr_service.Json.{Dict}
use ocr_service.Audit.{append_event}
use ocr_service.Pipeline.State.{ExtractionState}
use ocr_service.Store.{Db, Document, document_row}
use ocr_service.Store.Rows.{get_row}
use ocr_service.Store.Laws.{KeepsKeys, get-set_row, map_option}
use ocr_service.Runner.Persist.{Crypto, persist_outcome}
use ocr_service.Runner.Outcome.{persist_erased}
use ocr_service.Runner.Process.{Process}
use ocr_service.Erasure.{mark_cancelled, mark, bury, clear, first_step, erase_document}

any-keep-not :
    {A : Type 0} (p : A → Bool) (rows : List A) → any p (keep (λ r. not (p r)) rows) ≡ false
any-keep-not p [] = refl
any-keep-not p (a ∷ rows) = elim (Bool-cases (p a)) [
  | inl h ↦ rw h (any-keep-not p rows)
  | inr h ↦ rw (h, h) (any-keep-not p rows)
]

contains-clear : (id : ℕ) (ids : List ℕ) → contains id (clear id ids) ≡ false
contains-clear id [] = refl
contains-clear id (n ∷ ids) = elim (Bool-cases (n == id)) [
  | inl h ↦ rw h (contains-clear id ids)
  | inr h ↦ rw h (ground (arith, contains-clear id ids))
]

module _ {F : Type 0} ⦃fl : Float F⦄ where
  get_row-keep :
      (tenant document_id : ℕ) (rows : List (Document F))
      → get_row tenant document_id
          (keep (λ d. not (d.tenant_id == tenant && d.id == document_id)) rows)
        ≡ none
  unfolding get_row
  get_row-keep tenant document_id [] = refl
  get_row-keep tenant document_id (d ∷ rows) =
      elim (Bool-cases (d.tenant_id == tenant && d.id == document_id)) [
        | inl h ↦ rw h (get_row-keep tenant document_id rows)
        | inr h ↦ rw (h, h) (get_row-keep tenant document_id rows)
      ]

  mark_cancelled-KeepsKeys : KeepsKeys (mark_cancelled {F = F})
  mark_cancelled-KeepsKeys = record { id_kept = λ d. refl; tenant_kept = λ d. refl }

  -- No row of the document is left, and the audit has one line more.
  pub record Erased (tenant document_id lines : ℕ) (t : Db F) : Type 0 where
    pub document : get_row tenant document_id t.documents ≡ none
    pub results : any (λ r. r.document_id == document_id) t.extraction_results ≡ false
    pub reports : any (λ r. r.document_id == document_id) t.guardrail_reports ≡ false
    pub reviews : any (λ r. r.document_id == document_id) t.review_tasks ≡ false
    pub letters : any (λ r. r.document_id == document_id) t.dlq ≡ false
    pub deliveries : any (λ r. r.document_id == document_id) t.webhook_deliveries ≡ false
    pub audits : length t.audit_log ≡ suc lines

  bury-Erased :
      (digest : Dict → String) (tenant document_id : ℕ) (db : Db F)
      → Erased tenant document_id (length db.audit_log) (bury digest tenant document_id db)
  unfolding bury append_event
  bury-Erased digest tenant document_id db = record {
    document = get_row-keep tenant document_id db.documents;
    results = any-keep-not _ db.extraction_results;
    reports = any-keep-not _ db.guardrail_reports;
    reviews = any-keep-not _ db.review_tasks;
    letters = any-keep-not _ db.dlq;
    deliveries = any-keep-not _ db.webhook_deliveries;
    audits = grind lengths;
  }

  -- Where the checkpoints can be purged, the erasure of a document that the tenant has succeeds: no
  -- row of any table refers to the document but those of the audit, which has one line more, and
  -- the registry has forgotten it.
  pub erase_document-Erased :
      (digest : Dict → String) (tenant document_id : ℕ) (d : Document F) (p : Process F)
      → get_row tenant document_id p.db.documents ≡ some d
      → ((erase_document digest none document_id tenant p).0 ≡ none)
        × (contains document_id (erase_document digest none document_id tenant p).1.cancelled
            ≡ false)
        × Erased tenant document_id
            (length p.db.audit_log)
            (erase_document digest none document_id tenant p).1.db
  unfolding erase_document
  erase_document-Erased digest tenant document_id d p found =
      rw (erase_document, found)
        (
          refl,
          contains-clear document_id _,
          bury-Erased digest tenant document_id (mark tenant document_id p.db),
        )

  -- An outcome that is persisted between the two transactions of an erasure changes nothing.
  pub first_step_stops :
      (x : Crypto) (tenant document_id : ℕ) (s : ExtractionState F) (d : Document F) (p : Process F)
      → get_row tenant document_id p.db.documents ≡ some d
      → let q = first_step tenant document_id p in
        persist_outcome x q.cancelled tenant document_id s q.db ≡ ok q.db
  first_step_stops x tenant document_id s d p found =
      persist_erased x _ tenant document_id s _ (mark_cancelled d)
        (get-set_row tenant document_id mark_cancelled p.db.documents mark_cancelled-KeepsKeys
          ∙ ap (map_option mark_cancelled) found)
        refl

  persist_missing :
      (x : Crypto) (cancelled : List ℕ) (tenant document_id : ℕ) (s : ExtractionState F) (db : Db F)
      → get_row tenant document_id db.documents ≡ none
      → persist_outcome x cancelled tenant document_id s db ≡ ok db
  unfolding persist_outcome
  persist_missing x cancelled tenant document_id s db h = rw (persist_outcome, h) refl

  found_stops :
      (x : Crypto) (digest : Dict → String) (purge : Option String) (tenant document_id : ℕ)
      (s : ExtractionState F) (d : Document F) (p : Process F)
      → get_row tenant document_id p.db.documents ≡ some d
      → let q = (erase_document digest purge document_id tenant p).1 in
        persist_outcome x q.cancelled tenant document_id s q.db ≡ ok q.db
  unfolding erase_document
  found_stops x digest none tenant document_id s d p found =
      rw (erase_document, found)
        (persist_missing x _ tenant document_id s _
          ((bury-Erased digest tenant document_id (mark tenant document_id p.db)).document))
  found_stops x digest (some message) tenant document_id s d p found =
      rw (erase_document, found) (first_step_stops x tenant document_id s d p found)

  persist_stops :
      (x : Crypto) (digest : Dict → String) (purge : Option String) (tenant document_id : ℕ)
      (s : ExtractionState F) (p : Process F)
      → let q = (erase_document digest purge document_id tenant p).1 in
        persist_outcome x q.cancelled tenant document_id s q.db ≡ ok q.db
  unfolding erase_document
  persist_stops x digest purge tenant document_id s p =
      elim (Option-cases (get_row tenant document_id p.db.documents)) [
        | inl h ↦ rw (erase_document, h) (persist_missing x _ tenant document_id s _ h)
        | inr (d, h) ↦ found_stops x digest purge tenant document_id s d p h
      ]

  erased_missing :
      (digest : Dict → String) (tenant document_id : ℕ) (p : Process F)
      → get_row tenant document_id (erase_document digest none document_id tenant p).1.db.documents
        ≡ none
  unfolding erase_document
  erased_missing digest tenant document_id p =
      elim (Option-cases (get_row tenant document_id p.db.documents)) [
        | inl h ↦ rw (erase_document, h) h
        | inr (d, h) ↦
            rw (erase_document, h)
              (bury-Erased digest tenant document_id (mark tenant document_id p.db)).document
      ]

  -- When the outcome of a run is persisted after an erasure of its document, whatever the erasure
  -- raised, the database stays as it is: there was no such document, the checkpoints could not be
  -- purged, or the erasure went through. Where the checkpoints could be purged, a webhook that is
  -- delivered after it, for a run that had completed, finds no document: it posts nothing, and
  -- leaves the database as it is too.
  pub erase_document_stops :
      (x : Crypto) (l : Labels) (signer : Signer)
      (post : String → SignedRequest → ℕ → Outcome String ℕ) (digest : Dict → String)
      (purge : Option String) (tenant document_id : ℕ) (s : ExtractionState F) (p : Process F)
      → let q = (erase_document digest purge document_id tenant p).1 in
        let gone = (erase_document digest none document_id tenant p).1 in
        (persist_outcome x q.cancelled tenant document_id s q.db ≡ ok q.db)
        × (deliver_webhook l signer digest post document_id tenant gone.db ≡ ok (none, gone.db))
  unfolding deliver_webhook
  erase_document_stops x l signer post digest purge tenant document_id s p = (
    persist_stops x digest purge tenant document_id s p,
    rw (deliver_webhook, erased_missing digest tenant document_id p) refl,
  )
