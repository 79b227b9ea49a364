-- ===== src/Runner/Outcome.antt =====
-- What `_persist_outcome` of app/worker/runner.py leaves in the database.
use ocr_service.Prelude.{
  ap, sym, ◌∙◌, nat_eq, ℕ, ◌≡◌, refl, Bool, true, false, ◌||◌, some, List, [], ◌∷◌, length,
  contains, arith, length-append,
}
use ocr_service.Prelude.Outcome.{Outcome, ok, err}
use ocr_service.Float.{Float}
use ocr_service.Status.{DocumentStatus}
use ocr_service.Guardrails.{GuardrailOutcome}
use ocr_service.Pipeline.State.{ExtractionState, get_or, over}
use ocr_service.Audit.{append_event}
use ocr_service.Store.{Db, Document, document_row}
use ocr_service.Store.Rows.{get_row, set_row}
use ocr_service.Store.Laws.{KeepsKeys, get-set_row, map_option}
use ocr_service.Runner.Rows.{
  Adds, one_if, is_extracted, is_review, is_dead, Unless, Unless-ok, add_reports-Adds,
  write_rows-Adds,
}
use ocr_service.Runner.Persist.{
  stored_status, rounded, log_outcome, PersistError, Crypto, is_erased, has_result, settle_document,
  add_reports, write_extraction_result, write_rows, write_outcome, persist_outcome,
}

-- The status in which a run leaves its document.
abbrev pub ending : DocumentStatus → DocumentStatus
ending DocumentStatus.completed = DocumentStatus.completed
ending DocumentStatus.review = DocumentStatus.review
ending DocumentStatus.rejected = DocumentStatus.rejected
ending DocumentStatus.cancelled = DocumentStatus.cancelled
ending _ = DocumentStatus.error

stored_status-ending : (st : DocumentStatus) → stored_status st ≡ ending st
stored_status-ending st = ground arith

module _ {F : Type 0} ⦃fl : Float F⦄ where
  -- The document after a run: its status, its routing decision and its confidence.
  abbrev pub ended : ExtractionState F → Document F → Document F
  ended s d = record d {
    status = ending (get_or s.status DocumentStatus.error);
    routing_decision = s.routing_decision;
    confidence_overall = over (rounded s.confidence) d.confidence_overall;
  }

  settle_document-ended : (s : ExtractionState F) (d : Document F) → settle_document s d ≡ ended s d
  settle_document-ended s d =
      ap (λ st. record (ended s d) { status = st })
        (stored_status-ending (get_or s.status DocumentStatus.error))

  settle_document-KeepsKeys : (s : ExtractionState F) → KeepsKeys (settle_document s)
  settle_document-KeepsKeys s = record { id_kept = λ d. refl; tenant_kept = λ d. refl }

  -- A run's rows, by its final status.
  pub Persisted : ℕ → ℕ → ExtractionState F → Db F → Db F → Type 0
  Persisted tenant document_id s db t =
      let st = get_or s.status DocumentStatus.error in
      Adds (one_if (is_extracted st)) (one_if (is_review st)) (one_if (is_dead st))
        (length (get_or s.guardrail_results [])) 1
        (record db { documents = set_row tenant document_id (settle_document s) db.documents }) t

  Adds-log_outcome :
      (x : Crypto) (tenant document_id : ℕ) (s : ExtractionState F) (e v l : ℕ) {g : ℕ}
      (db t : Db F) (o : Outcome PersistError (Db F))
      → Adds 0 0 0 g 0 db t
      → Unless (Adds e v l 0 0 t) o
      → Unless (Adds e v l g 1 db) (log_outcome x tenant document_id s o)
  unfolding append_event
  Adds-log_outcome x tenant document_id s e v l db t (err _) r u = tt
  Adds-log_outcome x tenant document_id s e v l db t (ok w) r u = record {
    documents = u.documents ∙ r.documents;
    results = omega (arith, r.results, u.results);
    reviews = omega (arith, r.reviews, u.reviews);
    letters = omega (arith, r.letters, u.letters);
    reports = omega (arith, r.reports, u.reports);
    audits = omega (arith, r.audits, u.audits, length-append w.audit_log _);
  }

  pub write_outcome-Persisted :
      (x : Crypto) (tenant document_id : ℕ) (s : ExtractionState F) (db t : Db F)
      → write_outcome x tenant document_id s db ≡ ok t
      → Persisted tenant document_id s db t
  unfolding Persisted
  write_outcome-Persisted x tenant document_id s db t h =
      let reports =
        add_reports-Adds tenant document_id (get_or s.guardrail_results [])
          (record db { documents = set_row tenant document_id (settle_document s) db.documents }) in
      let before =
        add_reports tenant document_id (get_or s.guardrail_results [])
          (record db { documents = set_row tenant document_id (settle_document s) db.documents }) in
      let rows =
        write_rows-Adds x (get_or s.status DocumentStatus.error) tenant document_id s before in
      Unless-ok (Persisted tenant document_id s db) (write_outcome x tenant document_id s db) t
        (Adds-log_outcome x tenant document_id s _ _ _ _ before _ reports rows) h

  abbrev pub is_saved : Outcome PersistError (Db F) → Bool
  is_saved (ok t) = true
  is_saved (err e) = false

  is_saved-log_outcome :
      (x : Crypto) (tenant document_id : ℕ) (s : ExtractionState F)
      (o : Outcome PersistError (Db F))
      → is_saved (log_outcome x tenant document_id s o) ≡ is_saved o
  is_saved-log_outcome x tenant document_id s (ok t) = refl
  is_saved-log_outcome x tenant document_id s (err e) = refl

  is_saved-write_rows_duplicate :
      (x : Crypto) (st : DocumentStatus) (tenant document_id : ℕ) (s : ExtractionState F)
      (db : Db F)
      → is_extracted st ≡ true
      → has_result document_id db ≡ true
      → is_saved (write_rows x st tenant document_id s db) ≡ false
  unfolding write_extraction_result
  is_saved-write_rows_duplicate x st tenant document_id s db h dup = ground arith

  pub has_result-add_reports :
      (tenant document_id : ℕ) (os : List (GuardrailOutcome F)) (db : Db F)
      → has_result document_id (add_reports tenant document_id os db) ≡ has_result document_id db
  has_result-add_reports tenant document_id [] db = refl
  has_result-add_reports tenant document_id (o ∷ os) db =
      has_result-add_reports tenant document_id os _

  write_outcome_duplicate :
      (x : Crypto) (tenant document_id : ℕ) (s : ExtractionState F) (db : Db F)
      → is_extracted (get_or s.status DocumentStatus.error) ≡ true
      → has_result document_id db ≡ true
      → is_saved (write_outcome x tenant document_id s db) ≡ false
  write_outcome_duplicate x tenant document_id s db st dup =
      is_saved-log_outcome x tenant document_id s _
      ∙ is_saved-write_rows_duplicate x (get_or s.status DocumentStatus.error) tenant document_id s
          _ st (has_result-add_reports tenant document_id (get_or s.guardrail_results []) _ ∙ dup)

  module _ (x : Crypto) (cancelled : List ℕ) (tenant document_id : ℕ) (s : ExtractionState F) where
    -- Once erasure has begun, by the mark on the document or in the registry, an outcome that is
    -- persisted changes nothing.
    pub persist_erased :
        (db : Db F) (d : Document F)
        → get_row tenant document_id db.documents ≡ some d
        → (is_erased d.status || contains document_id cancelled) ≡ true
        → persist_outcome x cancelled tenant document_id s db ≡ ok db
    unfolding persist_outcome
    persist_erased db d found h = rw (persist_outcome, found, h) refl

    pub persist_result :
        (db : Db F) (d : Document F)
        → get_row tenant document_id db.documents ≡ some d
        → (is_erased d.status || contains document_id cancelled) ≡ false
        → persist_outcome x cancelled tenant document_id s db
          ≡ write_outcome x tenant document_id s db
    unfolding persist_outcome
    persist_result db d found h = rw (persist_outcome, found, h) refl

    -- A saved outcome of a document that is not erased adds one extraction result where the final
    -- status is completed or review, one review task where it is review, one dead letter where it is
    -- rejected or error, one report for each guardrail result, and one line of the audit. The
    -- document gets the final status, or error if a run cannot end in it, with the routing decision
    -- and the confidence of the run, if there is one, to three decimals.
    pub persist_tallies :
        (db t : Db F) (d : Document F)
        → get_row tenant document_id db.documents ≡ some d
        → (is_erased d.status || contains document_id cancelled) ≡ false
        → persist_outcome x cancelled tenant document_id s db ≡ ok t
        → Persisted tenant document_id s db t
          × (get_row tenant document_id t.documents ≡ some (ended s d))
    unfolding Persisted
    persist_tallies db t d found h saved =
        let tallies =
          write_outcome-Persisted x tenant document_id s db t
            (sym (persist_result db d found h) ∙ saved) in
        (
          tallies,
          ap (get_row tenant document_id) tallies.documents
              ∙ get-set_row tenant document_id (settle_document s) db.documents
                  (settle_document-KeepsKeys s)
              ∙ ap (map_option (settle_document s)) found
              ∙ ap some (settle_document-ended s d),
        )

    -- A run that completes, or goes to review, for a document that has an extraction result from an
    -- earlier run is rolled back as a whole.
    pub persist_duplicate :
        (db : Db F) (d : Document F)
        → get_row tenant document_id db.documents ≡ some d
        → (is_erased d.status || contains document_id cancelled) ≡ false
        → is_extracted (get_or s.status DocumentStatus.error) ≡ true
        → has_result document_id db ≡ true
        → is_saved (persist_outcome x cancelled tenant document_id s db) ≡ false
    unfolding persist_outcome
    persist_duplicate db d found h st dup =
        rw (persist_outcome, found, h) (write_outcome_duplicate x tenant document_id s db st dup)
