-- ===== src/Runner/Rows.antt =====
-- How many rows each step of `_persist_outcome` of app/worker/runner.py adds to each table.
use ocr_service.Prelude.{
  nat_eq, ℕ, suc, ◌+◌, ◌≡◌, inl, inr, refl, Bool, true, false, List, [], ◌∷◌, ◌++◌, length, arith,
  length-append, Bool-cases,
}
use ocr_service.Prelude.Outcome.{Outcome, ok, err, Outcome-cases}
use ocr_service.Float.{Float}
use ocr_service.Json.{Dict}
use ocr_service.Json.Nul.{dict_has_nul}
use ocr_service.Status.{DocumentStatus}
use ocr_service.Guardrails.{GuardrailOutcome}
use ocr_service.Pipeline.State.{ExtractionState}
use ocr_service.Store.{Db, GuardrailReport, document_row}
use ocr_service.Runner.Persist.{
  error_has_nul, insert_letter, stored_fields, add_dead_letter, has_review, PersistError, Crypto,
  has_result, add_reports, insert_result, write_extraction_result, write_rows,
}

abbrev pub one_if : Bool → ℕ
one_if true = 1
one_if false = 0

abbrev pub is_extracted : DocumentStatus → Bool
is_extracted DocumentStatus.completed = true
is_extracted DocumentStatus.review = true
is_extracted _ = false

abbrev pub is_review : DocumentStatus → Bool
is_review DocumentStatus.review = true
is_review _ = false

abbrev pub is_dead : DocumentStatus → Bool
is_dead DocumentStatus.rejected = true
is_dead DocumentStatus.error = true
is_dead _ = false

module _ {F : Type 0} ⦃fl : Float F⦄ where
  -- How many rows each table gains, and that the documents stay.
  pub record Adds (e v l g a : ℕ) (db t : Db F) : Type 0 where
    pub documents : t.documents ≡ db.documents
    pub results : length t.extraction_results ≡ length db.extraction_results + e
    pub reviews : length t.review_tasks ≡ length db.review_tasks + v
    pub letters : length t.dlq ≡ length db.dlq + l
    pub reports : length t.guardrail_reports ≡ length db.guardrail_reports + g
    pub audits : length t.audit_log ≡ length db.audit_log + a

  pub add_reports-Adds :
      (tenant document_id : ℕ) (os : List (GuardrailOutcome F)) (db : Db F)
      → Adds 0 0 0 (length os) 0 db (add_reports tenant document_id os db)
  add_reports-Adds tenant document_id [] db = record {
    documents = refl;
    results = omega arith;
    reviews = omega arith;
    letters = omega arith;
    reports = omega arith;
    audits = omega arith;
  }
  add_reports-Adds tenant document_id (o ∷ os) db =
      let report : GuardrailReport F = record {
        id = db.next_id;
        document_id = document_id;
        tenant_id = tenant;
        outcome = o;
      } in
      let rest = add_reports-Adds tenant document_id os (record db {
        guardrail_reports = db.guardrail_reports ++ report ∷ [];
        next_id = suc db.next_id;
      }) in
      record {
        documents = rest.documents;
        results = rest.results;
        reviews = rest.reviews;
        letters = rest.letters;
        reports = ground (arith, rest.reports, length-append db.guardrail_reports (report ∷ []));
        audits = rest.audits;
      }

  -- What holds of the database, unless an exception is raised.
  abbrev pub Unless : (Db F → Type 0) → Outcome PersistError (Db F) → Type 0
  Unless p (ok t) = p t
  Unless p (err e) = Unit {0}

  pub Unless-ok :
      (p : Db F → Type 0) (o : Outcome PersistError (Db F)) (t : Db F) → Unless p o → o ≡ ok t → p t
  Unless-ok p o t u h = rw h at u

  insert_result-Adds :
      (for_review : Bool) (tenant document_id : ℕ) (s : ExtractionState F) (fields : Dict)
      (db : Db F)
      → Unless
          (Adds 1 (one_if for_review) 0 0 0 db)
          (insert_result for_review tenant document_id s fields db)
  insert_result-Adds false tenant document_id s fields db =
      elim (Bool-cases (has_result document_id db)) [
        | inl h ↦ rw h tt
        | inr h ↦ rw h (record {
          documents = refl;
          results = length-append db.extraction_results _;
          reviews = omega arith;
          letters = omega arith;
          reports = omega arith;
          audits = omega arith;
        })
      ]
  insert_result-Adds true tenant document_id s fields db =
      elim (Bool-cases (has_result document_id db)) [
        | inl h ↦ rw h tt
        | inr h ↦ (elim (Bool-cases (has_review document_id db)) [
          | inl k ↦ rw (h, k) tt
          | inr k ↦
              rw (h, k)
                (record {
                  documents = refl;
                  results = length-append db.extraction_results _;
                  reviews = length-append db.review_tasks _;
                  letters = omega arith;
                  reports = omega arith;
                  audits = omega arith;
                })
        ])
      ]

  add_dead_letter-Adds :
      (tenant document_id : ℕ) (s : ExtractionState F) (db : Db F)
      → Adds 0 0 1 0 0 db (add_dead_letter tenant document_id s db)
  add_dead_letter-Adds tenant document_id s db = record {
    documents = refl;
    results = omega arith;
    reviews = omega arith;
    letters = length-append db.dlq _;
    reports = omega arith;
    audits = omega arith;
  }

  insert_letter-Adds :
      (tenant document_id : ℕ) (s : ExtractionState F) (db : Db F)
      → Unless (Adds 0 0 1 0 0 db) (insert_letter tenant document_id s db)
  insert_letter-Adds tenant document_id s db = elim (Bool-cases (error_has_nul s.error)) [
    | inl h ↦ rw h tt
    | inr h ↦ rw h (add_dead_letter-Adds tenant document_id s db)
  ]

  Adds-none : (db : Db F) → Adds 0 0 0 0 0 db db
  Adds-none db = record {
    documents = refl;
    results = omega arith;
    reviews = omega arith;
    letters = omega arith;
    reports = omega arith;
    audits = omega arith;
  }

  write_extraction_result-Adds :
      (x : Crypto) (for_review : Bool) (tenant document_id : ℕ) (s : ExtractionState F) (db : Db F)
      → Unless
          (Adds 1 (one_if for_review) 0 0 0 db)
          (write_extraction_result x for_review tenant document_id s db)
  unfolding write_extraction_result
  write_extraction_result-Adds x for_review tenant document_id s db =
      elim (Outcome-cases (stored_fields x tenant s)) [
        | inl (fields, h) ↦ (elim (Bool-cases (dict_has_nul fields)) [
          | inl n ↦ rw (write_extraction_result, h, n) tt
          | inr n ↦
              rw (write_extraction_result, h, n)
                (insert_result-Adds for_review tenant document_id s fields db)
        ])
        | inr (e, h) ↦ rw (write_extraction_result, h) tt
      ]

  pub write_rows-Adds :
      (x : Crypto) (st : DocumentStatus) (tenant document_id : ℕ) (s : ExtractionState F)
      (db : Db F)
      → Unless
          (Adds (one_if (is_extracted st)) (one_if (is_review st)) (one_if (is_dead st)) 0 0 db)
          (write_rows x st tenant document_id s db)
  write_rows-Adds x DocumentStatus.completed tenant document_id s db =
      write_extraction_result-Adds x false tenant document_id s db
  write_rows-Adds x DocumentStatus.review tenant document_id s db =
      write_extraction_result-Adds x true tenant document_id s db
  write_rows-Adds x DocumentStatus.rejected tenant document_id s db =
      insert_letter-Adds tenant document_id s db
  write_rows-Adds x DocumentStatus.error tenant document_id s db =
      insert_letter-Adds tenant document_id s db
  write_rows-Adds x DocumentStatus.pending tenant document_id s db = Adds-none db
  write_rows-Adds x DocumentStatus.parsing tenant document_id s db = Adds-none db
  write_rows-Adds x DocumentStatus.guarding tenant document_id s db = Adds-none db
  write_rows-Adds x DocumentStatus.extracting tenant document_id s db = Adds-none db
  write_rows-Adds x DocumentStatus.scoring tenant document_id s db = Adds-none db
  write_rows-Adds x DocumentStatus.routing tenant document_id s db = Adds-none db
  write_rows-Adds x DocumentStatus.delivering tenant document_id s db = Adds-none db
  write_rows-Adds x DocumentStatus.cancelled tenant document_id s db = Adds-none db
  write_rows-Adds x DocumentStatus.tombstone tenant document_id s db = Adds-none db
