-- ===== src/Api/Isolation.antt =====
-- Whose rows `get_document` of app/api/routers/extract.py shows.
use ocr_service.Prelude.{
  keep-All, All-map, ℕ, ◌≡◌, refl, ap, ◌∙◌, true, ◌&&◌, Option, some, List, [], ◌∷◌, ◌==◌, nat_eq,
  arith, All, Option-cases, inl, inr,
}
use ocr_service.Prelude.Outcome.{Outcome, ok, err}
use ocr_service.Store.{Db, Document, ExtractionResult, ReviewTask, document_row}
use ocr_service.Store.Rows.{get_row}
use ocr_service.Store.Laws.{tenant_of-get_row, id_of-get_row}
use ocr_service.Api.{HttpError}
use ocr_service.Api.Reads.{
  DocumentDetail, one_or_none, extractions_of, reports_of, reviews_of, detail_of, get_document,
}

module _ {A : Type 0} where
  one_or_none-All :
      (P : A → Type 0) (rows : List A) (a : A) → All P rows → one_or_none rows ≡ ok (some a) → P a
  one_or_none-All P [] a h e = absurd (ground arith)
  one_or_none-All P (b ∷ []) a h e = rw (same e) at h.0
    where
      same : ◌≡◌ {A = Outcome HttpError (Option A)} (ok (some b)) (ok (some a)) → b ≡ a
      same i = ground arith
  one_or_none-All P (b ∷ c ∷ rows) a h e = absurd (ground arith)

abbrev pub BelongsTo : ℕ → ℕ → ℕ → ℕ → Type 0
BelongsTo tenant document_id t d = (t ≡ tenant) × (d ≡ document_id)

both :
    (tenant document_id t d : ℕ)
    → (t == tenant && d == document_id) ≡ true
    → BelongsTo tenant document_id t d
both tenant document_id t d h = ground arith

module _ {F : Type 0} where
  -- All that a detail shows belongs to the tenant and to the document.
  pub record IsOwn (tenant document_id : ℕ) (d : DocumentDetail F) : Type 0 where
    pub document : BelongsTo tenant document_id d.document.tenant_id d.document.id
    pub extraction :
        (e : ExtractionResult F)
        → d.extraction_result ≡ some e
        → BelongsTo tenant document_id e.tenant_id e.document_id
    pub reports :
        All (λ r. BelongsTo tenant document_id r.tenant_id r.document_id) d.guardrail_reports
    pub review :
        (r : ReviewTask)
        → d.review_task ≡ some r
        → BelongsTo tenant document_id r.tenant_id r.document_id

  abbrev detail_or : DocumentDetail F → Outcome HttpError (DocumentDetail F) → DocumentDetail F
  detail_or c (ok d) = d
  detail_or c (err e) = c

  detail_of-IsOwn :
      (tenant document_id : ℕ) (db : Db F) (document : Document F)
      (extraction : Outcome HttpError (Option (ExtractionResult F)))
      (review : Outcome HttpError (Option ReviewTask)) (d : DocumentDetail F)
      → one_or_none (extractions_of tenant document_id db) ≡ extraction
      → one_or_none (reviews_of tenant document_id db) ≡ review
      → BelongsTo tenant document_id document.tenant_id document.id
      → detail_of document extraction (reports_of tenant document_id db) review ≡ ok d
      → IsOwn tenant document_id d
  detail_of-IsOwn tenant document_id db document (err e) review d f g o h = absurd (ground arith)
  detail_of-IsOwn tenant document_id db document (ok extraction) (err e) d f g o h =
      absurd (ground arith)
  detail_of-IsOwn tenant document_id db document (ok extraction) (ok review) d f g o h =
      rw (← same h) (record {
        document = o;
        extraction = λ e i.
            both tenant document_id e.tenant_id e.document_id
              (one_or_none-All _ _ e (keep-All _ db.extraction_results) (f ∙ ap ok i));
        reports =
            All-map _ _ _ (λ r h. both tenant document_id r.tenant_id r.document_id h)
              (keep-All _ db.guardrail_reports);
        review = λ r i.
            both tenant document_id r.tenant_id r.document_id
              (one_or_none-All _ _ r (keep-All _ db.review_tasks) (g ∙ ap ok i));
      })
    where
      same :
          {c : DocumentDetail F}
          → ◌≡◌ {A = Outcome HttpError (DocumentDetail F)} (ok c) (ok d)
          → c ≡ d
      same {c = c} i = ap (detail_or c) i

  -- What `get_document` shows to a tenant belongs to the tenant and to the document that was asked
  -- for: the document, its result, its reports and its review task.
  pub get_document-IsOwn :
      (tenant document_id : ℕ) (db : Db F) (d : DocumentDetail F)
      → get_document tenant document_id db ≡ ok d
      → IsOwn tenant document_id d
  unfolding get_document
  get_document-IsOwn tenant document_id db d h =
      elim (Option-cases (get_row tenant document_id db.documents)) [
        | inl n ↦ absurd (ground arith)
        | inr (document, s) ↦
            detail_of-IsOwn tenant document_id db document _ _ d refl refl
              (
                tenant_of-get_row tenant document_id db.documents document s,
                id_of-get_row tenant document_id db.documents document s,
              )
              (rw (get_document, s) at h)
      ]
