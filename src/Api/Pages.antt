-- ===== src/Api/Pages.antt =====
-- The pages of `list_dlq` in app/api/routers/dlq.py.
use ocr_service.Prelude.{
  keep-All, All-map, All-append, ℕ, suc, zero, ◌+◌, ◌≤◌, ◌≡◌, refl, sym, ap, String, Bool, true,
  false, ◌&&◌, Option, List, [], ◌∷◌, ◌++◌, length, leb, ◌==◌, nat_eq, arith, All, if◌then◌else◌,
}
use ocr_service.Prelude.Outcome.{Outcome, ok, err}
use ocr_service.Store.{Db, DeadLetter, document_row}
use ocr_service.Api.{HttpError}
use ocr_service.Api.Reads.{has_status, limited, skipped, newest_first, dead_letters, list_dlq}

none_and : (n : ℕ) → 0 + n ≡ n
none_and n = omega arith

one_and : (o n : ℕ) → suc o + n ≡ suc (o + n)
one_and o n = omega arith

module _ {A : Type 0} where
  skipped_none : (n : ℕ) → ◌≡◌ {A = List A} (skipped n []) []
  unfolding skipped
  skipped_none zero = refl
  skipped_none (suc n) = refl

  limited_none : (n : ℕ) → ◌≡◌ {A = List A} (limited n []) []
  unfolding limited
  limited_none zero = refl
  limited_none (suc n) = refl

  newest_first-All : (P : A → Type 0) (rows : List A) → All P rows → All P (newest_first rows)
  newest_first-All P [] h = tt
  newest_first-All P (a ∷ rows) h =
      All-append P (newest_first rows) (a ∷ []) (newest_first-All P rows h.1) (h.0, tt)

  limited-All : (P : A → Type 0) (n : ℕ) (rows : List A) → All P rows → All P (limited n rows)
  unfolding limited
  limited-All P zero rows h = tt
  limited-All P (suc n) [] h = tt
  limited-All P (suc n) (a ∷ rows) h = (h.0, limited-All P n rows h.1)

  skipped-All : (P : A → Type 0) (n : ℕ) (rows : List A) → All P rows → All P (skipped n rows)
  unfolding skipped
  skipped-All P zero rows h = h
  skipped-All P (suc n) [] h = tt
  skipped-All P (suc n) (a ∷ rows) h = skipped-All P n rows h.1

  length-limited : (n : ℕ) (rows : List A) → length (limited n rows) ≤ n
  unfolding limited
  length-limited zero rows = omega arith
  length-limited (suc n) [] = omega arith
  length-limited (suc n) (a ∷ rows) = omega (arith, length-limited n rows)

  skipped-skipped : (o n : ℕ) (rows : List A) → skipped (o + n) rows ≡ skipped n (skipped o rows)
  unfolding skipped
  skipped-skipped zero n rows = rw (none_and n) refl
  skipped-skipped (suc o) n [] = rw (one_and o n, skipped_none n) refl
  skipped-skipped (suc o) n (a ∷ rows) = rw (one_and o n) (skipped-skipped o n rows)

  limited-pages :
      (n m : ℕ) (rows : List A)
      → limited n rows ++ limited m (skipped n rows) ≡ limited (n + m) rows
  unfolding limited skipped
  limited-pages zero m rows = rw (none_and m) refl
  limited-pages (suc n) m [] = rw (one_and n m, limited_none m) refl
  limited-pages (suc n) m (a ∷ rows) =
      rw (one_and n m) (ap (λ rest. a ∷ rest) (limited-pages n m rows))

module _ {F : Type 0} where
  list_or : List (DeadLetter F) → Outcome HttpError (List (DeadLetter F)) → List (DeadLetter F)
  list_or c (ok d) = d
  list_or c (err e) = c

  in_range :
      (b : Bool) (x y : List (DeadLetter F)) (e : HttpError)
      → (if b then ok x else err e) ≡ ok y
      → (b ≡ true) × (x ≡ y)
  unfolding list_or
  in_range true x y e h = (refl, ap (list_or x) h)
  in_range false x y e h = absurd (ground arith)

  list_dlq-ok :
      (tenant : ℕ) (filter : Option String) (limit offset : ℕ) (db : Db F)
      (page : List (DeadLetter F))
      → list_dlq tenant filter limit offset db ≡ ok page
      → ((leb 1 limit && leb limit 200) ≡ true)
        × (limited limit (skipped offset (dead_letters tenant filter db)) ≡ page)
  unfolding list_dlq
  list_dlq-ok tenant filter limit offset db page h = in_range _ _ page _ h

  dead_letters-All :
      (tenant : ℕ) (filter : Option String) (db : Db F)
      → All
          (λ e. (e.tenant_id ≡ tenant) × (has_status filter e.status ≡ true))
          (dead_letters tenant filter db)
  dead_letters-All tenant filter db =
      newest_first-All _ _
        (All-map _ _ _ (λ e h. own e.tenant_id (has_status filter e.status) h) (keep-All _ db.dlq))
    where
      own : (t : ℕ) (b : Bool) → (t == tenant && b) ≡ true → (t ≡ tenant) × (b ≡ true)
      own t b h = ground arith

  -- A page of the dead-letter queue that `list_dlq` gives a tenant: at most as long as the limit, and
  -- of the tenant's entries with the status that was asked for; and the page after it, at the offset
  -- plus the limit, goes on where it ends: the two are the page with the sum of the limits.
  pub list_dlq_pages :
      (tenant : ℕ) (filter : Option String) (limit more offset : ℕ) (db : Db F)
      (page rest : List (DeadLetter F))
      → limit + more ≤ 200
      → list_dlq tenant filter limit offset db ≡ ok page
      → list_dlq tenant filter more (offset + limit) db ≡ ok rest
      → (length page ≤ limit)
        × All (λ e. (e.tenant_id ≡ tenant) × (has_status filter e.status ≡ true)) page
        × (list_dlq tenant filter (limit + more) offset db ≡ ok (page ++ rest))
  unfolding list_dlq
  list_dlq_pages tenant filter limit more offset db page rest le h k =
      let (range, first) = list_dlq-ok tenant filter limit offset db page h in
      let (_, second) = list_dlq-ok tenant filter more (offset + limit) db rest k in
      (
        rw (← first) (length-limited limit (skipped offset rows)),
        rw (← first)
            (limited-All _ limit _ (skipped-All _ offset _ (dead_letters-All tenant filter db))),
        rw (within range, ← first, ← second, skipped-skipped offset limit rows)
            (ap ok (sym (limited-pages limit more (skipped offset rows)))),
      )
    where
      rows : List (DeadLetter F)
      rows = dead_letters tenant filter db

      within :
          (leb 1 limit && leb limit 200) ≡ true
          → (leb 1 (limit + more) && leb (limit + more) 200) ≡ true
      within r = ground arith
