-- ===== src/Trail/Log.antt =====
-- A log with events added at its end.
use ocr_service.Prelude.{ℕ, ◌≡◌, refl, sym, ap, ◌∙◌, String, Option, List, [], ◌∷◌, ◌++◌, nat_eq}
use ocr_service.Prelude.Outcome.{Outcome, ok}
use ocr_service.Json.{Dict}
use ocr_service.Store.{Db, AuditLog, Event, document_row, review_row}
use ocr_service.Audit.{append_event, payload_hash}

append_none : {A : Type 0} (rows : List A) → rows ≡ rows ++ []
append_none [] = refl
append_none (r ∷ rows) = ap (λ xs. r ∷ xs) (append_none rows)

append_assoc : {A : Type 0} (xs ys zs : List A) → (xs ++ ys) ++ zs ≡ xs ++ (ys ++ zs)
append_assoc [] ys zs = refl
append_assoc (x ∷ xs) ys zs = ap (λ l. x ∷ l) (append_assoc xs ys zs)

pub ok_inj : {E A : Type 0} {a b : A} → ◌≡◌ {A = Outcome E A} (ok a) (ok b) → a ≡ b
ok_inj h = cc

module _ {F : Type 0} where
  -- The log of `t` is that of `db` with events after it.
  abbrev pub Appends : Db F → Db F → Type 0
  Appends db t = (rows : List AuditLog) × (t.audit_log ≡ db.audit_log ++ rows)

  pub kept : (db t : Db F) → t.audit_log ≡ db.audit_log → Appends db t
  kept db t h = ([], h ∙ append_none db.audit_log)

  pub append_event-Appends :
      (digest : Dict → String) (tenant : ℕ) (document_id : Option ℕ) (e : Event)
      (payload : Option Dict) (db t : Db F)
      → t.audit_log ≡ db.audit_log
      → Appends db (append_event digest tenant document_id e payload t)
  unfolding append_event
  append_event-Appends digest tenant document_id e payload db t h =
      let row : AuditLog = record {
        id = t.next_id;
        tenant_id = tenant;
        document_id = document_id;
        event = e;
        payload_hash = payload_hash digest payload;
      } in
      (row ∷ [], ap (λ rows. rows ++ row ∷ []) h)

  pub Appends-then : (a b c : Db F) → Appends a b → Appends b c → Appends a c
  Appends-then a b c (xs, h) (ys, k) =
      (xs ++ ys, k ∙ ap (λ l. l ++ ys) h ∙ append_assoc a.audit_log xs ys)

  pub same_log : (db t u : Db F) → u ≡ t → Appends db u → Appends db t
  same_log db t u h (rows, k) = (rows, ap (λ d. d.audit_log) (sym h) ∙ k)
