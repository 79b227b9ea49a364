-- ===== src/Api/Exports.antt =====
-- The CSV of `export_audit` in app/api/routers/audit.py, read back.
use ocr_service.Prelude.{
  Bool, none, some, String, leb, ℕ, ◌≡◌, refl, ap, ◌∙◌, true, ◌&&◌, Option, List, [], ◌∷◌, map,
  keep, ◌==◌, nat_eq,
}
use ocr_service.Api.Ordering.{InOrder, Shuffled, order_by-InOrder, order_by-Shuffled}
use ocr_service.Csv.Reader.{read_csv, read}
use ocr_service.Csv.RoundTrip.{read_csv-write_row}
use ocr_service.Store.{Db, AuditLog}
use ocr_service.Api.Export.{
  event_status, actor, event_type, Texts, export_columns, csv_values, csv_lines, in_period,
  stream_rows, export_audit,
}

-- The bounds of the period belong to it.
abbrev pub not_before : Option ℕ → ℕ → Bool
not_before none at = true
not_before (some start) at = leb start at

abbrev pub not_after : Option ℕ → ℕ → Bool
not_after none at = true
not_after (some stop) at = leb at stop

abbrev or_empty : (ℕ → String) → Option ℕ → String
or_empty text none = ""
or_empty text (some id) = text id

abbrev text_or_empty : Option String → String
text_or_empty none = ""
text_or_empty (some s) = s

module _ (t : Texts) where
  read_csv-csv_lines :
      (rows : List AuditLog) → read_csv (csv_lines t rows) ≡ map (csv_values t) rows
  unfolding csv_lines csv_values
  read_csv-csv_lines [] = unfold read_csv read in refl
  read_csv-csv_lines (row ∷ rows) =
      read_csv-write_row _ _ _ ∙ ap (λ lines. csv_values t row ∷ lines) (read_csv-csv_lines rows)

  -- What a line shows of an event, column by column.
  abbrev pub shown : AuditLog → List String
  shown row =
      t.id_text row.id
      ∷ or_empty t.id_text row.document_id
      ∷ event_type row.event
      ∷ actor row.event
      ∷ event_status row.event
      ∷ text_or_empty row.payload_hash
      ∷ t.time_text (t.created_at row)
      ∷ []

  shown_columns :
      (row : AuditLog) (document : Option ℕ) (hash : Option String)
      → let r = record row { document_id = document; payload_hash = hash } in
        csv_values t r ≡ shown r
  unfolding csv_values
  shown_columns row none none = refl
  shown_columns row none (some h) = refl
  shown_columns row (some d) none = refl
  shown_columns row (some d) (some h) = refl

  map-shown : (rows : List AuditLog) → map (csv_values t) rows ≡ map shown rows
  map-shown [] = refl
  map-shown (row ∷ rows) =
      ap (λ line. line ∷ map (csv_values t) rows)
        (shown_columns row row.document_id row.payload_hash)
      ∙ ap (λ lines. shown row ∷ lines) (map-shown rows)

  -- Read by the rules of RFC 4180, the CSV that a tenant exports has the columns of the header in its
  -- first line, and then, in the order of creation, a line with the values of each event of the
  -- tenant that lies in the period, its bounds included, and of no other, whatever characters the
  -- values have.
  pub export_audit-read :
      {F : Type 0} (tenant : ℕ) (start stop : Option ℕ) (db : Db F)
      → (rows : List AuditLog) × (read_csv (export_audit t tenant true start stop db)
          ≡ export_columns ∷ map shown rows)
        × InOrder t.created_at rows
        × Shuffled
            (keep
              (λ r.
                r.tenant_id == tenant
                && (not_before start (t.created_at r) && not_after stop (t.created_at r)))
              db.audit_log)
            rows
  unfolding export_audit stream_rows in_period
  export_audit-read tenant start stop db =
      let rows = stream_rows t tenant start stop db.audit_log in
      let kept =
        keep (λ r. r.tenant_id == tenant && in_period start stop (t.created_at r)) db.audit_log in
      (
        rows,
        read_csv-write_row _ _ _
            ∙ ap (λ lines. export_columns ∷ lines) (read_csv-csv_lines rows ∙ map-shown rows),
        order_by-InOrder t.created_at kept,
        order_by-Shuffled t.created_at kept,
      )
