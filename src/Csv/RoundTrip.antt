-- ===== src/Csv/RoundTrip.antt =====
-- What `Csv` writes, `Csv.Reader` reads back.
use Prim.Native.Char.{Char, code}
use ocr_service.Prelude.{
  ℕ, ◌≡◌, refl, ap, sym, ◌∙◌, String, false, List, [], ◌∷◌, ◌==◌, nat_eq, arith, Bool-cases, inl,
  inr,
}
use ocr_service.Text.{append, is_empty}
use ocr_service.Csv.{is_special, needs_quotes, in_quotes, write_column, write_rest, write_row}
use ocr_service.Csv.Reader.{starting, unquoted, quoted, quote_seen, Reading, read, read_csv}

append_assoc : (s t u : String) → append (append s t) u ≡ append s (append t u)
unfolding append
append_assoc String.[] t u = refl
append_assoc (String.◌∷◌ c s) t u = ap (String.◌∷◌ c) (append_assoc s t u)

append-empty : (s : String) → append s "" ≡ s
unfolding append
append-empty String.[] = refl
append-empty (String.◌∷◌ c s) = ap (String.◌∷◌ c) (append-empty s)

append_filled : (s t : String) → is_empty t ≡ false → is_empty (append s t) ≡ false
unfolding append
append_filled String.[] t h = h
append_filled (String.◌∷◌ c s) t h = refl

-- A text in front of the column that is read on.
abbrev put_text : String → Reading → Reading
put_text s r = record r { column = append s r.column }

abbrev add_char : Char → Reading → Reading
add_char c r = record r { column = String.◌∷◌ c r.column }

plain_char :
    (c : ℕ)
    → is_special c ≡ false
    → ((c == b',') ≡ false)
      × ((c == b'"') ≡ false)
      × ((c == b'\r') ≡ false)
      × ((c == b'\n') ≡ false)
plain_char c h = ground arith

read-plain :
    (s t : String)
    → needs_quotes s ≡ false
    → read unquoted (append s t) ≡ put_text s (read unquoted t)
unfolding read append needs_quotes
read-plain String.[] t h = refl
read-plain (String.◌∷◌ c s) t h = elim (Bool-cases (is_special (code c))) [
  | inl e ↦ absurd (ground arith)
  | inr e ↦
      let (comma, quote, cr, lf) = plain_char (code c) e in
      rw (comma, cr, lf) (ap (add_char c) (read-plain s t (ground arith)))
]

read-in_quotes :
    (s t : String) → read quoted (append (in_quotes s) t) ≡ put_text s (read quote_seen t)
unfolding read append in_quotes
read-in_quotes String.[] t = refl
read-in_quotes (String.◌∷◌ c s) t = elim (Bool-cases (code c == b'"')) [
  | inl e ↦ rw (e, e) (ap (add_char c) (read-in_quotes s t))
  | inr e ↦ rw (e, e) (ap (add_char c) (read-in_quotes s t))
]

-- What follows a column: read on from outside or after a quote, it is read as from within.
record Follows (t : String) : Type 0 where
  from_start : read starting t ≡ read unquoted t
  from_quote : read quote_seen t ≡ read unquoted t

read-unquoted :
    (s t : String)
    → Follows t
    → needs_quotes s ≡ false
    → read starting (append s t) ≡ put_text s (read unquoted t)
unfolding read append needs_quotes
read-unquoted String.[] t f h = f.from_start
read-unquoted (String.◌∷◌ c s) t f h = elim (Bool-cases (is_special (code c))) [
  | inl e ↦ absurd (ground arith)
  | inr e ↦
      let (comma, quote, cr, lf) = plain_char (code c) e in
      rw (quote, comma, cr, lf) (ap (add_char c) (read-plain s t (ground arith)))
]

read-opening :
    (s t : String) → read starting (append (String.◌∷◌ "\"" s) t) ≡ read quoted (append s t)
unfolding read append
read-opening s t = refl

read-write_column :
    (s t : String)
    → Follows t
    → read starting (append (write_column s) t) ≡ put_text s (read unquoted t)
unfolding write_column
read-write_column s t h = elim (Bool-cases (needs_quotes s)) [
  | inl e ↦ rw (e, read-opening (in_quotes s) t, read-in_quotes s t, h.from_quote) refl
  | inr e ↦ rw e (read-unquoted s t h e)
]

abbrev reading : String → List String → String → Reading
reading s row t = record { column = s; columns = row; rows = read_csv t }

read-column :
    (s : String) (row : List String) (t : String)
    → Follows (append (write_rest row) t)
    → read unquoted (append (write_rest row) t) ≡ reading "" row t
    → read starting (append (append (write_column s) (write_rest row)) t) ≡ reading s row t
read-column s row t f h =
    rw
      (
        append_assoc (write_column s) (write_rest row) t,
        read-write_column s (append (write_rest row) t) f,
        h,
        append-empty s,
      )
      refl

abbrev column_end : Reading → Reading
column_end r = record { column = ""; columns = r.column ∷ r.columns; rows = r.rows }

-- What `write_rest` writes, in front of `t`: the columns, and then the lines of `t`.
read-write_rest :
    (row : List String) (t : String)
    → (read starting (append (write_rest row) t) ≡ reading "" row t)
      × (read quote_seen (append (write_rest row) t) ≡ reading "" row t)
      × (read unquoted (append (write_rest row) t) ≡ reading "" row t)
unfolding read append write_rest read_csv
read-write_rest [] t = (refl, refl, refl)
read-write_rest (s ∷ row) t =
    let (a, b, c) = read-write_rest row t in
    let column =
      ap column_end
        (read-column s row t (record { from_start = a ∙ sym c; from_quote = b ∙ sym c }) c) in
    (column, column, column)

read-row :
    (s : String) (row : List String) (t : String)
    → read starting (append (write_row s row) t) ≡ reading s row t
unfolding write_row
read-row s row t =
    let (a, b, c) = read-write_rest row t in
    read-column s row t (record { from_start = a ∙ sym c; from_quote = b ∙ sym c }) c

write_rest_filled : (row : List String) (t : String) → is_empty (append (write_rest row) t) ≡ false
unfolding write_rest append
write_rest_filled [] t = refl
write_rest_filled (s ∷ row) t = refl

write_row_filled :
    (s : String) (row : List String) (t : String) → is_empty (append (write_row s row) t) ≡ false
unfolding write_row
write_row_filled s row t =
    rw (append_assoc (write_column s) (write_rest row) t)
      (append_filled (write_column s) (append (write_rest row) t) (write_rest_filled row t))

read_csv-filled :
    (s : String)
    → is_empty s ≡ false
    → read_csv s ≡ (let r = read starting s in (r.column ∷ r.columns) ∷ r.rows)
unfolding read_csv read
read_csv-filled String.[] h = cc
read_csv-filled (String.◌∷◌ c s) h = refl

-- A line that was written, in front of `t`, is read back, and then the lines of `t`.
pub read_csv-write_row :
    (s : String) (row : List String) (t : String)
    → read_csv (append (write_row s row) t) ≡ (s ∷ row) ∷ read_csv t
read_csv-write_row s row t =
    rw (read_csv-filled (append (write_row s row) t) (write_row_filled s row t), read-row s row t)
      refl
