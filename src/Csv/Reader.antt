-- ===== src/Csv/Reader.antt =====
-- A reader of CSV in the sense of RFC 4180, written without regard to how `Csv` writes: an automaton
-- with one state per place in which a character can stand.
use Prim.Native.Char.{Char, code}
use ocr_service.Prelude.{ℕ, String, List, [], ◌∷◌, ◌==◌, nat_eq, if◌then◌else◌}

pub data Mode : Type 0 where
  starting unquoted quoted quote_seen cr_seen next_line : Mode

-- What a character does.
pub data Act : Type 0 where
  add skip end_column end_line : Act

-- What is read from a place on: the rest of its column, the further columns of its line, and the
-- lines after that.
pub record Reading : Type 0 where
  pub column : String
  pub columns : List String
  pub rows : List (List String)

abbrev after_plain : ℕ → Mode
after_plain c =
    if c == b','
    then starting
    else (if c == b'\r' then cr_seen else (if c == b'\n' then next_line else unquoted))

abbrev pub next : Mode → ℕ → Mode
next starting c = if c == b'"' then quoted else after_plain c
next next_line c = if c == b'"' then quoted else after_plain c
next quote_seen c = if c == b'"' then quoted else after_plain c
next unquoted c = after_plain c
next quoted c = if c == b'"' then quote_seen else quoted
next cr_seen c = next_line

abbrev plain_act : ℕ → Act
plain_act c =
    if c == b','
    then end_column
    else (if c == b'\r' then end_line else (if c == b'\n' then end_line else add))

abbrev act : Mode → ℕ → Act
act starting c = if c == b'"' then skip else plain_act c
act next_line c = if c == b'"' then skip else plain_act c
act quote_seen c = if c == b'"' then add else plain_act c
act unquoted c = plain_act c
act quoted c = if c == b'"' then skip else add
act cr_seen c = skip

abbrev perform : Act → Char → Reading → Reading
perform add c r = record r { column = String.◌∷◌ c r.column }
perform skip c r = r
perform end_column c r = record { column = ""; columns = r.column ∷ r.columns; rows = r.rows }
perform end_line c r = record { column = ""; columns = []; rows = r.rows }

-- A character at the start of a line begins a row.
abbrev pub opened : Mode → Reading → Reading
opened next_line r = record { column = ""; columns = []; rows = (r.column ∷ r.columns) ∷ r.rows }
opened _ r = r

unfoldable pub read : Mode → String → Reading
read m String.[] = record { column = ""; columns = []; rows = [] }
read m (String.◌∷◌ c s) = opened m (perform (act m (code c)) c (read (next m (code c)) s))

unfoldable pub read_csv : String → List (List String)
unfolding read
read_csv s = (read next_line s).rows
