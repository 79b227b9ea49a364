-- ===== src/Csv.antt =====
-- What app/api/routers/audit.py uses of Python's `csv`: `csv.writer(buf).writerow(values)` in the
-- dialect `excel`. A row has two columns or more, as an export has: a lone empty column would be
-- quoted.
pub mod Reader
pub mod RoundTrip
use Prim.Native.Char.{code}
use ocr_service.Prelude.{ℕ, String, Bool, false, ◌||◌, List, [], ◌∷◌, ◌==◌, nat_eq, if◌then◌else◌}
use ocr_service.Text.{append}

-- A character for which a column is quoted: the delimiter, the quote, the ends of lines.
abbrev pub is_special : ℕ → Bool
is_special c = c == b',' || c == b'"' || c == b'\r' || c == b'\n'

unfoldable pub needs_quotes : String → Bool
needs_quotes String.[] = false
needs_quotes (String.◌∷◌ c s) = is_special (code c) || needs_quotes s

-- The rest of a column in quotes: each quote is written twice, and one ends the column.
unfoldable pub in_quotes : String → String
in_quotes String.[] = "\""
in_quotes (String.◌∷◌ c s) =
    let rest = String.◌∷◌ c (in_quotes s) in if code c == b'"' then String.◌∷◌ "\"" rest else rest

unfoldable pub write_column : String → String
unfolding needs_quotes in_quotes
write_column s = if needs_quotes s then String.◌∷◌ "\"" (in_quotes s) else s

-- The columns after the first, and the end of the line.
unfoldable pub write_rest : List String → String
unfolding append write_column
write_rest [] = "\r\n"
write_rest (s ∷ row) = String.◌∷◌ "," (append (write_column s) (write_rest row))

-- `writerow`
unfoldable pub write_row : String → List String → String
unfolding append write_column write_rest
write_row s row = append (write_column s) (write_rest row)

abbrev pub write_line : List String → String
write_line [] = "\r\n"
write_line (s ∷ row) = write_row s row
