-- ===== src/Parsers/Local.antt =====
-- app/pipeline/parsers/local.py. pdfplumber and pytesseract are parameters: the text of each page,
-- if any, or the text of an exception.
use ocr_service.Prelude.{ℕ, String, Option, none, some, List, [], ◌∷◌, length, map, if◌then◌else◌}
use ocr_service.Prelude.Outcome.{Outcome, ok, err}
use ocr_service.Text.{append}
use ocr_service.Pipeline.Parsing.{ParseResult, is_empty_result, clean_text}

-- `ParserError` by its messages, and what the client of the cloud lets through.
pub data ParserError : Type 0 where
  empty_content : ParserError
  parse_failed ocr_failed cloud_failed : String → ParserError

-- What reads a PDF: its text layer, and the recognition of its rendered pages.
pub record Pdf : Type 0 where
  pub text_layer : List ℕ → Outcome String (List (Option String))
  pub recognise : List ℕ → Outcome String (List (Option String))

-- `page_text or ""`
abbrev pub or_empty : Option String → String
or_empty none = ""
or_empty (some s) = s

-- `"\n\n".join(pages)`
abbrev pub join_pages : List String → String
join_pages [] = ""
join_pages (p ∷ []) = p
join_pages (p ∷ q ∷ pages) = append p (append "\n\n" (join_pages (q ∷ pages)))

-- `_extract_pdf_text` and `_ocr_pdf`, of the texts of the pages; the result of `parse` on them.
abbrev pub result_of : String → List (Option String) → ParseResult
result_of method pages = record {
  text = clean_text (join_pages (map or_empty pages));
  method = method;
  page_count = length pages;
}

module _ (pdf : Pdf) where
  -- The fallback to recognition.
  abbrev pub recognised : List ℕ → Outcome ParserError ParseResult
  recognised content = elim (pdf.recognise content) [
    | err message ↦ err (ocr_failed message)
    | ok pages ↦ ok (result_of "ocr" pages)
  ]

  -- `LocalParser.parse`
  unfoldable pub parse_local : List ℕ → Outcome ParserError ParseResult
  unfolding is_empty_result clean_text append
  parse_local [] = err empty_content
  parse_local (b ∷ content) = elim (pdf.text_layer (b ∷ content)) [
    | err message ↦ err (parse_failed message)
    | ok pages ↦
        let result = result_of "local" pages in
        if is_empty_result result then recognised (b ∷ content) else ok result
  ]
