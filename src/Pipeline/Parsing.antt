-- ===== src/Pipeline/Parsing.antt =====
-- `ParseResult` of app/pipeline/parsers/base.py.
use ocr_service.Prelude.{ℕ, String, Bool, ltb}
use ocr_service.Text.{size, strip, remove_char}

pub record ParseResult : Type 0 where
  pub text : String
  pub method : String
  pub page_count : ℕ

-- `is_empty`: fewer than 10 characters without line feeds and outer white space
unfoldable pub is_empty_result : ParseResult → Bool
unfolding strip remove_char
is_empty_result r = ltb (size (strip (remove_char 10 r.text))) 10

-- `clean_text`: no NUL
unfoldable pub clean_text : String → String
unfolding remove_char
clean_text text = remove_char 0 text
