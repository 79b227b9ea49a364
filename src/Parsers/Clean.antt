-- ===== src/Parsers/Clean.antt =====
-- What the parsers of app/pipeline/parsers return.
use ocr_service.Prelude.{◌≡◌, ◌≢◌, ◌⊎◌, All, nat_eq}
use ocr_service.Prelude.Outcome.{Outcome, ok, err}
use ocr_service.Text.{codes}
use ocr_service.Pipeline.Parsing.{ParseResult}
use ocr_service.Parsers.Local.{ParserError}
use ocr_service.Parsers.Cloud.{Cloud}

-- No NUL in the text, and one of the three methods.
pub record IsClean (r : ParseResult) : Type 0 where
  pub no_nul : All (λ c. c ≢ 0) (codes r.text)
  pub method : (r.method ≡ "local") ⊎ ((r.method ≡ "ocr") ⊎ (r.method ≡ "llamaparse"))

abbrev Returns : (ParseResult → Type 0) → Outcome ParserError ParseResult → Type 0
Returns P (ok r) = P r
Returns P (err e) = Unit
