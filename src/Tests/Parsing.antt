-- ===== src/Tests/Parsing.antt =====
-- The parsers of app/pipeline/parsers at work.
use ocr_service.Prelude.{
  ℕ, ◌≡◌, refl, String, true, some, [], ◌∷◌, ◌+◌, ltb, if◌then◌else◌, ◌==◌, nat_eq,
}
use ocr_service.Prelude.Outcome.{Outcome, ok, err}
use ocr_service.Json
use ocr_service.Json.{Json, Dict, entry}
use ocr_service.Text.{remove_char}
use ocr_service.Pipeline.Parsing.{clean_text}
use ocr_service.Parsers.Local.{Pdf}
use ocr_service.Parsers.Cloud.{
  CloudError, timed_out, Response, Cloud, poll, poll_fuel, poll_timeout_ms, call_cloud,
}
use ocr_service.Parsers.Llama.{attempts_from, parse_llama}
use ocr_service.Parsers.Polling.{poll_total}
use ocr_service.Parsers.Attempts.{Course, parse_llama-Course}

abbrev reply_with : String → String → Outcome CloudError Response
reply_with key value =
    ok (record { status_code = 200; body = ok (Json.obj (entry key (Json.str value) Json.empty)) })

-- A service that is done four seconds after the upload.
abbrev swift : Cloud
swift = record {
  upload = reply_with "id" "job 1";
  job = λ id t. reply_with "status" (if ltb t 5000 then "PENDING" else "SUCCESS");
  markdown = λ id t. reply_with "markdown" "# Invoice";
  latency = λ t. 200;
  begin = 1000;
  show = λ v. elim v [ Json.str s ↦ s | _ ↦ "" ];
}

abbrev silent : Cloud
silent = record swift { upload = err timed_out }

abbrev third_time : ℕ → Cloud
third_time attempt = if attempt == 3 then swift else silent

abbrev pdf : Pdf
pdf = record {
  text_layer = λ content. ok (some "text" ∷ []);
  recognise = λ content. err "no engine";
}

poll_total_example :
    (o : Outcome CloudError String) × (poll swift poll_fuel (1000 + poll_timeout_ms) Json.null 1000
      ≡ some o)
poll_total_example = poll_total swift Json.null 1000

parse_llama-Course_example :
    Course pdf (37 ∷ []) third_time 1 3 (parse_llama pdf (37 ∷ []) third_time 3 true)
parse_llama-Course_example = parse_llama-Course pdf (37 ∷ []) third_time 3

waited : (parse_llama pdf (37 ∷ []) third_time 3 true).waits ≡ 2 ∷ 4 ∷ []
unfolding poll call_cloud attempts_from parse_llama clean_text remove_char
waited = refl
