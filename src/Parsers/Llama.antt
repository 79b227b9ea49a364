-- ===== src/Parsers/Llama.antt =====
-- `LlamaParseClient.parse` of app/pipeline/parsers/llamaparse.py, and the choice of the parser.
use ocr_service.Prelude.{
  ℕ, zero, suc, ◌+◌, ◌*◌, String, Bool, Option, none, some, List, [], ◌∷◌, ltb, ◌==◌, string_eq,
  nat_eq, if◌then◌else◌,
}
use Prim.Native.Char.{code}
use ocr_service.Prelude.Outcome.{Outcome, ok, err}
use ocr_service.Pipeline.Parsing.{ParseResult, clean_text}
use ocr_service.Parsers.Local.{ParserError, cloud_failed, Pdf, parse_local}
use ocr_service.Parsers.Cloud.{CloudError, timed_out, cloud_server_error, other, Cloud, call_cloud}

-- `s.count(c)`
abbrev pub count_char : ℕ → String → ℕ
count_char d String.[] = 0
count_char d (String.◌∷◌ c s) = let rest = count_char d s in if code c == d then suc rest else rest

-- `2**n`
abbrev pub power_of_two : ℕ → ℕ
power_of_two zero = 1
power_of_two (suc n) = 2 * power_of_two n

abbrev pub min_of : ℕ → ℕ → ℕ
min_of a b = if ltb b a then b else a

-- The wait after a failed attempt, in seconds.
abbrev pub backoff : ℕ → ℕ
backoff attempt = min_of (power_of_two attempt) 4

abbrev pub cloud_result : String → ParseResult
cloud_result text =
    let cleaned = clean_text text in
    record { text = cleaned; method = "llamaparse"; page_count = count_char 12 cleaned + 1 }

-- A parse, with the waits in seconds and the number of calls of the cloud.
pub record Parsed : Type 0 where
  pub result : Outcome ParserError ParseResult
  pub waits : List ℕ
  pub calls : ℕ

abbrev pub ended : Outcome ParserError ParseResult → ℕ → Parsed
ended result calls = record { result = result; waits = []; calls = calls }

-- A failed attempt in front of the rest.
abbrev pub retry_after : ℕ → ℕ → Parsed → Parsed
retry_after max_retries attempt p = record {
  result = p.result;
  waits = if ltb attempt max_retries then backoff attempt ∷ p.waits else p.waits;
  calls = suc p.calls;
}

module _ (pdf : Pdf) (content : List ℕ) (cloud : ℕ → Cloud) (max_retries : ℕ) where
  abbrev pub after_call : ℕ → Outcome CloudError String → Parsed → Parsed
  after_call attempt (ok text) rest = ended (ok (cloud_result text)) 1
  after_call attempt (err timed_out) rest = retry_after max_retries attempt rest
  after_call attempt (err cloud_server_error) rest = retry_after max_retries attempt rest
  after_call attempt (err (other message)) rest = ended (err (cloud_failed message)) 1

  -- The loop from an attempt on, with so many left; `cloud` is the service at each attempt.
  unfoldable pub attempts_from : ℕ → ℕ → Parsed
  unfolding parse_local call_cloud clean_text
  attempts_from zero attempt = ended (parse_local pdf content) 0
  attempts_from (suc left) attempt =
      after_call attempt (call_cloud (cloud attempt)) (attempts_from left (suc attempt))

  -- `LlamaParseClient.parse`; whether there is an API key is a setting.
  unfoldable pub parse_llama : Bool → Parsed
  unfolding attempts_from parse_local
  parse_llama has_api_key =
      if has_api_key then attempts_from max_retries 1 else ended (parse_local pdf content) 0

pub data Backend : Type 0 where
  local_parser llamaparse_client : Backend

-- `get_parser`, with the parser that it keeps.
unfoldable pub get_parser : Option Backend → String → Outcome String Backend
get_parser (some parser) backend = ok parser
get_parser none backend =
    if backend == "local"
    then ok local_parser
    else if backend == "llamaparse"
    then ok llamaparse_client
    else err "unsupported parser backend"
