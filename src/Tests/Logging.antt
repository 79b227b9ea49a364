-- ===== src/Tests/Logging.antt =====
-- Runs of the masking of log events.
use ocr_service.Prelude.{[], ◌∷◌, ℕ, Bool, refl, ◌≡◌, leb, ◌&&◌, ◌||◌}
use ocr_service.Text.{append}
use ocr_service.Json.{str, obj, num, arr, nil, cons, Dict, empty, entry, keys}
use ocr_service.Regex.{ends}
use ocr_service.Regex.Syntax.{same_letter}
use ocr_service.Masking.{mask_value, pii_redaction_processor}
use ocr_service.Masking.Events.{IsMasked, pii_redaction_processor-IsMasked}

abbrev is_digit : ℕ → Bool
is_digit c = leb b'0' c && leb c b'9'

abbrev is_word : ℕ → Bool
is_word c = (leb b'A' c && leb c b'Z') || (leb b'a' c && leb c b'z') || is_digit c

abbrev login : Dict
login = entry "event" (str "login of jane.doe@acme.com") (
    entry "meta" (obj (entry "items" (arr (cons (obj (entry "Token" (num "7") empty)) nil)) empty))
      empty)

-- The pattern of a card takes the space after the number.
email_and_card :
    mask_value is_word is_digit "to ann@x.io, card 4111 1111 1111 1111 now"
    ≡ "to [REDACTED], card [REDACTED]now"
unfolding mask_value append ends
email_and_card = refl

iban : mask_value is_word is_digit "DE89370400440532013000." ≡ "[REDACTED]."
unfolding mask_value append ends
iban = refl

nested_token :
    pii_redaction_processor is_word is_digit login
    ≡ entry "event" (str "login of [REDACTED]") (
        entry "meta"
          (obj
            (entry "items" (arr (cons (obj (entry "Token" (str "[REDACTED]") empty)) nil)) empty))
          empty)
unfolding pii_redaction_processor append ends same_letter
nested_token = refl

pii_redaction_processor-IsMasked_example :
    (keys (pii_redaction_processor is_word is_digit login) ≡ ("event" ∷ "meta" ∷ []))
    × IsMasked is_word is_digit (obj (pii_redaction_processor is_word is_digit login))
pii_redaction_processor-IsMasked_example = pii_redaction_processor-IsMasked is_word is_digit login
