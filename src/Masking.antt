-- ===== src/Masking.antt =====
-- app/observability/pii_filter.py: what is masked in a log event before it is written. A tuple of
-- Python is an array of `Json`, and so is a list.
pub mod Emails
pub mod Cuts
pub mod Events
use Prim.Native.Char.{code}
use ocr_service.Prelude.{
  ℕ, zero, suc, String, Bool, true, false, ◌&&◌, ◌||◌, Option, none, some, List, leb, ◌==◌, nat_eq,
  if◌then◌else◌,
}
use ocr_service.Text.{codes, append}
use ocr_service.Json.{Json, null, bool, num, str, arr, obj, Items, nil, cons, Dict, empty, entry}
use ocr_service.Regex.{Regex, one, star, boundary, ends, match_at, search_text}
use ocr_service.Regex.Syntax.{lit, opt, ◌▸◌, ◌∣◌, times, up_to}

-- `REDACTED`
abbrev pub redacted : String
redacted = "[REDACTED]"

abbrev is_upper : ℕ → Bool
is_upper c = leb b'A' c && leb c b'Z'

-- `[A-Za-z]`
abbrev pub is_letter : ℕ → Bool
is_letter c = is_upper c || (leb b'a' c && leb c b'z')

-- `[0-9]`
abbrev is_figure : ℕ → Bool
is_figure c = leb b'0' c && leb c b'9'

-- `[A-Za-z0-9.-]`
unfoldable pub is_domain : ℕ → Bool
is_domain c = is_letter c || is_figure c || c == b'.' || c == b'-'

-- `[A-Za-z0-9._%+-]`
unfoldable pub is_local : ℕ → Bool
unfolding is_domain
is_local c = is_domain c || c == b'_' || c == b'%' || c == b'+'

-- `_EMAIL_RE`
unfoldable pub email_re : Regex
unfolding is_domain is_local
email_re =
    one is_local
    ▸ star (one is_local)
    ▸ one (λ c. c == b'@')
    ▸ one is_domain
    ▸ star (one is_domain)
    ▸ one (λ c. c == b'.')
    ▸ one is_letter
    ▸ one is_letter
    ▸ star (one is_letter)

-- `_SENSITIVE_KEY_RE`, under `re.IGNORECASE`
unfoldable pub sensitive_key_re : Regex
sensitive_key_re =
    lit "password"
    ∣ lit "secret"
    ∣ lit "token"
    ∣ (lit "api" ▸ opt (one (λ c. c == b'_' || c == b'-')) ▸ lit "key")
    ∣ lit "authorization"
    ∣ lit "webhook_secret"
    ∣ lit "key_hash"
    ∣ lit "pii"
    ∣ lit "ssn"
    ∣ lit "tax_id"
    ∣ lit "iban"
    ∣ lit "card"
    ∣ lit "cvv"

-- The length of a match, unless the match is empty: none of the patterns matches the empty text.
abbrev pub match_length : Option (List ℕ × ℕ) → ℕ
match_length none = zero
match_length (some (s, n)) = n

abbrev is_found : Option (List ℕ × ℕ) → Bool
is_found none = false
is_found (some m) = true

-- `\w` and `\d` are parameters: the letters and digits of Unicode.
module _ (is_word is_digit : ℕ → Bool) where
  -- `_IBAN_RE`
  unfoldable pub iban_re : Regex
  iban_re =
      boundary
      ▸ times 2 (one is_upper)
      ▸ times 2 (one is_digit)
      ▸ times 10 (one (λ c. is_upper c || is_figure c))
      ▸ up_to 20 (one (λ c. is_upper c || is_figure c))
      ▸ boundary

  abbrev card_digit : Regex
  card_digit = one is_digit ▸ opt (one (λ c. c == b' ' || c == b'-'))

  -- `_CARD_RE`
  unfoldable pub card_re : Regex
  card_re = boundary ▸ times 13 card_digit ▸ up_to 6 card_digit ▸ boundary

-- The length of the match that begins here, zero if there is none.
unfoldable pub starts : (ℕ → Bool) → Regex → Option ℕ → String → ℕ
unfolding ends
starts w r before s = match_length (match_at w r before (codes s))

module _ (w : ℕ → Bool) (r : Regex) where
  -- `r.sub(REDACTED, s)` from a place on, where `n` characters of the last match are left.
  unfoldable pub sub_from : Option ℕ → ℕ → String → String
  unfolding starts append
  sub_from before n String.[] = String.[]
  sub_from before (suc n) (String.◌∷◌ c s) = sub_from (some (code c)) n s
  sub_from before zero (String.◌∷◌ c s) = elim (starts w r before (String.◌∷◌ c s)) [
    | zero ↦ String.◌∷◌ c (sub_from (some (code c)) zero s)
    | suc n ↦ append redacted (sub_from (some (code c)) n s)
  ]

  unfoldable pub sub : String → String
  unfolding sub_from
  sub s = sub_from none zero s

-- `_SENSITIVE_KEY_RE.search(str(k))`
unfoldable pub is_sensitive : (ℕ → Bool) → String → Bool
unfolding search_text sensitive_key_re
is_sensitive w k = is_found (search_text w sensitive_key_re (codes k))

module _ (is_word is_digit : ℕ → Bool) where
  -- `_mask_value`
  unfoldable pub mask_value : String → String
  unfolding sub email_re iban_re card_re
  mask_value s =
      sub is_word (card_re is_word is_digit)
        (sub is_word (iban_re is_word is_digit) (sub is_word email_re s))

  unfoldable mutual
    unfolding mask_value is_sensitive

    -- `_scrub`
    pub scrub : Json → Json
    scrub null = null
    scrub (bool b) = bool b
    scrub (num n) = num n
    scrub (str s) = str (mask_value s)
    scrub (arr vs) = arr (scrub_items vs)
    scrub (obj d) = obj (scrub_dict d)

    pub scrub_items : Items → Items
    scrub_items nil = nil
    scrub_items (cons v vs) = cons (scrub v) (scrub_items vs)

    pub scrub_dict : Dict → Dict
    scrub_dict empty = empty
    scrub_dict (entry k v d) =
        let hidden = scrub v in
        entry k (if is_sensitive is_word k then str redacted else hidden) (scrub_dict d)

  -- `pii_redaction_processor`
  unfoldable pub pii_redaction_processor : Dict → Dict
  unfolding scrub_dict
  pii_redaction_processor event = scrub_dict event
