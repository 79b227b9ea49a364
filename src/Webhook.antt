-- ===== src/Webhook.antt =====
-- app/domain/webhook.py. `json.dumps` with sorted keys and HMAC-SHA256 are parameters.
use ocr_service.Prelude.{String, ◌≡◌, true, Bool, ◌==◌, string_eq, eq_iff, arith}
use ocr_service.Json.{Dict}
use ocr_service.Text.{append}

-- What the module takes from its libraries: the canonical text of a payload, and the hexadecimal
-- digest of a body under a secret.
pub record Signer : Type 0 where
  pub dumps : Dict → String
  pub mac : String → String → String

-- What `build_signed_request` returns: the body, and the header `X-OCR-Signature`.
pub record SignedRequest : Type 0 where
  pub body : String
  pub signature : String

module _ (s : Signer) where
  -- `sign`
  unfoldable pub sign : String → String → String
  unfolding append
  sign body secret = append "sha256=" (s.mac secret body)

  -- `verify`
  unfoldable pub verify : String → String → String → Bool
  unfolding sign
  verify body secret signature = sign body secret == signature

  -- `serialize_payload` and `build_signed_request`
  unfoldable pub build_signed_request : Dict → String → SignedRequest
  unfolding sign
  build_signed_request payload secret =
      let body = s.dumps payload in record { body = body; signature = sign body secret }

  pub verify-sign : (body secret : String) → verify body secret (sign body secret) ≡ true
  unfolding verify
  verify-sign body secret = ground (arith, eq_iff (sign body secret) (sign body secret))
