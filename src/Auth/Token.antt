-- ===== src/Auth/Token.antt =====
-- JSON web tokens in app/services/auth.py: `verify_jwt`.

use ocr_service.Prelude.{ℕ, String, Bool, Option, none, some, List, [], if◌then◌else◌}
use ocr_service.Prelude.Outcome.{Outcome, ok, err}
use ocr_service.Text.{append}
use ocr_service.Json.{Json, Dict, get}
use ocr_service.Json.Values.{list_of, is_falsy, or_else}
use ocr_service.Auth.{
  AuthContext, AuthError, Caches, jwt_not_configured, missing_tenant, invalid_tenant, invalid_jwt,
  raised,
}

-- What is taken from the JWT library and from Python: `decode` checks the signature by a public key,
-- the issuer, the audience and the expiry; `parse_uuid` is `UUID(str(v))`, `none` for a `ValueError`;
-- `is_zero` says whether the literal of a number denotes zero; `show` is `str`.
pub record Jwt : Type 0 where
  pub decode : String → String → Outcome String Dict
  pub parse_uuid : Json → Option ℕ
  pub is_zero : String → Bool
  pub show : Json → String

-- `tuple(v)`
abbrev pub tuple_of : Json → Outcome AuthError (List Json)
tuple_of v = elim (list_of v) [ some vs ↦ ok vs | none ↦ err (raised "object is not iterable") ]

-- `claims.get(k)`
abbrev pub claim : String → Dict → Json
claim k claims = or_else Json.null (get k claims)

-- `_load_public_key`, and the text that it puts in the cache: `file` is the outcome of the look at
-- the path, `none` where nothing is there.
unfoldable pub load_public_key :
    Outcome String (Option String) → Option String → Outcome AuthError (Option String)
load_public_key file (some key) = ok (some key)
load_public_key (ok text) none = ok text
load_public_key (err message) none = err (raised message)

module _ (j : Jwt) where
  -- `claims.get("scopes") or []`
  abbrev pub claimed_scopes : Dict → Outcome AuthError (List Json)
  claimed_scopes claims =
      if is_falsy j.is_zero (claim "scopes" claims) then ok [] else tuple_of (claim "scopes" claims)

  abbrev pub token_context :
      ℕ → Dict → Outcome AuthError (List Json) → Outcome AuthError AuthContext
  token_context tenant_id claims (err e) = err e
  token_context tenant_id claims (ok scopes) = ok (record {
    tenant_id = tenant_id;
    principal = append "jwt:" (j.show (or_else (Json.str "unknown") (get "sub" claims)));
    scopes = scopes;
  })

  -- What follows the decoding.
  unfoldable pub read_claims : Dict → Outcome AuthError AuthContext
  unfolding append
  read_claims claims =
      if is_falsy j.is_zero (claim "tenant_id" claims)
      then err missing_tenant
      else elim (j.parse_uuid (claim "tenant_id" claims)) [
        | none ↦ err invalid_tenant
        | some tenant_id ↦ token_context tenant_id claims (claimed_scopes claims)
      ]

  -- `verify_jwt`, once there is a public key
  unfoldable pub decode_token : String → String → Outcome AuthError AuthContext
  unfolding read_claims
  decode_token token key = elim (j.decode token key) [
    | err message ↦ err (invalid_jwt message)
    | ok claims ↦ read_claims claims
  ]

  -- `verify_jwt`
  unfoldable pub verify_jwt :
      Outcome String (Option String) → String → Caches → Outcome AuthError AuthContext × Caches
  unfolding load_public_key decode_token
  verify_jwt file token c = elim (load_public_key file c.public_key) [
    | err e ↦ (err e, c)
    | ok none ↦ (err jwt_not_configured, c)
    | ok (some key) ↦ (decode_token token key, record c { public_key = some key })
  ]
