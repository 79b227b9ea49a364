-- ===== src/Auth/Guard.antt =====
-- `authenticate` of app/services/auth.py, and the guards of app/api/dependencies.py.
use ocr_service.Prelude.{
  ℕ, ◌+◌, String, Bool, true, false, not, ◌&&◌, ◌||◌, Option, none, some, List, [], ◌∷◌, map, leb,
  ◌==◌, nat_eq, if◌then◌else◌,
}
use ocr_service.Prelude.Outcome.{Outcome, ok, err}
use ocr_service.Text.{codes, partition, starts_with, is_empty}
use ocr_service.Auth.{
  AuthContext, AuthError, Caches, missing_header, expected_bearer, raised, has_scope,
}
use ocr_service.Auth.Cache.{TtlCache}
use ocr_service.Auth.Keys.{ApiKey, Moment, resolve_api_key, api_key_prefix}
use ocr_service.Auth.Token.{Jwt, verify_jwt}
use ocr_service.Api.{HttpError, unauthorized_401, forbidden_403, server_error}

-- One character of `scheme.lower()`. Outside ASCII nothing is lowered to a letter of "bearer".
abbrev pub lower_code : ℕ → ℕ
lower_code c = if leb 65 c && leb c 90 then c + 32 else c

abbrev pub equal_codes : List ℕ → List ℕ → Bool
equal_codes [] [] = true
equal_codes [] (d ∷ ds) = false
equal_codes (c ∷ cs) [] = false
equal_codes (c ∷ cs) (d ∷ ds) = c == d && equal_codes cs ds

-- `scheme.lower() == "bearer"`
abbrev pub is_bearer : String → Bool
is_bearer scheme = equal_codes (map lower_code (codes scheme)) (codes "bearer")

-- What a request meets: the hash, the table of keys at each time, the JWT library, the file with the
-- public key.
pub record World : Type 0 where
  pub hash : String → String
  pub rows : ℕ → String → Outcome String (Option ApiKey)
  pub jwt : Jwt
  pub file : Outcome String (Option String)

abbrev pub keep_keys :
    Caches
    → Outcome AuthError AuthContext × TtlCache (Option AuthContext)
    → Outcome AuthError AuthContext × Caches
keep_keys c (o, keys) = (o, record c { keys = keys })

-- `require_auth` answers an `AuthError`; FastAPI answers the others.
abbrev pub auth_response : AuthError → HttpError
auth_response (raised message) = server_error message
auth_response e = unauthorized_401

abbrev pub respond : Outcome AuthError AuthContext → Outcome HttpError AuthContext
respond (ok ctx) = ok ctx
respond (err e) = err (auth_response e)

abbrev pub check_scope : String → Outcome HttpError AuthContext → Outcome HttpError AuthContext
check_scope scope (err e) = err e
check_scope scope (ok ctx) = if has_scope scope ctx then ok ctx else err forbidden_403

module _ (w : World) (others : TtlCache (Option AuthContext) → TtlCache (Option AuthContext)) where
  -- What `authenticate` does with a credential.
  unfoldable pub check_credential :
      Moment → String → Caches → Outcome AuthError AuthContext × Caches
  unfolding starts_with resolve_api_key verify_jwt
  check_credential at credential c =
      if starts_with credential api_key_prefix
      then keep_keys c (resolve_api_key w.hash w.rows others at credential c.keys)
      else verify_jwt w.jwt w.file credential c

  -- `authenticate`
  unfoldable pub authenticate :
      Moment → Option String → Caches → Outcome AuthError AuthContext × Caches
  unfolding partition check_credential
  authenticate at none c = (err missing_header, c)
  authenticate at (some header) c =
      let (scheme, credential) = partition b' ' header in
      if is_empty header
      then (err missing_header, c)
      else if not (is_bearer scheme) || is_empty credential
      then (err expected_bearer, c)
      else check_credential at credential c

  -- `require_auth`
  unfoldable pub require_auth :
      Moment → Option String → Caches → Outcome HttpError AuthContext × Caches
  unfolding authenticate
  require_auth at header c = let (o, d) = authenticate at header c in (respond o, d)

  -- `require_scope`
  unfoldable pub require_scope :
      String → Moment → Option String → Caches → Outcome HttpError AuthContext × Caches
  unfolding require_auth
  require_scope scope at header c =
      let (o, d) = require_auth at header c in (check_scope scope o, d)
