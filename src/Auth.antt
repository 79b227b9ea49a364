-- ===== src/Auth.antt =====
-- app/services/auth.py, and the context of app/api/context.py. SHA-256, the table behind
-- `auth_resolve_api_key` and the JWT library are parameters.
pub mod Cache
pub mod Keys
pub mod Token
pub mod Guard
pub mod Grounds
pub mod Admission
pub mod Signed
pub mod Access
pub mod Uncached
use ocr_service.Prelude.{
  ℕ, String, Bool, true, false, ◌||◌, Option, List, [], ◌∷◌, any, ◌==◌, string_eq,
}
use ocr_service.Json.{Json}
use Cache.{TtlCache}

-- `AuthContext`. The scopes are what a token claims, or the texts of a key's row.
pub record AuthContext : Type 0 where
  pub tenant_id : ℕ
  pub principal : String
  pub scopes : List Json

abbrev pub is_text : String → Json → Bool
is_text scope (Json.str s) = s == scope
is_text scope v = false

-- `AuthContext.has_scope`
abbrev pub has_scope : String → AuthContext → Bool
has_scope scope ctx = any (is_text scope) ctx.scopes

-- `AuthError` by its messages, and what the session, the file or `tuple` raise.
pub data AuthError : Type 0 where
  missing_header expected_bearer invalid_api_key jwt_not_configured missing_tenant invalid_tenant :
      AuthError
  invalid_jwt : String → AuthError
  raised : String → AuthError

-- The module's two caches.
pub record Caches : Type 0 where
  pub keys : TtlCache (Option AuthContext)
  pub public_key : Option String
