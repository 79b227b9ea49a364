-- ===== src/Auth/Keys.antt =====
-- API keys in app/services/auth.py: `resolve_api_key`.
use ocr_service.Prelude.{
  ℕ, String, Bool, true, false, ◌||◌, Option, none, some, List, [], map, leb, if◌then◌else◌,
}
use ocr_service.Prelude.Outcome.{Outcome, ok, err}
use ocr_service.Text.{append, take_chars, drop_chars}
use ocr_service.Json.{Json}
use ocr_service.Auth.{AuthContext, AuthError, invalid_api_key, raised}
use ocr_service.Auth.Cache.{TtlCache, new_cache, get_cached, set_cached}

abbrev pub api_key_prefix : String
api_key_prefix = "ocr_"

abbrev pub cache_ttl_s : ℕ
cache_ttl_s = 60

-- `_key_cache`
abbrev pub key_cache : TtlCache (Option AuthContext)
key_cache = new_cache cache_ttl_s 1024

-- A row of `auth_resolve_api_key`.
pub record ApiKey : Type 0 where
  pub tenant_id : ℕ
  pub scopes : Option (List String)
  pub expires_at : Option ℕ
  pub revoked_at : Option ℕ

-- `generate_api_key`: the key, its prefix and its hash, for a random token.
unfoldable pub generate_api_key : (String → String) → String → String × String × String
unfolding append
generate_api_key hash token =
    let raw_key = append api_key_prefix token in (raw_key, take_chars 8 token, hash raw_key)

-- When a resolution begins, reads the row and ends, by `time.monotonic()`, and the date at its end.
pub record Moment : Type 0 where
  pub start : ℕ
  pub read : ℕ
  pub finish : ℕ
  pub date : ℕ

-- `_expired`
abbrev pub is_expired : ℕ → Option ℕ → Bool
is_expired date none = false
is_expired date (some expires_at) = leb expires_at date

abbrev pub is_set : Option ℕ → Bool
is_set none = false
is_set (some t) = true

-- `row.revoked_at is not None or _expired(row.expires_at)`
abbrev pub is_refused : ℕ → ApiKey → Bool
is_refused date row = is_set row.revoked_at || is_expired date row.expires_at

abbrev pub scopes_of : Option (List String) → List Json
scopes_of none = []
scopes_of (some scopes) = map Json.str scopes

-- `raw_key[len(_API_KEY_PREFIX) : len(_API_KEY_PREFIX) + 8]`
abbrev pub key_context : String → ApiKey → AuthContext
key_context raw_key row = record {
  tenant_id = row.tenant_id;
  principal = append "apikey:" (take_chars 8 (drop_chars 4 raw_key));
  scopes = scopes_of row.scopes;
}

-- What the row says of the key, and is put in the cache.
abbrev pub verdict : ℕ → String → Option ApiKey → Option AuthContext
verdict date raw_key none = none
verdict date raw_key (some row) =
    if is_refused date row then none else some (key_context raw_key row)

abbrev pub key_answer : Option AuthContext → Outcome AuthError AuthContext
key_answer none = err invalid_api_key
key_answer (some ctx) = ok ctx

abbrev pub Cached : Type 0
Cached = TtlCache (Option AuthContext)

module _ (hash : String → String) (rows : ℕ → String → Outcome String (Option ApiKey)) where
  -- What follows the query: the answer, which is also put in the cache.
  unfoldable pub settle_key : Moment → String → Cached → Outcome AuthError AuthContext × Cached
  unfolding set_cached append
  settle_key at raw_key c = elim (rows at.read (hash raw_key)) [
    | err message ↦ (err (raised message), c)
    | ok row ↦
        let found = verdict at.date raw_key row in
        (key_answer found, set_cached at.finish (hash raw_key) found c)
  ]

  -- `resolve_api_key`: while the query is awaited, other requests change the cache by `others`.
  unfoldable pub resolve_api_key :
      (Cached → Cached) → Moment → String → Cached → Outcome AuthError AuthContext × Cached
  unfolding get_cached settle_key
  resolve_api_key others at raw_key c =
      let (cached, d) = get_cached at.start (hash raw_key) c in
      elim cached [ some value ↦ (key_answer value, d) | none ↦ settle_key at raw_key (others d) ]
