-- ===== src/Auth/Uncached.antt =====
-- Which API keys that are not cached pass the guard of a scope, in app/services/auth.py and
-- app/api/dependencies.py.

use ocr_service.Prelude.{
  [], ◌∷◌, map, any, eq_iff, ◌<◌, ◌↔◌, false, ◌∙◌, sym, ◌==◌, string_eq, Option, ◌≢◌, ℕ, ◌≡◌, ◌⊎◌,
  refl, String, true, none, some, List, nat_eq, arith, Bool-cases, inl, inr,
}
use ocr_service.Prelude.Outcome.{Outcome-cases, Outcome, ok, err}
use ocr_service.Text.{starts_with, append}
use ocr_service.Auth.{raised, Json, is_text, AuthContext, AuthError, Caches}
use ocr_service.Auth.Keys.{
  verdict, key_answer, scopes_of, is_set, is_expired, is_expired, ApiKey, resolve_api_key,
  is_refused, key_context, settle_key, Cached, Moment, api_key_prefix,
}
use ocr_service.Auth.Cache.{get_cached}
use ocr_service.Auth.Guard.{require_auth, require_scope, authenticate, World, check_credential}
use ocr_service.Auth.Access.{check_scope_ok, respond_ok}

-- Without an end, or before it.
abbrev pub Lasts : ℕ → Option ℕ → Type 0
Lasts date none = Unit
Lasts date (some expires_at) = date < expires_at

-- Neither revoked nor expired.
pub record IsGood (date : ℕ) (row : ApiKey) : Type 0 where
  pub unrevoked : row.revoked_at ≡ none
  pub unexpired : Lasts date row.expires_at

-- A text of a list.
abbrev pub Among : String → List String → Type 0
Among s [] = ⊥
Among s (t ∷ texts) = (t ≡ s) ⊎ Among s texts

-- The row lists the scope.
abbrev pub Grants : String → Option (List String) → Type 0
Grants scope none = ⊥
Grants scope (some scopes) = Among scope scopes

Lasts-is_expired : (date : ℕ) (o : Option ℕ) → Lasts date o → is_expired date o ≡ false
Lasts-is_expired date none h = refl
Lasts-is_expired date (some e) h = ground arith

is_expired-Lasts : (date : ℕ) (o : Option ℕ) → is_expired date o ≡ false → Lasts date o
is_expired-Lasts date none h = tt
is_expired-Lasts date (some e) h = ground arith

is_set-none : (o : Option ℕ) → is_set o ≡ false → o ≡ none
is_set-none none h = refl
is_set-none (some t) h = absurd (ground arith)

IsGood-accepted : (date : ℕ) (row : ApiKey) → IsGood date row → is_refused date row ≡ false
IsGood-accepted date row g = rw (g.unrevoked) (Lasts-is_expired date row.expires_at g.unexpired)

accepted-IsGood : (date : ℕ) (row : ApiKey) → is_refused date row ≡ false → IsGood date row
accepted-IsGood date row h = record {
  unrevoked = is_set-none row.revoked_at (ground arith);
  unexpired = is_expired-Lasts date row.expires_at (ground arith);
}

any-Among :
    (scope : String) (scopes : List String)
    → (any (is_text scope) (map Json.str scopes) ≡ true) ↔ Among scope scopes
any-Among scope [] = (λ h. absurd (ground arith), λ h. elim h [ ])
any-Among scope (s ∷ scopes) =
    let (there, back) = any-Among scope scopes in
    (
      λ h. elim (Bool-cases (s == scope)) [
        | inl e ↦ inl (ground (arith, eq_iff s scope))
        | inr e ↦ inr (there (ground arith))
      ],
      λ h. elim h [ inl e ↦ ground (arith, eq_iff s scope) | inr k ↦ ground (arith, back k) ],
    )

has_scope-Grants :
    (scope : String) (o : Option (List String))
    → (any (is_text scope) (scopes_of o) ≡ true) ↔ Grants scope o
has_scope-Grants scope none = (λ h. absurd (ground arith), λ h. elim h [ ])
has_scope-Grants scope (some scopes) = any-Among scope scopes

failed :
    (message : String) (ctx : AuthContext)
    → ◌≢◌ {A = Outcome AuthError AuthContext} (err (raised message)) (ok ctx)
failed message ctx h = ground arith

module _ (w : World) where
  bearer_key :
      (others : Cached → Cached) (at : Moment) (raw_key : String) (c : Caches)
      → starts_with raw_key api_key_prefix ≡ true
      → (authenticate w others at (some (append "Bearer " raw_key)) c).0
        ≡ (check_credential w others at raw_key c).0
  unfolding authenticate starts_with
  bearer_key others at String.[] c h = absurd (ground arith)
  bearer_key others at (String.◌∷◌ d raw_key) c h = refl

  -- The context of a row that is read, good, and lists the scope.
  pub record Granted (scope raw_key : String) (at : Moment) (ctx : AuthContext) : Type 0 where
    pub row : ApiKey
    pub read : w.rows at.read (w.hash raw_key) ≡ ok (some row)
    pub good : IsGood at.date row
    pub grants : Grants scope row.scopes
    pub context : ctx ≡ key_context raw_key row

  key_answer-Granted :
      (others : Cached → Cached) (scope : String) (at : Moment) (raw_key : String) (c : Caches)
      (ctx : AuthContext)
      → starts_with raw_key api_key_prefix ≡ true
      → (get_cached at.start (w.hash raw_key) c.keys).0 ≡ none
      → Granted scope raw_key at ctx
      → (require_scope w others scope at (some (append "Bearer " raw_key)) c).0 ≡ ok ctx
  unfolding require_scope require_auth check_credential resolve_api_key settle_key
  key_answer-Granted others scope at raw_key c ctx p m g =
      rw
        (
          g.context,
          require_scope,
          bearer_key others at raw_key c p,
          check_credential,
          p,
          resolve_api_key,
          m,
          settle_key,
          g.read,
          IsGood-accepted at.date g.row g.good,
          (has_scope-Grants scope g.row.scopes).1 g.grants,
        )
        refl

  -- What the row said, of a credential that is accepted.
  record Read (raw_key : String) (at : Moment) (ctx : AuthContext) : Type 0 where
    row : ApiKey
    read : w.rows at.read (w.hash raw_key) ≡ ok (some row)
    accepted : is_refused at.date row ≡ false
    context : ctx ≡ key_context raw_key row

  read_row :
      (raw_key : String) (at : Moment) (ctx : AuthContext) (o : Option ApiKey)
      → w.rows at.read (w.hash raw_key) ≡ ok o
      → key_answer (verdict at.date raw_key o) ≡ ok ctx
      → Read raw_key at ctx
  read_row raw_key at ctx none r h = absurd (ground arith)
  read_row raw_key at ctx (some row) r h = elim (Bool-cases (is_refused at.date row)) [
    | inl e ↦ absurd (ground arith)
    | inr e ↦ record { row = row; read = r; accepted = e; context = ground arith }
  ]

  check_credential-Read :
      (others : Cached → Cached) (at : Moment) (raw_key : String) (c : Caches) (ctx : AuthContext)
      → starts_with raw_key api_key_prefix ≡ true
      → (get_cached at.start (w.hash raw_key) c.keys).0 ≡ none
      → (check_credential w others at raw_key c).0 ≡ ok ctx
      → Read raw_key at ctx
  unfolding check_credential resolve_api_key settle_key
  check_credential-Read others at raw_key c ctx p m h =
      elim (Outcome-cases (w.rows at.read (w.hash raw_key))) [
        | inr (e, r) ↦
            absurd (failed e ctx (rw (check_credential, p, resolve_api_key, m, settle_key, r) at h))
        | inl (o, r) ↦
            read_row raw_key at ctx o r
              (rw (check_credential, p, resolve_api_key, m, settle_key, r) at h)
      ]

  Granted-key_answer :
      (others : Cached → Cached) (scope : String) (at : Moment) (raw_key : String) (c : Caches)
      (ctx : AuthContext)
      → starts_with raw_key api_key_prefix ≡ true
      → (get_cached at.start (w.hash raw_key) c.keys).0 ≡ none
      → (require_scope w others scope at (some (append "Bearer " raw_key)) c).0 ≡ ok ctx
      → Granted scope raw_key at ctx
  unfolding require_scope require_auth
  Granted-key_answer others scope at raw_key c ctx p m h =
      let (passed, scoped) = check_scope_ok w scope _ ctx h in
      let found =
        check_credential-Read others at raw_key c ctx p m
          (sym (bearer_key others at raw_key c p) ∙ respond_ok w _ ctx passed) in
      record {
        row = found.row;
        read = found.read;
        good = accepted-IsGood at.date found.row found.accepted;
        grants = (has_scope-Grants scope found.row.scopes).0 (rw (found.context) at scoped);
        context = found.context;
      }

  -- A request with an API key whose hash is not cached passes the guard of a scope exactly when the
  -- query reads a row that is not revoked, does not end or ends later than the date, and lists the
  -- scope; and the context is then that of the row.
  pub uncached_key_passes_iff :
      (others : Cached → Cached) (scope : String) (at : Moment) (raw_key : String) (c : Caches)
      (ctx : AuthContext)
      → starts_with raw_key api_key_prefix ≡ true
      → (get_cached at.start (w.hash raw_key) c.keys).0 ≡ none
      → ((require_scope w others scope at (some (append "Bearer " raw_key)) c).0 ≡ ok ctx)
        ↔ Granted scope raw_key at ctx
  uncached_key_passes_iff others scope at raw_key c ctx p m = (
    Granted-key_answer others scope at raw_key c ctx p m,
    key_answer-Granted others scope at raw_key c ctx p m,
  )
