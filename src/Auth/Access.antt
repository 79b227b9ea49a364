-- ===== src/Auth/Access.antt =====
-- Which requests the guards of app/api/dependencies.py let through.
use Prim.Native.Char.{Char, code}
use ocr_service.Prelude.{
  Option, ◌≢◌, ℕ, ◌≡◌, ◌⊎◌, refl, String, true, false, none, some, List, nat_eq, arith, Bool-cases,
  inl, inr,
}
use ocr_service.Prelude.Outcome.{Outcome, ok, err}
use ocr_service.Text.{partition, is_empty, starts_with, append}
use ocr_service.Auth.{has_scope, AuthContext, AuthError, Caches}
use ocr_service.Auth.Keys.{Cached, Moment, api_key_prefix, key_cache}
use ocr_service.Text.Laws.{append-partition}
use ocr_service.Auth.Signed.{Signed, verify_jwt-Signed}
use ocr_service.Api.{HttpError}
use ocr_service.Auth.Guard.{
  check_scope, require_auth, require_scope, respond, authenticate, World, is_bearer,
  check_credential,
}
use ocr_service.Auth.Grounds.{IsOrdered, Event, Admitted, play}
use ocr_service.Auth.Admission.{resolve_api_key-Admitted}

module _ (w : World) where
  -- The credential stands for the context at a time.
  pub Vouches : Caches → ℕ → String → AuthContext → Type 0
  Vouches c t credential ctx =
      ((starts_with credential api_key_prefix ≡ true)
        × Admitted w.hash w.rows t (w.hash credential) ctx)
      ⊎ ((starts_with credential api_key_prefix ≡ false) × Signed w c credential ctx)

  check_credential-Vouches :
      (earlier meanwhile : List Event) (at : Moment) (credential : String) (c : Caches)
      (ctx : AuthContext)
      → IsOrdered at
      → c.keys ≡ play w.hash w.rows earlier key_cache
      → (check_credential w (play w.hash w.rows meanwhile) at credential c).0 ≡ ok ctx
      → Vouches c at.start credential ctx
  unfolding check_credential Vouches
  check_credential-Vouches earlier meanwhile at credential c ctx i k h =
      elim (Bool-cases (starts_with credential api_key_prefix)) [
        | inl f ↦ inl (
          f,
          resolve_api_key-Admitted w.hash w.rows earlier meanwhile at credential ctx i
              (rw (check_credential, f, k) at h),
        )
        | inr f ↦ inr (f, verify_jwt-Signed w c credential ctx (rw (check_credential, f) at h))
      ]

  -- A header with the scheme and a credential that stands for the context.
  pub record Authentic (c : Caches) (t : ℕ) (header : String) (ctx : AuthContext) : Type 0 where
    pub scheme : String
    pub space : Char
    pub credential : String
    pub parts : header ≡ append scheme (String.◌∷◌ space credential)
    pub is_space : code space ≡ b' '
    pub bearer : is_bearer scheme ≡ true
    pub vouched : Vouches c t credential ctx

  authenticate-Authentic :
      (earlier meanwhile : List Event) (at : Moment) (header : String) (c : Caches)
      (ctx : AuthContext)
      → IsOrdered at
      → c.keys ≡ play w.hash w.rows earlier key_cache
      → (authenticate w (play w.hash w.rows meanwhile) at (some header) c).0 ≡ ok ctx
      → Authentic c at.start header ctx
  unfolding authenticate
  authenticate-Authentic earlier meanwhile at header c ctx i k h =
      elim (Bool-cases (is_empty header)) [
        | inl f ↦ absurd (ground arith)
        | inr f ↦ (elim (Bool-cases (is_bearer (partition b' ' header).0)) [
          | inr g ↦ absurd (ground arith)
          | inl g ↦ (elim (Bool-cases (is_empty (partition b' ' header).1)) [
            | inl n ↦ absurd (ground arith)
            | inr n ↦
                let (space, code_space, parts) = append-partition b' ' header n in
                record {
                  scheme = (partition b' ' header).0;
                  space = space;
                  credential = (partition b' ' header).1;
                  parts = parts;
                  is_space = code_space;
                  bearer = g;
                  vouched =
                      check_credential-Vouches earlier meanwhile at (partition b' ' header).1 c ctx
                        i k (rw (authenticate, f, g, n) at h);
                }
          ])
        ])
      ]

  authenticate-none :
      (others : Cached → Cached) (at : Moment) (c : Caches) (ctx : AuthContext)
      → (authenticate w others at none c).0 ≢ ok ctx
  unfolding authenticate
  authenticate-none others at c ctx h = ground arith

  pub respond_ok :
      (o : Outcome AuthError AuthContext) (ctx : AuthContext) → respond o ≡ ok ctx → o ≡ ok ctx
  respond_ok (err e) ctx h = absurd (ground arith)
  respond_ok (ok d) ctx h = ground arith

  pub ok_injective :
      (d e : AuthContext) → ◌≡◌ {A = Outcome HttpError AuthContext} (ok d) (ok e) → d ≡ e
  ok_injective d e h = ground arith

  pub check_scope_ok :
      (scope : String) (o : Outcome HttpError AuthContext) (ctx : AuthContext)
      → check_scope scope o ≡ ok ctx
      → (o ≡ ok ctx) × (has_scope scope ctx ≡ true)
  check_scope_ok scope (err e) ctx h = absurd (ground arith)
  check_scope_ok scope (ok d) ctx h = elim (Bool-cases (has_scope scope d)) [
    | inl f ↦ (rw f at h, rw (← ok_injective d ctx (rw f at h)) f)
    | inr f ↦ absurd (ground arith)
  ]

  -- A request passes the guard of a scope only with a header that is a bearer scheme, a space and a
  -- credential, in a context that has the scope. The credential is an API key, and the context is that
  -- of a row that was good at most the time to live before; or it is a token that the JWT library
  -- accepts under the public key, and the tenant of the context is the one that it claims.
  pub require_scope-Authentic :
      (scope : String) (earlier meanwhile : List Event) (at : Moment) (header : Option String)
      (c : Caches) (ctx : AuthContext)
      → IsOrdered at
      → c.keys ≡ play w.hash w.rows earlier key_cache
      → (require_scope w (play w.hash w.rows meanwhile) scope at header c).0 ≡ ok ctx
      → (has_scope scope ctx ≡ true)
        × ((text : String) × (header ≡ some text) × Authentic c at.start text ctx)
  unfolding require_scope require_auth
  require_scope-Authentic scope earlier meanwhile at none c ctx i k h = absurd (
      authenticate-none (play w.hash w.rows meanwhile) at c ctx
        (respond_ok _ ctx ((check_scope_ok scope _ ctx h).0)))
  require_scope-Authentic scope earlier meanwhile at (some text) c ctx i k h =
      let (r, s) = check_scope_ok scope _ ctx h in
      (
        s,
        (
          text,
          refl,
          authenticate-Authentic earlier meanwhile at text c ctx i k (respond_ok _ ctx r),
        ),
      )
