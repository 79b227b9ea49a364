-- ===== src/Auth/Signed.antt =====
-- Which tokens `verify_jwt` of app/services/auth.py accepts.

use ocr_service.Prelude.{
  ℕ, ◌≡◌, ◌∙◌, ap, String, none, some, List, nat_eq, arith, Bool-cases, Option-cases, inl, inr,
}
use ocr_service.Prelude.Outcome.{Outcome, ok, err, Outcome-cases}
use ocr_service.Json.{Json, Dict}
use ocr_service.Auth.{AuthContext, AuthError, Caches}
use ocr_service.Json.Values.{is_falsy}
use ocr_service.Auth.Token.{
  claim, load_public_key, verify_jwt, decode_token, read_claims, token_context, claimed_scopes,
}
use ocr_service.Auth.Guard.{World}

-- The claims of a token that the JWT library accepts under the public key, for the tenant.
pub record Signed (w : World) (c : Caches) (token : String) (ctx : AuthContext) : Type 0 where
  pub key : String
  pub claims : Dict
  pub loaded : load_public_key w.file c.public_key ≡ ok (some key)
  pub decoded : w.jwt.decode token key ≡ ok claims
  pub tenant : w.jwt.parse_uuid (claim "tenant_id" claims) ≡ some ctx.tenant_id

module _ (w : World) where
  token_context-tenant :
      (tenant_id : ℕ) (claims : Dict) (o : Outcome AuthError (List Json)) (ctx : AuthContext)
      → token_context w.jwt tenant_id claims o ≡ ok ctx
      → tenant_id ≡ ctx.tenant_id
  token_context-tenant tenant_id claims (err e) ctx h = absurd (ground arith)
  token_context-tenant tenant_id claims (ok scopes) ctx h = ground arith

  read_claims-tenant :
      (claims : Dict) (ctx : AuthContext)
      → read_claims w.jwt claims ≡ ok ctx
      → w.jwt.parse_uuid (claim "tenant_id" claims) ≡ some ctx.tenant_id
  unfolding read_claims
  read_claims-tenant claims ctx h =
      elim (Bool-cases (is_falsy w.jwt.is_zero (claim "tenant_id" claims))) [
        | inl f ↦ absurd (ground arith)
        | inr f ↦ (elim (Option-cases (w.jwt.parse_uuid (claim "tenant_id" claims))) [
          | inl g ↦ absurd (ground arith)
          | inr (tenant_id, g) ↦
              g
              ∙ ap some (
                  token_context-tenant tenant_id claims (claimed_scopes w.jwt claims) ctx
                    (rw (read_claims, f, g) at h))
        ])
      ]

  pub verify_jwt-Signed :
      (c : Caches) (token : String) (ctx : AuthContext)
      → (verify_jwt w.jwt w.file token c).0 ≡ ok ctx
      → Signed w c token ctx
  unfolding verify_jwt decode_token
  verify_jwt-Signed c token ctx h = elim (Outcome-cases (load_public_key w.file c.public_key)) [
    | inr (e, f) ↦ absurd (ground arith)
    | inl (none, f) ↦ absurd (ground arith)
    | inl (some key, f) ↦ (elim (Outcome-cases (w.jwt.decode token key)) [
      | inr (e, g) ↦ absurd (ground arith)
      | inl (claims, g) ↦ record {
        key = key;
        claims = claims;
        loaded = f;
        decoded = g;
        tenant = read_claims-tenant claims ctx (rw (verify_jwt, f, decode_token, g) at h);
      }
    ])
  ]
