-- ===== src/Qdrant/Guard.antt =====
-- The guard against leaks between tenants in app/services/qdrant.py.
use ocr_service.Prelude.{
  sym, ap, any, not, if◌then◌else◌, ℕ, String, ◌≡◌, refl, ◌∙◌, Bool, true, false, List, [], ◌∷◌,
  arith, All, eq_iff, Bool-cases, inl, inr, ◌==◌, string_eq,
}
use ocr_service.Prelude.Outcome.{Outcome, ok, err}
use ocr_service.Text.{is_empty}
use ocr_service.Json.{Json, Dict, put}
use ocr_service.Json.Laws.{get-put}
use ocr_service.Qdrant.{
  QdrantError, full_payload, owner, FieldCondition, check_points, cross_tenant_leakage,
  tenant_filter_missing, text_of, search, search_filter,
}

payloads_or : List Dict → Outcome QdrantError (List Dict) → List Dict
payloads_or d (ok ps) = ps
payloads_or d (err e) = d

-- When a search with its two tests returns.
decided :
    (b c : Bool) (ps payloads : List Dict)
    → ◌≡◌ {A = Outcome QdrantError (List Dict)}
        (if b then err tenant_filter_missing else if c then err cross_tenant_leakage else ok ps)
        (ok payloads)
    → (b ≡ false) × (c ≡ false) × (payloads ≡ ps)
unfolding payloads_or
decided true c ps payloads h = absurd (ground arith)
decided false true ps payloads h = absurd (ground arith)
decided false false ps payloads h = (refl, refl, sym (ap (payloads_or ps) h))

through :
    (b : Bool) (p : Dict) (points : List Dict)
    → elim (if b then err cross_tenant_leakage else ok points)
        as (λ _. Outcome QdrantError (List Dict)) [
          | ok payloads ↦ ok (p ∷ payloads)
          | err e ↦ err e
        ]
      ≡ (if b then err cross_tenant_leakage else ok (p ∷ points))
through true p points = refl
through false p points = refl

module _ (show : Json → String) where
  -- Whether a point belongs to another tenant.
  abbrev pub is_foreign : String → Dict → Bool
  is_foreign tenant_id payload = not (owner show payload == tenant_id)

  check_points_lem :
      (tenant_id : String) (points : List Dict)
      → check_points show tenant_id points
        ≡ (if any (is_foreign tenant_id) points then err cross_tenant_leakage else ok points)
  unfolding check_points
  check_points_lem tenant_id [] = refl
  check_points_lem tenant_id (p ∷ points) = elim (Bool-cases (owner show p == tenant_id)) [
    | inr h ↦ rw h refl
    | inl h ↦
        rw (h, check_points_lem tenant_id points)
          (through (any (is_foreign tenant_id) points) p points)
  ]

  own_points :
      (tenant_id : String) (points : List Dict)
      → any (is_foreign tenant_id) points ≡ false
      → All (λ p. owner show p ≡ tenant_id) points
  own_points tenant_id [] h = tt
  own_points tenant_id (p ∷ points) h =
      (ground (arith, eq_iff (owner show p) tenant_id), own_points tenant_id points (ground arith))

  -- What `search` returns are the points that the client's query returns under the filter of the
  -- tenant and the schema, and every one of them belongs to the tenant, which is named.
  pub search-own :
      (query : List FieldCondition → ℕ → List Dict) (tenant_id schema_id : String) (limit : ℕ)
      (payloads : List Dict)
      → search show query tenant_id schema_id limit ≡ ok payloads
      → (is_empty tenant_id ≡ false)
        × (payloads ≡ query (search_filter tenant_id schema_id) limit)
        × All (λ p. owner show p ≡ tenant_id) payloads
  unfolding search
  search-own query tenant_id schema_id limit payloads h =
      let points = query (search_filter tenant_id schema_id) limit in
      let (named, own, same) =
        decided (is_empty tenant_id) (any (is_foreign tenant_id) points) points payloads (
          sym (
            ap (λ r. if is_empty tenant_id then err tenant_filter_missing else r)
              (check_points_lem tenant_id points))
          ∙ h) in
      (named, same, rw (sym same) at (own_points tenant_id points own))

  -- A stored example bears the ids of its caller, whatever its payload says.
  pub owner-full_payload :
      (tenant_id schema_id document_id : String) (payload : Dict)
      → owner show (full_payload tenant_id schema_id document_id payload) ≡ tenant_id
  unfolding full_payload
  owner-full_payload tenant_id schema_id document_id payload =
      let own = put "tenant_id" (Json.str tenant_id) payload in
      ap (text_of show) (
        get-put "document_id" "tenant_id" (Json.str document_id)
          (put "schema_id" (Json.str schema_id) own)
        ∙ get-put "schema_id" "tenant_id" (Json.str schema_id) own
        ∙ get-put "tenant_id" "tenant_id" (Json.str tenant_id) payload)
