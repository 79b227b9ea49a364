-- ===== src/Qdrant.antt =====
-- `QdrantService` of app/services/qdrant.py. The client is a parameter: the payloads of the points
-- that a query returns. Ids are texts; `show` is `str` of a JSON value that is not a text.
pub mod Guard
use ocr_service.Prelude.{
  ℕ, String, Bool, Option, none, some, List, [], ◌∷◌, ◌==◌, string_eq, if◌then◌else◌,
}
use ocr_service.Prelude.Outcome.{Outcome, ok, err}
use ocr_service.Text.{is_empty}
use ocr_service.Json.{Json, Dict, get, put}

pub data QdrantError : Type 0 where
  tenant_filter_missing cross_tenant_leakage : QdrantError

-- `full_payload`: the ids stand above whatever the payload says.
unfoldable pub full_payload : String → String → String → Dict → Dict
full_payload tenant_id schema_id document_id payload =
    put "document_id" (Json.str document_id)
      (put "schema_id" (Json.str schema_id) (put "tenant_id" (Json.str tenant_id) payload))

-- A condition of a filter: a key and the value that it must have.
pub record FieldCondition : Type 0 where
  pub key : String
  pub value : String

-- The filter of `search`, and that of `delete_by_document`.
abbrev pub search_filter : String → String → List FieldCondition
search_filter tenant_id schema_id =
    record { key = "tenant_id"; value = tenant_id }
    ∷ record { key = "schema_id"; value = schema_id }
    ∷ []

abbrev pub delete_filter : String → String → List FieldCondition
delete_filter tenant_id document_id =
    record { key = "tenant_id"; value = tenant_id }
    ∷ record { key = "document_id"; value = document_id }
    ∷ []

module _ (show : Json → String) where
  -- `str(payload.get("tenant_id"))`
  abbrev pub text_of : Option Json → String
  text_of none = "None"
  text_of (some (Json.str s)) = s
  text_of (some Json.null) = "None"
  text_of (some v) = show v

  abbrev pub owner : Dict → String
  owner payload = text_of (get "tenant_id" payload)

  -- The loop over the returned points.
  unfoldable pub check_points : String → List Dict → Outcome QdrantError (List Dict)
  check_points tenant_id [] = ok []
  check_points tenant_id (payload ∷ points) =
      let rest = check_points tenant_id points in
      if owner payload == tenant_id
      then elim rest [ ok payloads ↦ ok (payload ∷ payloads) | err e ↦ err e ]
      else err cross_tenant_leakage

  -- `search`; the query is the client's, under a filter and a limit.
  unfoldable pub search :
      (List FieldCondition → ℕ → List Dict) → String → String → ℕ → Outcome QdrantError (List Dict)
  unfolding check_points
  search query tenant_id schema_id limit =
      if is_empty tenant_id
      then err tenant_filter_missing
      else check_points tenant_id (query (search_filter tenant_id schema_id) limit)

-- `delete_by_document`: the filter of the call of the client.
unfoldable pub delete_by_document : String → String → Outcome QdrantError (List FieldCondition)
delete_by_document tenant_id document_id =
    if is_empty tenant_id
    then err tenant_filter_missing
    else ok (delete_filter tenant_id document_id)
