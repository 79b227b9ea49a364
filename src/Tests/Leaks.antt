-- ===== src/Tests/Leaks.antt =====
-- The guard of app/services/qdrant.py at work.
use ocr_service.Prelude.{ℕ, String, ◌≡◌, refl, List, [], ◌∷◌}
use ocr_service.Prelude.Outcome.{ok, err}
use ocr_service.Json.{Json, Dict, empty, entry}
use ocr_service.Qdrant.{FieldCondition, cross_tenant_leakage, search}

abbrev repr : Json → String
repr v = "?"

abbrev example : Dict
example = entry "source" (Json.str "seed") (entry "tenant_id" (Json.str "t7") empty)

abbrev stored : List FieldCondition → ℕ → List Dict
stored conditions limit = example ∷ []

found : search repr stored "t7" "s3" 3 ≡ ok (example ∷ [])
unfolding search
found = refl

leak : search repr stored "t8" "s3" 3 ≡ err cross_tenant_leakage
unfolding search
leak = refl
