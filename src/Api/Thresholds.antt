-- ===== src/Api/Thresholds.antt =====
-- The thresholds that app/api/routers/schemas.py lets into the registry.
use ocr_service.Prelude.{◌≡◌, true, false}
use ocr_service.Float.{Float, ◌<=◌}
use ocr_service.Store.{Db, Schema, schema_row, document_row}
use ocr_service.Store.Laws.{Seen}

module _ {F : Type 0} ⦃fl : Float F⦄ where
  -- Both thresholds are in [0, 1], and the lower one is below the higher one.
  pub record IsTiered (medium high : F) : Type 0 where
    pub above : (fl.ratio 0 1 <= medium) ≡ true
    pub below : (high <= fl.ratio 1 1) ≡ true
    pub apart : (high <= medium) ≡ false

  -- Such thresholds, as the database rounds those of a request that had them too.
  pub record IsStored (medium high : F) : Type 0 where
    pub tiered : IsTiered medium high
    pub asked_medium : F
    pub asked_high : F
    pub asked : IsTiered asked_medium asked_high
    pub rounded : (medium ≡ fl.round3 asked_medium) × (high ≡ fl.round3 asked_high)

  abbrev Tiered : Schema F → Type 0
  Tiered r = IsStored r.confidence_medium r.confidence_high

  -- Every schema that a session can see has such thresholds.
  pub AllTiered : Db F → Type 0
  AllTiered db = Seen (λ r. IsStored r.confidence_medium r.confidence_high) db.schemas
