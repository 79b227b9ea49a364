-- ===== src/Confidence.antt =====
-- app/domain/confidence.py
pub mod Completeness
pub mod Bounds
use ocr_service.Prelude.{
  ℕ, String, Bool, true, false, not, Option, none, some, List, [], ◌∷◌, keep, length, if◌then◌else◌,
}
use ocr_service.Text.{is_empty, strip}
use ocr_service.Json.{Json, Dict, get}
use ocr_service.Float.{Float, ◌>=◌, min3}

-- `RoutingDecision` of app/api/schemas/common.py.
pub data RoutingDecision : Type 0 where
  high medium low : RoutingDecision

pub record ConfidenceBreakdown (F : Type 0) : Type 0 where
  pub llm : F
  pub completeness : F
  pub semantic : F
  pub guardrail_adjusted : F

-- `_is_present`, on what `extracted.get(f)` returns
unfoldable pub is_present : Option Json → Bool
unfolding strip
is_present none = false
is_present (some Json.null) = false
is_present (some (Json.str s)) = not (is_empty (strip s))
is_present (some v) = true

abbrev pub has : Dict → String → Bool
has extracted f = is_present (get f extracted)

-- `missing_required`
unfoldable pub missing_required : Dict → List String → List String
unfolding is_present
missing_required extracted required_fields = keep (λ f. not (has extracted f)) required_fields

module _ {F : Type 0} ⦃fl : Float F⦄ where
  -- `completeness_score`
  unfoldable pub completeness_score : Dict → List String → F
  unfolding is_present
  completeness_score extracted [] = fl.ratio 1 1
  completeness_score extracted (f ∷ fs) =
      fl.ratio (length (keep (has extracted) (f ∷ fs))) (length (f ∷ fs))

  -- `score`
  unfoldable pub score : F → F → F → F → ConfidenceBreakdown F
  score llm_self completeness semantic guardrail_multiplier =
      let base = min3 llm_self completeness semantic in
      record {
        llm = fl.round4 llm_self;
        completeness = fl.round4 completeness;
        semantic = fl.round4 semantic;
        guardrail_adjusted = fl.round4 (fl.mul base guardrail_multiplier);
      }

  -- `route`
  unfoldable pub route : F → F → F → RoutingDecision
  route confidence high_from medium_from =
      if confidence >= high_from then high else if confidence >= medium_from then medium else low
