-- ===== src/Guardrails/Penalty.antt =====
-- The multiplier that the guardrails of app/domain/guardrails hand on.
use ocr_service.Prelude.{
  Option-cases, Bool, if◌then◌else◌, ℕ, String, inl, inr, true, false, List, [], ◌∷◌, arith, All,
}
use ocr_service.Float.{Float, IsUnit}
use ocr_service.Float.Laws.{mul-IsUnit, round4-IsUnit, one-IsUnit, ratio-IsUnit}
use ocr_service.Guardrails.{
  search_text, codes, patterns, Regex, Unicode, GuardrailOutcome, run_patterns, run_injection,
  run_text_quality, run_guardrails, multiply_warnings, aggregate_multiplier, is_warn,
}

module _ {F : Type 0} ⦃fl : Float F⦄ where
  if-IsUnit : (b : Bool) (x y : F) → IsUnit x → IsUnit y → IsUnit (if b then x else y)
  if-IsUnit true x y h k = h
  if-IsUnit false x y h k = k

  multiply_warnings-IsUnit :
      (acc : F) (os : List (GuardrailOutcome F))
      → IsUnit acc
      → All (λ o. IsUnit o.confidence_multiplier) os
      → IsUnit (multiply_warnings acc os)
  unfolding multiply_warnings
  multiply_warnings-IsUnit acc [] h k = h
  multiply_warnings-IsUnit acc (o ∷ os) h k =
      multiply_warnings-IsUnit
        (if is_warn o.result then fl.mul acc o.confidence_multiplier else acc) os
        (if-IsUnit (is_warn o.result) _ acc (mul-IsUnit acc o.confidence_multiplier h k.0) h) k.1

  -- Multipliers in [0, 1] aggregate to one in [0, 1].
  aggregate-IsUnit :
      (os : List (GuardrailOutcome F))
      → All (λ o. IsUnit o.confidence_multiplier) os
      → IsUnit (aggregate_multiplier os)
  unfolding aggregate_multiplier
  aggregate-IsUnit os h =
      round4-IsUnit (multiply_warnings (fl.ratio 1 1) os)
        (multiply_warnings-IsUnit (fl.ratio 1 1) os (one-IsUnit F) h)

module _ (F : Type 0) ⦃fl : Float F⦄ (u : Unicode) where
  run_patterns-IsUnit :
      (rs : List Regex) (cs : List ℕ) → IsUnit (run_patterns {F = F} u rs cs).confidence_multiplier
  unfolding run_patterns
  run_patterns-IsUnit [] cs = one-IsUnit F
  run_patterns-IsUnit (r ∷ rs) cs = elim (Option-cases (search_text u.is_word r cs)) [
    | inl e ↦ rw (e, run_patterns) (run_patterns-IsUnit rs cs)
    | inr (m, e) ↦ rw (e, run_patterns) (one-IsUnit F)
  ]

  run_text_quality-IsUnit :
      (text : String) → IsUnit (run_text_quality {F = F} u text).confidence_multiplier
  unfolding run_text_quality
  run_text_quality-IsUnit text =
      ground (arith, one-IsUnit F ⦃fl = fl⦄, ratio-IsUnit F ⦃fl = fl⦄ 8 10)

  -- Whatever the text, the multiplier that the two guardrails hand on lies in [0, 1].
  pub multiplier-IsUnit :
      (text : String) → IsUnit (aggregate_multiplier (run_guardrails {F = F} u text))
  unfolding run_guardrails run_injection
  multiplier-IsUnit text =
      aggregate-IsUnit {F = F} (run_guardrails u text)
        (run_patterns-IsUnit patterns (codes text), (run_text_quality-IsUnit text, tt))
