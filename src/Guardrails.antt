-- ===== src/Guardrails.antt =====
-- app/domain/guardrails: the outcome type, the two guardrails, their runner and the aggregation.
-- A detail stands for the message that is made from it.
pub mod Patterns
pub mod Blocking
pub mod Penalty
use Patterns.{patterns}
use ocr_service.Prelude.{
  zero, suc, ℕ, ◌-◌, String, Bool, true, false, not, ◌||◌, Option, none, some, List, [], ◌∷◌, ltb,
  keep, length, any, if◌then◌else◌,
}
use ocr_service.Text.{codes, is_empty, size, is_space, strip, split}
use ocr_service.Float.{Float, less}
use ocr_service.Regex.{Regex, search_text}

pub data GuardrailResult : Type 0 where
  pass warn block : GuardrailResult

pub data Detail (F : Type 0) : Type 0 where
  -- the text that matched, at most 60 characters
  injection_matched : List ℕ → Detail F
  text_empty : Detail F
  low_word_count : ℕ → Detail F
  low_printable_ratio : F → Detail F

-- `GuardrailOutcome`; `as_state` is the same record again.
pub record GuardrailOutcome (F : Type 0) : Type 0 where
  pub name : String
  pub result : GuardrailResult
  pub detail : Option (Detail F)
  pub confidence_multiplier : F

-- The Unicode tables behind `\w` and `str.isprintable`.
pub record Unicode : Type 0 where
  pub is_word : ℕ → Bool
  pub is_printable : ℕ → Bool

abbrev pub is_block : GuardrailResult → Bool
is_block block = true
is_block _ = false

abbrev pub is_warn : GuardrailResult → Bool
is_warn warn = true
is_warn _ = false

abbrev pub min_words : ℕ
min_words = 20

-- At most the first `n` items.
abbrev pub first_items : ℕ → List ℕ → List ℕ
first_items zero cs = []
first_items (suc n) [] = []
first_items (suc n) (c ∷ cs) = c ∷ first_items n cs

module _ {F : Type 0} ⦃fl : Float F⦄ where
  -- `_pass`, `_warn`, `_block` of `GuardrailBase`
  abbrev pub pass_outcome : String → GuardrailOutcome F
  pass_outcome name = record {
    name = name;
    result = pass;
    detail = none;
    confidence_multiplier = fl.ratio 1 1;
  }

  -- `WARN_MULTIPLIER` is 0.8.
  abbrev pub warn_outcome : String → Detail F → GuardrailOutcome F
  warn_outcome name detail = record {
    name = name;
    result = warn;
    detail = some detail;
    confidence_multiplier = fl.ratio 8 10;
  }

  abbrev pub block_outcome : String → Detail F → GuardrailOutcome F
  block_outcome name detail = record {
    name = name;
    result = block;
    detail = some detail;
    confidence_multiplier = fl.ratio 1 1;
  }

  -- The loop of `InjectionGuardrail.run` over `_PATTERNS`.
  unfoldable pub run_patterns : Unicode → List Regex → List ℕ → GuardrailOutcome F
  run_patterns u [] cs = pass_outcome "injection"
  run_patterns u (r ∷ rs) cs =
      let rest = run_patterns u rs cs in
      elim (search_text u.is_word r cs) [
        | some (from, n) ↦
            block_outcome "injection" (injection_matched (first_items 60 (first_items n from)))
        | none ↦ rest
      ]

  -- `InjectionGuardrail.run`
  unfoldable pub run_injection : Unicode → String → GuardrailOutcome F
  unfolding run_patterns patterns search_text is_space
  run_injection u text = run_patterns u patterns (codes text)

  -- The printable part of a stripped text: `printable / len(stripped)`.
  abbrev pub printable_ratio : Unicode → String → F
  printable_ratio u stripped =
      fl.ratio (length (keep (λ c. u.is_printable c || is_space c) (codes stripped)))
        (size stripped)

  -- `TextQualityGuardrail.run`
  unfoldable pub run_text_quality : Unicode → String → GuardrailOutcome F
  unfolding strip split is_space
  run_text_quality u text =
      let stripped = strip text in
      if is_empty stripped
      then block_outcome "text_quality" text_empty
      else if ltb (length (split stripped)) min_words
      then warn_outcome "text_quality" (low_word_count (length (split stripped)))
      else if less (printable_ratio u stripped) (fl.ratio 80 100)
      then warn_outcome "text_quality" (low_printable_ratio (printable_ratio u stripped))
      else pass_outcome "text_quality"

  -- `run_guardrails`, over `DEFAULT_GUARDRAILS`
  unfoldable pub run_guardrails : Unicode → String → List (GuardrailOutcome F)
  unfolding run_injection run_text_quality
  run_guardrails u text = run_injection u text ∷ run_text_quality u text ∷ []

  -- `has_block`
  unfoldable pub has_block : List (GuardrailOutcome F) → Bool
  has_block outcomes = any (λ o. is_block o.result) outcomes

  -- The loop of `aggregate_multiplier`.
  unfoldable pub multiply_warnings : F → List (GuardrailOutcome F) → F
  multiply_warnings acc [] = acc
  multiply_warnings acc (o ∷ os) =
      multiply_warnings (if is_warn o.result then fl.mul acc o.confidence_multiplier else acc) os

  -- `aggregate_multiplier`
  unfoldable pub aggregate_multiplier : List (GuardrailOutcome F) → F
  unfolding multiply_warnings
  aggregate_multiplier outcomes = fl.round4 (multiply_warnings (fl.ratio 1 1) outcomes)
