-- ===== src/Guardrails/Blocking.antt =====
-- Which texts the guardrails of app/domain/guardrails block.
use ocr_service.Prelude.{
  Bool-cases, ℕ, String, ◌≡◌, ◌↔◌, ◌⊎◌, inl, inr, true, none, some, List, [], ◌∷◌, Option-cases,
  arith,
}
use ocr_service.Text.{codes, is_empty, strip}
use ocr_service.Text.Laws.{IsBlank, strip_empty_iff}
use ocr_service.Float.{Float}
use ocr_service.Regex.{Place, Regex, search_text}
use ocr_service.Regex.Semantics.{Matches}
use ocr_service.Regex.Search.{PlaceOf, search_from-some, search_from-none}
use ocr_service.Guardrails.{
  Unicode, is_block, run_patterns, run_injection, run_text_quality, run_guardrails, has_block,
}
use ocr_service.Guardrails.Patterns.{patterns}

-- The pattern matches the text between two of its places.
pub record Occurs (u : Unicode) (cs : List ℕ) (r : Regex) : Type 0 where
  pub from : Place
  pub to : Place
  pub inside : PlaceOf none cs from
  pub matches : Matches u.is_word r from to

-- One of the patterns does.
abbrev pub AnyOccurs : Unicode → List ℕ → List Regex → Type 0
AnyOccurs u cs [] = ⊥
AnyOccurs u cs (r ∷ rs) = Occurs u cs r ⊎ AnyOccurs u cs rs

module _ (u : Unicode) (cs : List ℕ) where
  Occurs-of_search :
      (r : Regex) (t : List ℕ) (n : ℕ) → search_text u.is_word r cs ≡ some (t, n) → Occurs u cs r
  unfolding search_text
  Occurs-of_search r t n h =
      let f = search_from-some u.is_word r none cs t n h in
      record { from = f.from; to = f.to; inside = f.inside; matches = f.matches }

  not-Occurs : (r : Regex) → search_text u.is_word r cs ≡ none → ¬ Occurs u cs r
  unfolding search_text
  not-Occurs r h o = search_from-none u.is_word r none cs o.from o.to h o.inside o.matches

  module _ (F : Type 0) ⦃fl : Float F⦄ where
    AnyOccurs-of_block :
        (rs : List Regex)
        → is_block (run_patterns {F = F} u rs cs).result ≡ true
        → AnyOccurs u cs rs
    unfolding run_patterns
    AnyOccurs-of_block [] h = cc
    AnyOccurs-of_block (r ∷ rs) h = elim (Option-cases (search_text u.is_word r cs)) [
      | inl e ↦ inr (AnyOccurs-of_block rs (ground arith))
      | inr ((t, n), e) ↦ inl (Occurs-of_search r t n e)
    ]

    block-of_AnyOccurs :
        (rs : List Regex)
        → AnyOccurs u cs rs
        → is_block (run_patterns {F = F} u rs cs).result ≡ true
    unfolding run_patterns
    block-of_AnyOccurs [] h = elim h [ ]
    block-of_AnyOccurs (r ∷ rs) (inl o) = elim (Option-cases (search_text u.is_word r cs)) [
      | inl e ↦ absurd (not-Occurs r e o)
      | inr (m, e) ↦ ground arith
    ]
    block-of_AnyOccurs (r ∷ rs) (inr k) = ground (arith, block-of_AnyOccurs rs k)

module _ (F : Type 0) ⦃fl : Float F⦄ (u : Unicode) (text : String) where
  quality_block :
      (is_block (run_text_quality {F = F} u text).result ≡ true) ↔ (is_empty (strip text) ≡ true)
  unfolding run_text_quality
  quality_block = ground arith

  -- The guardrails block a text exactly when a pattern of the injection guardrail matches somewhere
  -- in it, or when it holds nothing but white space.
  pub has_block_iff :
      (has_block (run_guardrails {F = F} u text) ≡ true)
      ↔ (AnyOccurs u (codes text) patterns ⊎ IsBlank text)
  unfolding has_block run_guardrails run_injection
  has_block_iff = (
    λ h. elim (Bool-cases (is_block (run_injection {F = F} u text).result)) [
      | inl e ↦ inl (AnyOccurs-of_block u (codes text) F patterns e)
      | inr e ↦ inr ((strip_empty_iff text).0 (quality_block.0 (ground arith)))
    ],
    λ h. elim h [
      | inl o ↦ ground (arith, block-of_AnyOccurs u (codes text) F patterns o)
      | inr b ↦ ground (arith, quality_block.1 ((strip_empty_iff text).1 b))
    ],
  )
