-- ===== src/Confidence/Completeness.antt =====
-- `completeness_score` and `missing_required` of app/domain/confidence.py tell one story.
use ocr_service.Prelude.{
  sym, inr, inl, ◌∙◌, ap, ◌↔◌, ◌⊎◌, ◌+◌, ◌<◌, String, ◌≡◌, ◌≢◌, refl, Bool, true, false, not, List,
  [], ◌∷◌, keep, length, arith,
}
use mathlib.Core.Bool.{false≢true}
use ocr_service.Json.{Dict}
use ocr_service.Float.{Float, ◌>=◌, IsUnit}
use ocr_service.Float.Laws.{ratio-IsUnit, one-IsUnit}
use ocr_service.Confidence.{has, missing_required, completeness_score}

length-keep-not :
    (p : String → Bool) (xs : List String)
    → length (keep p xs) + length (keep (λ x. not (p x)) xs) ≡ length xs
length-keep-not p [] = omega arith
length-keep-not p (x ∷ xs) = ground (arith, length-keep-not p xs)

empty_or_not : (xs : List String) → (xs ≡ []) ⊎ (xs ≢ [])
empty_or_not [] = inl refl
empty_or_not (x ∷ xs) = inr (λ e. cc)

length-eq-zero : (xs : List String) → length xs ≡ 0 → xs ≡ []
length-eq-zero [] h = refl
length-eq-zero (x ∷ xs) h = absurd (omega arith)

length-present :
    (extracted : Dict) (fs : List String)
    → missing_required extracted fs ≡ []
    → length (keep (has extracted) fs) ≡ length fs
unfolding missing_required
length-present extracted fs h =
    omega (arith, length-keep-not (has extracted) fs, ap (λ (xs : List String). length xs) h)

length-present-lt :
    (extracted : Dict) (fs : List String)
    → missing_required extracted fs ≢ []
    → length (keep (has extracted) fs) < length fs
unfolding missing_required
length-present-lt extracted fs h = omega (
  arith,
  length-keep-not (has extracted) fs,
  λ (e : length (missing_required extracted fs) ≡ 0). h (length-eq-zero _ e),
)

module _ (F : Type 0) ⦃fl : Float F⦄ (extracted : Dict) where
  completeness-of_none_missing :
      (fs : List String)
      → missing_required extracted fs ≡ []
      → completeness_score extracted fs ≡ fl.ratio 1 1
  unfolding completeness_score
  completeness-of_none_missing [] h = refl
  completeness-of_none_missing (f ∷ fs) h =
      ap (λ n. fl.ratio n (length (f ∷ fs))) (length-present extracted (f ∷ fs) h)
      ∙ fl.ratio_all (length (f ∷ fs)) (omega arith)

  completeness-of_missing :
      (fs : List String)
      → length fs < 9007199254740992
      → missing_required extracted fs ≢ []
      → (completeness_score extracted fs >= fl.ratio 1 1) ≡ false
  unfolding completeness_score
  completeness-of_missing [] small h = absurd (h (unfold missing_required in refl))
  completeness-of_missing (f ∷ fs) small h =
      fl.ratio_part _ (length (f ∷ fs)) (length-present-lt extracted (f ∷ fs) h) small

  -- For fewer than 2 ^ 53 required fields, the completeness is 1 exactly when none is missing.
  pub completeness_full_iff :
      (fs : List String)
      → length fs < 9007199254740992
      → ((completeness_score extracted fs >= fl.ratio 1 1) ≡ true)
        ↔ (missing_required extracted fs ≡ [])
  completeness_full_iff fs small = (
    λ full. elim (empty_or_not (missing_required extracted fs)) [
      | inl e ↦ e
      | inr ne ↦ absurd (false≢true (sym (completeness-of_missing fs small ne) ∙ full))
    ],
    λ e. rw (completeness-of_none_missing fs e) (fl.lef_refl (fl.ratio 1 1)),
  )

  pub completeness-IsUnit : (fs : List String) → IsUnit (completeness_score {F = F} extracted fs)
  unfolding completeness_score
  completeness-IsUnit [] = one-IsUnit F
  completeness-IsUnit (f ∷ fs) =
      ratio-IsUnit F (length (keep (has extracted) (f ∷ fs))) (length (f ∷ fs)) (omega arith)
        (omega (arith, length-keep-not (has extracted) (f ∷ fs)))
