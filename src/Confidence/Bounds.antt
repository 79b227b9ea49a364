-- ===== src/Confidence/Bounds.antt =====
-- Bounds and order of the scores of app/domain/confidence.py.
use ocr_service.Prelude.{ℕ, ◌≤◌, ◌≡◌, true, arith}
use ocr_service.Float.{Float, ◌<=◌, min2, min3, IsUnit}
use ocr_service.Float.Laws.{min2-le_left, min2-le_right, min3-IsUnit, mul-IsUnit, round4-IsUnit}
use ocr_service.Confidence.{RoutingDecision, high, medium, low, score, route}

-- HIGH over MEDIUM over LOW.
abbrev pub rank : RoutingDecision → ℕ
rank high = 2
rank medium = 1
rank low = 0

module _ {F : Type 0} ⦃fl : Float F⦄ where
  -- For signals and a multiplier in [0, 1], the overall confidence lies in [0, 1] and is no more
  -- than any of the three signals that the breakdown reports.
  pub score_bounds :
      (l c s m : F)
      → IsUnit l
      → IsUnit c
      → IsUnit s
      → IsUnit m
      → let b = score l c s m in
        IsUnit b.guardrail_adjusted
        × ((b.guardrail_adjusted <= b.llm) ≡ true)
        × ((b.guardrail_adjusted <= b.completeness) ≡ true)
        × ((b.guardrail_adjusted <= b.semantic) ≡ true)
  unfolding score
  score_bounds l c s m hl hc hs hm = (
    round4-IsUnit (fl.mul base m) (mul-IsUnit base m unit hm),
    fl.round4_mono _ _
        (fl.lef_trans _ base _ shrunk (fl.lef_trans _ (min2 l c) _ le (min2-le_left l c))),
    fl.round4_mono _ _
        (fl.lef_trans _ base _ shrunk (fl.lef_trans _ (min2 l c) _ le (min2-le_right l c))),
    fl.round4_mono _ _ (fl.lef_trans _ base _ shrunk (min2-le_right (min2 l c) s)),
  )
    where
      base : F
      base = min3 l c s

      unit : IsUnit base
      unit = min3-IsUnit l c s hl hc hs

      shrunk : (fl.mul base m <= base) ≡ true
      shrunk = fl.mul_shrinks base m unit.0 hm.1

      le : (base <= min2 l c) ≡ true
      le = min2-le_left (min2 l c) s

  -- A higher confidence is never routed lower, whatever the two thresholds.
  pub route_mono : (a b h m : F) → (a <= b) ≡ true → rank (route a h m) ≤ rank (route b h m)
  unfolding route
  route_mono a b h m le = ground (arith, fl.lef_trans h a b, fl.lef_trans m a b)

  -- With signals in [0, 1], a guardrail multiplier in [0, 1] never routes a document higher than
  -- no penalty does, whatever the two thresholds.
  pub penalty_never_promotes :
      (l c s m h k : F)
      → IsUnit l
      → IsUnit c
      → IsUnit s
      → IsUnit m
      → rank (route (score l c s m).guardrail_adjusted h k)
        ≤ rank (route (score l c s (fl.ratio 1 1)).guardrail_adjusted h k)
  unfolding score
  penalty_never_promotes l c s m h k hl hc hs hm = route_mono _ _ h k (
      rw fl.mul_one
        (fl.round4_mono _ _ (fl.mul_shrinks base m (min3-IsUnit l c s hl hc hs).0 hm.1)))
    where
      base : F
      base = min3 l c s
