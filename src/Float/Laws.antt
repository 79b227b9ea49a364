-- ===== src/Float/Laws.antt =====
-- Bounds of the operations of `Float`.
use ocr_service.Prelude.{ℕ, ◌≤◌, ◌<◌, ◌≡◌, true, arith}
use ocr_service.Float.{Float, ◌<=◌, min2, min3, IsUnit}

module _ {F : Type 0} ⦃fl : Float F⦄ where
  pub min2-le_left : (a b : F) → (min2 a b <= a) ≡ true
  min2-le_left a b = ground (arith, fl.lef_refl a, fl.lef_total a b)

  pub min2-le_right : (a b : F) → (min2 a b <= b) ≡ true
  min2-le_right a b = ground (arith, fl.lef_refl b, fl.lef_total a b)

  pub min2_greatest : (a b c : F) → (c <= a) ≡ true → (c <= b) ≡ true → (c <= min2 a b) ≡ true
  min2_greatest a b c h k = ground arith

  pub min2-IsUnit : (a b : F) → IsUnit a → IsUnit b → IsUnit (min2 a b)
  min2-IsUnit a b h k = ground arith

  pub min3-IsUnit : (a b c : F) → IsUnit a → IsUnit b → IsUnit c → IsUnit (min3 a b c)
  min3-IsUnit a b c h k l = min2-IsUnit (min2 a b) c (min2-IsUnit a b h k) l

  pub mul-IsUnit : (a b : F) → IsUnit a → IsUnit b → IsUnit (fl.mul a b)
  mul-IsUnit a b h k =
      (fl.mul_nonneg a b h.0 k.0, fl.lef_trans (fl.mul a b) a _ (fl.mul_shrinks a b h.0 k.1) h.1)

  pub round4-IsUnit : (a : F) → IsUnit a → IsUnit (fl.round4 a)
  round4-IsUnit a h =
      (rw fl.round4_zero at (fl.round4_mono _ _ h.0), rw fl.round4_one at (fl.round4_mono _ _ h.1))

module _ (F : Type 0) ⦃fl : Float F⦄ where
  pub ratio-IsUnit : (a n : ℕ) → 0 < n → a ≤ n → IsUnit (fl.ratio a n)
  ratio-IsUnit a n pos h = (
    rw (fl.ratio_none n pos) at (fl.ratio_mono 0 a n pos (omega arith)),
    rw (fl.ratio_all n pos) at (fl.ratio_mono a n n pos h),
  )

  pub one-IsUnit : IsUnit (fl.ratio 1 1)
  one-IsUnit = ratio-IsUnit 1 1 (omega arith) (omega arith)
