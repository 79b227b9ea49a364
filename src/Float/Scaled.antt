-- ===== src/Float/Scaled.antt =====
-- Numbers in steps of 1/10000, rounded down: they satisfy the laws of `Float`.
use ocr_service.Prelude.{◌+◌, false, refl, ℕ, ◌*◌, ◌/◌, ◌≤◌, ◌<◌, ◌≡◌, ◌⊎◌, true, arith, leb}
use native.Mathlib.Nat.{
  le_trans, le-div_iff_mul-le, div-mul-le_self, div-le_of_le-mul, div-lt_iff_lt-mul,
  mul-div_cancel_left,
}
use ocr_service.Float.{Float}

unfoldable pub mul_scaled : ℕ → ℕ → ℕ
mul_scaled a b = a * b / 10000

unfoldable pub ratio_scaled : ℕ → ℕ → ℕ
ratio_scaled a n = a * 10000 / n

div_mono : (a b n : ℕ) → 0 < n → a ≤ b → a / n ≤ b / n
div_mono a b n pos h = (le-div_iff_mul-le pos).1 (le_trans (div-mul-le_self a n) h)

le→leb : (a b : ℕ) → a ≤ b → leb a b ≡ true
le→leb a b h = ground arith

leb→le : (a b : ℕ) → leb a b ≡ true → a ≤ b
leb→le a b h = ground arith

pub leb_refl : (a : ℕ) → leb a a ≡ true
leb_refl a = ground arith

pub leb_trans : (a b c : ℕ) → leb a b ≡ true → leb b c ≡ true → leb a c ≡ true
leb_trans a b c h k = ground arith

pub zero_least : (a : ℕ) → leb (ratio_scaled 0 1) a ≡ true
unfolding ratio_scaled
zero_least a = le→leb _ _ (omega arith)

pub leb_total : (a b : ℕ) → (leb a b ≡ true) ⊎ (leb b a ≡ true)
leb_total a b = ground arith

pub mul_scaled-one : (a : ℕ) → mul_scaled a (ratio_scaled 1 1) ≡ a
unfolding mul_scaled ratio_scaled
mul_scaled-one a = omega arith

pub mul_scaled_mono : (a b c : ℕ) → leb a b ≡ true → leb (mul_scaled a c) (mul_scaled b c) ≡ true
unfolding mul_scaled
mul_scaled_mono a b c h =
    le→leb _ _ (div_mono (a * c) (b * c) 10000 (omega arith) (grind (arith, leb→le a b h)))

pub mul_scaled_shrinks : (a c : ℕ) → leb c (ratio_scaled 1 1) ≡ true → leb (mul_scaled a c) a ≡ true
unfolding mul_scaled ratio_scaled
mul_scaled_shrinks a c h = le→leb _ _ (div-le_of_le-mul 10000 (grind (arith, leb→le c 10000 h)))

pub ratio_scaled_mono :
    (a b n : ℕ) → 0 < n → a ≤ b → leb (ratio_scaled a n) (ratio_scaled b n) ≡ true
unfolding ratio_scaled
ratio_scaled_mono a b n pos h = le→leb _ _ (div_mono (a * 10000) (b * 10000) n pos (omega arith))

pub ratio_scaled-none : (n : ℕ) → 0 < n → ratio_scaled 0 n ≡ ratio_scaled 0 1
unfolding ratio_scaled
ratio_scaled-none n pos = omega arith

pub ratio_scaled-all : (n : ℕ) → 0 < n → ratio_scaled n n ≡ ratio_scaled 1 1
unfolding ratio_scaled
ratio_scaled-all n pos = mul-div_cancel_left 10000 pos

div_lt : (a n : ℕ) → a < n → a * 10000 / n < 10000
div_lt a n h = (div-lt_iff_lt-mul {k = n} (omega arith)).1 (omega arith)

pub ratio_scaled_part :
    (a n : ℕ) → a < n → n < 9007199254740992 → leb (ratio_scaled 1 1) (ratio_scaled a n) ≡ false
unfolding ratio_scaled
ratio_scaled_part a n h small = ground (arith, div_lt a n h)

-- To the nearest step of 1/1000, halves up.
unfoldable pub round3_scaled : ℕ → ℕ
round3_scaled a = (a + 5) / 10 * 10

pub round3_scaled_mono : (a b : ℕ) → leb a b ≡ true → leb (round3_scaled a) (round3_scaled b) ≡ true
unfolding round3_scaled
round3_scaled_mono a b h = le→leb _ _ (omega (arith, leb→le a b h))

pub round3_scaled-ends :
    (round3_scaled (ratio_scaled 0 1) ≡ ratio_scaled 0 1)
    × (round3_scaled (ratio_scaled 1 1) ≡ ratio_scaled 1 1)
unfolding round3_scaled ratio_scaled
round3_scaled-ends = (refl, refl)

instance abbrev pub scaled : Float ℕ
scaled = record {
  lef = leb;
  mul = mul_scaled;
  ratio = ratio_scaled;
  round4 = λ a. a;
  lef_refl = leb_refl;
  lef_trans = leb_trans;
  lef_total = leb_total;
  mul_one = mul_scaled-one;
  mul_mono = λ a b c h _. mul_scaled_mono a b c h;
  mul_shrinks = λ a c _ h. mul_scaled_shrinks a c h;
  mul_nonneg = λ a c _ _. zero_least (mul_scaled a c);
  round4_mono = λ a b h. h;
  round4_zero = refl;
  round4_one = refl;
  round3 = round3_scaled;
  round3_mono = round3_scaled_mono;
  round3_zero = round3_scaled-ends.0;
  round3_one = round3_scaled-ends.1;
  ratio_mono = ratio_scaled_mono;
  ratio_none = ratio_scaled-none;
  ratio_part = ratio_scaled_part;
  ratio_all = ratio_scaled-all;
}
