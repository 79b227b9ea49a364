-- ===== src/Float.antt =====
-- What the program uses of Python's `float`: comparisons, products, quotients of integers,
-- `round(x, 4)`, and what the database rounds, as an interface. The laws are those of finite doubles with correct rounding; a NaN
-- or an infinity does not come up, since every float of the program is a literal, a quotient of
-- counts, a field that pydantic holds to [0, 1], or a product or a rounding of such.
pub mod Laws
pub mod Scaled
use ocr_service.Prelude.{ℕ, ◌≤◌, ◌<◌, ◌≡◌, ◌⊎◌, Bool, true, false, not, if◌then◌else◌}

pub record Float (F : Type 0) : Type 0 where
  -- `a <= b`
  pub lef : F → F → Bool
  -- `a * b`
  pub mul : F → F → F
  -- `a / b` of two integers; the literal `0.85` is `ratio 85 100`, the double next to it
  pub ratio : ℕ → ℕ → F
  -- `round(a, 4)`
  pub round4 : F → F
  -- what a column `NUMERIC(4, 3)` keeps of a value, read back as a double: three decimals
  pub round3 : F → F
  pub lef_refl : (a : F) → lef a a ≡ true
  pub lef_trans : (a b c : F) → lef a b ≡ true → lef b c ≡ true → lef a c ≡ true
  pub lef_total : (a b : F) → (lef a b ≡ true) ⊎ (lef b a ≡ true)
  pub mul_one : (a : F) → mul a (ratio 1 1) ≡ a
  pub mul_mono :
      (a b c : F) → lef a b ≡ true → lef (ratio 0 1) c ≡ true → lef (mul a c) (mul b c) ≡ true
  pub mul_shrinks :
      (a c : F) → lef (ratio 0 1) a ≡ true → lef c (ratio 1 1) ≡ true → lef (mul a c) a ≡ true
  pub mul_nonneg :
      (a c : F)
      → lef (ratio 0 1) a ≡ true
      → lef (ratio 0 1) c ≡ true
      → lef (ratio 0 1) (mul a c) ≡ true
  pub round4_mono : (a b : F) → lef a b ≡ true → lef (round4 a) (round4 b) ≡ true
  pub round4_zero : round4 (ratio 0 1) ≡ ratio 0 1
  pub round4_one : round4 (ratio 1 1) ≡ ratio 1 1
  pub round3_mono : (a b : F) → lef a b ≡ true → lef (round3 a) (round3 b) ≡ true
  pub round3_zero : round3 (ratio 0 1) ≡ ratio 0 1
  pub round3_one : round3 (ratio 1 1) ≡ ratio 1 1
  pub ratio_mono : (a b n : ℕ) → 0 < n → a ≤ b → lef (ratio a n) (ratio b n) ≡ true
  pub ratio_none : (n : ℕ) → 0 < n → ratio 0 n ≡ ratio 0 1
  -- up to 2 ^ 53, a proper part does not round to the whole
  pub ratio_part : (a n : ℕ) → a < n → n < 9007199254740992 → lef (ratio 1 1) (ratio a n) ≡ false
  pub ratio_all : (n : ℕ) → 0 < n → ratio n n ≡ ratio 1 1

module _ {F : Type 0} ⦃fl : Float F⦄ where
  infix 50 ◌<=◌ ◌>=◌
  abbrev pub ◌<=◌ : F → F → Bool
  ◌<=◌ = fl.lef

  abbrev pub ◌>=◌ : F → F → Bool
  a >= b = b <= a

  -- Of finite doubles, `a < b` is `not b <= a`.
  abbrev pub less : F → F → Bool
  less a b = not (b <= a)

  -- `min(a, b)`: the first of the smallest
  abbrev pub min2 : F → F → F
  min2 a b = if less b a then b else a

  -- `min(a, b, c)`
  abbrev pub min3 : F → F → F → F
  min3 a b c = min2 (min2 a b) c

  -- In [0, 1].
  abbrev pub IsUnit : F → Type 0
  IsUnit a = (fl.lef (fl.ratio 0 1) a ≡ true) × (fl.lef a (fl.ratio 1 1) ≡ true)
