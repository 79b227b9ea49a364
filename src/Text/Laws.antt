-- ===== src/Text/Laws.antt =====
-- Laws of `strip`.
use Prim.Native.Char.{Char, code}
use ocr_service.Prelude.{
  ℕ, false, ap, ◌==◌, nat_eq, Bool-cases, inl, inr, String, ◌≡◌, ◌↔◌, refl, true, arith, All,
}
use ocr_service.Text.{partition, append, codes, is_empty, is_space, lstrip, rstrip, strip}

-- Nothing but white space.
abbrev pub IsBlank : String → Type 0
IsBlank s = All (λ c. is_space c ≡ true) (codes s)

lstrip-IsBlank : (s : String) → IsBlank s → lstrip s ≡ ""
unfolding lstrip
lstrip-IsBlank String.[] h = refl
lstrip-IsBlank (String.◌∷◌ c s) h = rw h.0 (lstrip-IsBlank s h.1)

IsBlank-of_lstrip : (s : String) → IsBlank (lstrip s) → IsBlank s
unfolding lstrip
IsBlank-of_lstrip String.[] h = h
IsBlank-of_lstrip (String.◌∷◌ c s) h = ground (arith, IsBlank-of_lstrip s)

IsBlank-of_rstrip : (s : String) → is_empty (rstrip s) ≡ true → IsBlank s
unfolding rstrip
IsBlank-of_rstrip String.[] h = tt
IsBlank-of_rstrip (String.◌∷◌ c s) h = ground (arith, IsBlank-of_rstrip s)

-- A text is empty once stripped exactly when it holds nothing but white space.
pub strip_empty_iff : (s : String) → (is_empty (strip s) ≡ true) ↔ IsBlank s
unfolding strip
strip_empty_iff s = (
  λ h. IsBlank-of_lstrip s (IsBlank-of_rstrip (lstrip s) h),
  λ h. rw (lstrip-IsBlank s h) (unfold rstrip in refl),
)

-- A text with a part after the separator is its two parts around it.
pub append-partition :
    (sep : ℕ) (s : String)
    → is_empty (partition sep s).1 ≡ false
    → (c : Char) × (code c ≡ sep)
      × (s ≡ append (partition sep s).0 (String.◌∷◌ c (partition sep s).1))
unfolding partition append
append-partition sep String.[] h = absurd (ground arith)
append-partition sep (String.◌∷◌ c s) h = elim (Bool-cases (code c == sep)) [
  | inl e ↦ (c, ground arith, rw e refl)
  | inr e ↦ let (d, f, g) = append-partition sep s (rw e at h) in (d, f, rw e (ap (String.◌∷◌ c) g))
]
