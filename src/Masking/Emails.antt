-- ===== src/Masking/Emails.antt =====
-- `_EMAIL_RE` and `sub` of app/observability/pii_filter.py: a recogniser of e-mail addresses without
-- a regular expression, and what masking leaves of them.
use Prim.Native.Char.{code}
use ocr_service.Prelude.{
  ℕ, zero, ◌≡◌, ◌<◌, inl, inr, refl, String, Bool, true, false, ◌&&◌, ◌||◌, Option, some, List, [],
  ◌∷◌, ◌==◌, nat_eq, length, arith, Bool-cases, Option-cases,
}
use ocr_service.Text.{codes}
use ocr_service.Regex.{Place, Regex, one, star, seq, match_at}
use ocr_service.Regex.Syntax.{◌▸◌}
use ocr_service.Regex.Semantics.{Matches, both, one_char, again, stop, advance}
use ocr_service.Regex.Search.{match_at-some, match_at-none}
use ocr_service.Masking.{is_letter, is_domain, is_local, email_re, starts}

-- Two letters.
abbrev pub two_letters : List ℕ → Bool
two_letters [] = false
two_letters (x ∷ []) = false
two_letters (x ∷ y ∷ s) = is_letter x && is_letter y

-- Characters of a domain up to a dot and two letters.
abbrev pub in_domain : List ℕ → Bool
in_domain [] = false
in_domain (c ∷ s) = (c == b'.' && two_letters s) || (is_domain c && in_domain s)

abbrev pub domain_part : List ℕ → Bool
domain_part [] = false
domain_part (c ∷ s) = is_domain c && in_domain s

-- Characters of a name up to an `@` and a domain.
abbrev pub in_local : List ℕ → Bool
in_local [] = false
in_local (c ∷ s) = (c == b'@' && domain_part s) || (is_local c && in_local s)

-- An e-mail address stands here.
abbrev pub begins_email : List ℕ → Bool
begins_email [] = false
begins_email (c ∷ s) = is_local c && in_local s

-- An e-mail address stands somewhere.
abbrev pub has_email : List ℕ → Bool
has_email [] = false
has_email (c ∷ s) = begins_email (c ∷ s) || has_email s

abbrev place : Option ℕ → List ℕ → Place
place before s = record { before = before; rest = s }

-- A match of `r` that begins here.
abbrev Begins : (ℕ → Bool) → Regex → Option ℕ → List ℕ → Type 0
Begins w r before s = (q : Place) × Matches w r (place before s) q

module _ (w : ℕ → Bool) where
  one-Begins :
      (f : ℕ → Bool) (r : Regex) (before : Option ℕ) (c : ℕ) (s : List ℕ)
      → f c ≡ true
      → Begins w r (some c) s
      → Begins w (seq (one f) r) before (c ∷ s)
  one-Begins f r before c s h (q, m) = (q, both (one_char c s refl h refl) m)

  star-Begins :
      (f : ℕ → Bool) (r : Regex) (before : Option ℕ) (c : ℕ) (s : List ℕ)
      → f c ≡ true
      → Begins w (seq (star (one f)) r) (some c) s
      → Begins w (seq (star (one f)) r) before (c ∷ s)
  star-Begins f r before c s h (q, both m n) = (q, both (again (one_char c s refl h refl) m) n)

  stop-Begins :
      (f : ℕ → Bool) (r : Regex) (before : Option ℕ) (s : List ℕ)
      → Begins w r before s
      → Begins w (seq (star (one f)) r) before s
  stop-Begins f r before s (q, m) = (q, both stop m)

  abbrev letters_re : Regex
  letters_re = one is_letter ▸ one is_letter ▸ star (one is_letter)

  abbrev dot_re : Regex
  dot_re = one (λ c. c == b'.') ▸ letters_re

  abbrev domain_re : Regex
  domain_re = one is_domain ▸ star (one is_domain) ▸ dot_re

  abbrev at_re : Regex
  at_re = one (λ c. c == b'@') ▸ domain_re

  two_letters-Begins :
      (before : Option ℕ) (s : List ℕ) → two_letters s ≡ true → Begins w letters_re before s
  two_letters-Begins before [] h = cc
  two_letters-Begins before (x ∷ []) h = cc
  two_letters-Begins before (x ∷ y ∷ s) h = one-Begins is_letter _ before x (y ∷ s) (ground arith) (
      one-Begins is_letter (star (one is_letter)) (some x) y s (ground arith)
        (place (some y) s, stop))

  in_domain-Begins :
      (before : Option ℕ) (s : List ℕ)
      → in_domain s ≡ true
      → Begins w (star (one is_domain) ▸ dot_re) before s
  in_domain-Begins before [] h = cc
  in_domain-Begins before (c ∷ s) h = elim (Bool-cases (c == b'.' && two_letters s)) [
    | inl e ↦ stop-Begins is_domain dot_re before (c ∷ s) (
        one-Begins (λ x. x == b'.') letters_re before c s (ground arith)
          (two_letters-Begins (some c) s (ground arith)))
    | inr e ↦
        star-Begins is_domain dot_re before c s (ground arith)
          (in_domain-Begins (some c) s (ground arith))
  ]

  domain_part-Begins :
      (before : Option ℕ) (s : List ℕ) → domain_part s ≡ true → Begins w domain_re before s
  domain_part-Begins before [] h = cc
  domain_part-Begins before (c ∷ s) h =
      one-Begins is_domain (star (one is_domain) ▸ dot_re) before c s (ground arith)
        (in_domain-Begins (some c) s (ground arith))

  in_local-Begins :
      (before : Option ℕ) (s : List ℕ)
      → in_local s ≡ true
      → Begins w (star (one is_local) ▸ at_re) before s
  in_local-Begins before [] h = cc
  in_local-Begins before (c ∷ s) h = elim (Bool-cases (c == b'@' && domain_part s)) [
    | inl e ↦ stop-Begins is_local at_re before (c ∷ s) (
        one-Begins (λ x. x == b'@') domain_re before c s (ground arith)
          (domain_part-Begins (some c) s (ground arith)))
    | inr e ↦
        star-Begins is_local at_re before c s (ground arith)
          (in_local-Begins (some c) s (ground arith))
  ]

  -- Where an e-mail address stands, the pattern matches.
  begins_email-Begins :
      (before : Option ℕ) (s : List ℕ) → begins_email s ≡ true → Begins w email_re before s
  unfolding email_re
  begins_email-Begins before [] h = cc
  begins_email-Begins before (c ∷ s) h =
      one-Begins is_local (star (one is_local) ▸ at_re) before c s (ground arith)
        (in_local-Begins (some c) s (ground arith))

  one_shrinks :
      (f : ℕ → Bool) (r : Regex) (p q : Place)
      → Matches w (seq (one f) r) p q
      → length q.rest < length p.rest
  one_shrinks f r p q (both (one_char c s e h k) m) = elim (advance w m) [
    | inl l ↦ rw (← l, k, e) (omega arith)
    | inr l ↦ let lt = rw k at l in rw e (omega arith)
  ]

  email_shrinks : (p q : Place) → Matches w email_re p q → length q.rest < length p.rest
  unfolding email_re
  email_shrinks p q m = one_shrinks is_local _ p q m

  -- Where the pattern does not match, no e-mail address stands.
  pub begins_email-starts :
      (before : Option ℕ) (s : String)
      → starts w email_re before s ≡ zero
      → begins_email (codes s) ≡ false
  unfolding starts
  begins_email-starts before String.[] h = refl
  begins_email-starts before (String.◌∷◌ c s) h = elim (Bool-cases (begins_email cs)) [
    | inr e ↦ e
    | inl e ↦
        let (q, m) = begins_email-Begins before cs e in
        elim (Option-cases (match_at w email_re before cs)) [
          | inl none_at ↦ absurd (match_at-none w email_re before cs q none_at m)
          | inr ((t, n), at) ↦
              let f = match_at-some w email_re before cs t n at (inl refl) in
              let lt = email_shrinks f.from f.to f.matches in
              let size = f.size in absurd (ground arith)
        ]
  ]
    where
      cs : List ℕ
      cs = code c ∷ codes s
