-- ===== src/Masking/Cuts.antt =====
-- What `sub` of app/observability/pii_filter.py leaves of a text, against the text.
use Prim.Native.Char.{code}
use ocr_service.Prelude.{
  ℕ, zero, suc, ◌≡◌, ◌⊎◌, inl, inr, refl, String, Bool, true, false, Option, none, some, List, [],
  ◌∷◌, nat_eq, arith,
}
use ocr_service.Text.{codes, append}
use ocr_service.Regex.{Regex}
use ocr_service.Masking.{
  is_domain, is_local, email_re, redacted, starts, sub_from, sub, mask_value, iban_re, card_re,
}
use ocr_service.Masking.Emails.{
  two_letters, in_domain, domain_part, in_local, begins_email, has_email, begins_email-starts,
}

-- `Cut s t`: `t` is `s` up to a place where either ends or `t` has a square bracket.
data Cut : List ℕ → List ℕ → Type 0 where
  ended : {s : List ℕ} → Cut s []
  kept : {c : ℕ} {s t : List ℕ} → Cut s t → Cut (c ∷ s) (c ∷ t)
  cut : {s t : List ℕ} → Cut s (b'[' ∷ t)

bracket_outside : (is_domain b'[' ≡ false) × (is_local b'[' ≡ false)
unfolding is_domain is_local
bracket_outside = (refl, refl)

two_letters-Cut : {s t : List ℕ} → Cut s t → two_letters t ≡ true → two_letters s ≡ true
two_letters-Cut ended h = cc
two_letters-Cut (cut {t = []}) h = cc
two_letters-Cut (cut {t = y ∷ t}) h = ground arith
two_letters-Cut (kept ended) h = cc
two_letters-Cut (kept cut) h = ground arith
two_letters-Cut (kept (kept k)) h = h

in_domain-Cut : {s t : List ℕ} → Cut s t → in_domain t ≡ true → in_domain s ≡ true
in_domain-Cut ended h = cc
in_domain-Cut cut h = ground (arith, bracket_outside)
in_domain-Cut (kept k) h = ground (arith, two_letters-Cut k, in_domain-Cut k)

domain_part-Cut : {s t : List ℕ} → Cut s t → domain_part t ≡ true → domain_part s ≡ true
domain_part-Cut ended h = cc
domain_part-Cut cut h = ground (arith, bracket_outside)
domain_part-Cut (kept k) h = ground (arith, in_domain-Cut k)

in_local-Cut : {s t : List ℕ} → Cut s t → in_local t ≡ true → in_local s ≡ true
in_local-Cut ended h = cc
in_local-Cut cut h = ground (arith, bracket_outside)
in_local-Cut (kept k) h = ground (arith, domain_part-Cut k, in_local-Cut k)

begins_email-Cut : {s t : List ℕ} → Cut s t → begins_email t ≡ true → begins_email s ≡ true
begins_email-Cut ended h = cc
begins_email-Cut cut h = ground (arith, bracket_outside)
begins_email-Cut (kept k) h = ground (arith, in_local-Cut k)

-- The placeholder adds no e-mail address.
has_email-redacted :
    (t : String) → has_email (codes t) ≡ false → has_email (codes (append redacted t)) ≡ false
unfolding append is_local is_domain
has_email-redacted t h = h

ℕ-cases : (n : ℕ) → (n ≡ zero) ⊎ ((k : ℕ) × (n ≡ suc k))
ℕ-cases zero = inl refl
ℕ-cases (suc k) = inr (k, refl)

module _ (w : ℕ → Bool) (r : Regex) where
  -- Where no match begins the character is kept; a match is replaced.
  sub_from-cases :
      (before : Option ℕ) (c : Prim.Native.Char.Char) (s : String)
      → ((starts w r before (String.◌∷◌ c s) ≡ zero)
          × (sub_from w r before zero (String.◌∷◌ c s)
              ≡ String.◌∷◌ c (sub_from w r (some (code c)) zero s)))
        ⊎ ((n : ℕ) × (sub_from w r before zero (String.◌∷◌ c s)
              ≡ append redacted (sub_from w r (some (code c)) n s)))
  unfolding sub_from
  sub_from-cases before c s = elim (ℕ-cases (starts w r before (String.◌∷◌ c s))) [
    | inl e ↦ inl (e, rw (sub_from, e) refl)
    | inr (n, e) ↦ inr (n, rw (sub_from, e) refl)
  ]

  sub_from-skip :
      (before : Option ℕ) (n : ℕ) (c : Prim.Native.Char.Char) (s : String)
      → sub_from w r before (suc n) (String.◌∷◌ c s) ≡ sub_from w r (some (code c)) n s
  unfolding sub_from
  sub_from-skip before n c s = refl

  sub_from-Cut :
      (before : Option ℕ) (s : String) → Cut (codes s) (codes (sub_from w r before zero s))
  sub_from-Cut before String.[] = unfold sub_from in ended
  sub_from-Cut before (String.◌∷◌ c s) = elim (sub_from-cases before c s) [
    | inl (_, e) ↦ rw e (kept (sub_from-Cut (some (code c)) s))
    | inr (n, e) ↦ rw e (unfold append in cut)
  ]

  -- At each place of the text where no match begins, no e-mail address stands.
  abbrev IsCovered : Option ℕ → String → Type 0
  IsCovered before String.[] = Unit
  IsCovered before (String.◌∷◌ c s) =
      (starts w r before (String.◌∷◌ c s) ≡ zero → begins_email (code c ∷ codes s) ≡ false)
      × IsCovered (some (code c)) s

  has_email-sub_from :
      (before : Option ℕ) (n : ℕ) (s : String)
      → IsCovered before s
      → has_email (codes (sub_from w r before n s)) ≡ false
  has_email-sub_from before zero String.[] h = unfold sub_from in refl
  has_email-sub_from before (suc n) String.[] h = unfold sub_from in refl
  has_email-sub_from before (suc n) (String.◌∷◌ c s) h =
      rw (sub_from-skip before n c s) (has_email-sub_from (some (code c)) n s h.1)
  has_email-sub_from before zero (String.◌∷◌ c s) h = elim (sub_from-cases before c s) [
    | inl (z, e) ↦
        let later = has_email-sub_from (some (code c)) zero s h.1 in
        let free = h.0 z in
        let less = begins_email-Cut (kept {c = code c} (sub_from-Cut (some (code c)) s)) in
        rw e (ground (arith, later, less))
    | inr (n, e) ↦ rw e (has_email-redacted _ (has_email-sub_from (some (code c)) n s h.1))
  ]

  -- A text without e-mail addresses gets none.
  IsCovered-without :
      (before : Option ℕ) (s : String) → has_email (codes s) ≡ false → IsCovered before s
  IsCovered-without before String.[] h = tt
  IsCovered-without before (String.◌∷◌ c s) h =
      (λ z. ground arith, IsCovered-without (some (code c)) s (ground arith))

  has_email-sub : (s : String) → has_email (codes s) ≡ false → has_email (codes (sub w r s)) ≡ false
  unfolding sub
  has_email-sub s h = has_email-sub_from none zero s (IsCovered-without none s h)

module _ (w : ℕ → Bool) where
  IsCovered-by_email : (before : Option ℕ) (s : String) → IsCovered w email_re before s
  IsCovered-by_email before String.[] = tt
  IsCovered-by_email before (String.◌∷◌ c s) =
      (begins_email-starts w before (String.◌∷◌ c s), IsCovered-by_email (some (code c)) s)

  has_email-sub_email : (s : String) → has_email (codes (sub w email_re s)) ≡ false
  unfolding sub
  has_email-sub_email s = has_email-sub_from w email_re none zero s (IsCovered-by_email none s)

  -- A masked text holds no e-mail address.
  pub has_email-mask_value :
      (is_digit : ℕ → Bool) (s : String) → has_email (codes (mask_value w is_digit s)) ≡ false
  unfolding mask_value
  has_email-mask_value d s =
      has_email-sub w (card_re w d) (sub w (iban_re w d) (sub w email_re s))
        (has_email-sub w (iban_re w d) (sub w email_re s) (has_email-sub_email s))
