-- ===== src/Masking/Events.antt =====
-- `_scrub` of app/observability/pii_filter.py: what a log event shows at any depth.
use ocr_service.Prelude.{ℕ, ◌≡◌, refl, Bool, true, false, ◌∷◌, Bool-cases, inl, inr, ap}
use ocr_service.Text.{codes}
use ocr_service.Json.{
  Json, null, bool, num, str, arr, obj, Items, nil, cons, Dict, empty, entry, keys,
}
use ocr_service.Masking.{
  redacted, is_sensitive, scrub, pii_redaction_processor, scrub_dict, scrub_items, is_local,
  is_domain,
}
use ocr_service.Masking.Emails.{has_email}
use ocr_service.Masking.Cuts.{has_email-mask_value}

redacted_clean : has_email (codes redacted) ≡ false
unfolding is_local is_domain
redacted_clean = refl

module _ (is_word is_digit : ℕ → Bool) where
  mutual
    -- Every value under a sensitive key is the placeholder, and no text holds an e-mail address.
    pub IsMasked : Json → Type 0
    IsMasked null = Unit
    IsMasked (bool b) = Unit
    IsMasked (num n) = Unit
    IsMasked (str s) = has_email (codes s) ≡ false
    IsMasked (arr vs) = AllMasked vs
    IsMasked (obj d) = EachMasked d

    pub AllMasked : Items → Type 0
    AllMasked nil = Unit
    AllMasked (cons v vs) = IsMasked v × AllMasked vs

    pub EachMasked : Dict → Type 0
    EachMasked empty = Unit
    EachMasked (entry k v d) =
        (is_sensitive is_word k ≡ true → v ≡ str redacted) × IsMasked v × EachMasked d

  mutual
    unfolding scrub IsMasked

    pub scrub-IsMasked : (v : Json) → IsMasked (scrub is_word is_digit v)
    scrub-IsMasked null = tt
    scrub-IsMasked (bool b) = tt
    scrub-IsMasked (num n) = tt
    scrub-IsMasked (str s) = has_email-mask_value is_word is_digit s
    scrub-IsMasked (arr vs) = scrub_items-AllMasked vs
    scrub-IsMasked (obj d) = scrub_dict-EachMasked d

    scrub_items-AllMasked : (vs : Items) → AllMasked (scrub_items is_word is_digit vs)
    scrub_items-AllMasked nil = tt
    scrub_items-AllMasked (cons v vs) = (scrub-IsMasked v, scrub_items-AllMasked vs)

    pub scrub_dict-EachMasked : (d : Dict) → EachMasked (scrub_dict is_word is_digit d)
    scrub_dict-EachMasked empty = tt
    scrub_dict-EachMasked (entry k v d) = elim (Bool-cases (is_sensitive is_word k)) [
      | inl e ↦ rw e ((λ _. refl), redacted_clean, scrub_dict-EachMasked d)
      | inr e ↦ rw e ((λ h. cc), scrub-IsMasked v, scrub_dict-EachMasked d)
    ]

  keys-scrub_dict : (d : Dict) → keys (scrub_dict is_word is_digit d) ≡ keys d
  unfolding scrub_dict
  keys-scrub_dict empty = refl
  keys-scrub_dict (entry k v d) = ap (λ ks. k ∷ ks) (keys-scrub_dict d)

  -- In what the processor leaves of a log event, with the same keys in the same order, every value
  -- under a sensitive key, at whatever depth, is `[REDACTED]`, and no text value holds an e-mail
  -- address: a name, an `@`, a domain, a dot and two letters.
  pub pii_redaction_processor-IsMasked :
      (event : Dict)
      → (keys (pii_redaction_processor is_word is_digit event) ≡ keys event)
        × IsMasked (obj (pii_redaction_processor is_word is_digit event))
  unfolding pii_redaction_processor IsMasked
  pii_redaction_processor-IsMasked event = (keys-scrub_dict event, scrub_dict-EachMasked event)
