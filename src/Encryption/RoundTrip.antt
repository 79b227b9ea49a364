-- ===== src/Encryption/RoundTrip.antt =====
-- Encryption and decryption of app/domain/encryption.py undo one another.
use ocr_service.Prelude.{
  ℕ, String, ◌≡◌, refl, true, false, Option, none, some, List, [], ◌∷◌, arith, inl, inr,
}
use ocr_service.Prelude.Outcome.{Outcome, ok, Outcome-cases}
use ocr_service.Text.{starts_with, append, drop_chars}
use ocr_service.Json.{Json, Dict, get}
use ocr_service.Json.Laws.{put-get, put-put, get-put_self}
use ocr_service.Encryption.{
  EncryptionError, Cipher, Decrypts, prefix, is_encrypted, segments, walk, at_leaf, at_child,
  encrypt_value, decrypt_value, encrypt_fields, decrypt_fields,
}

starts_with-append-prefix : (s : String) → is_encrypted (append prefix s) ≡ true
unfolding starts_with append
starts_with-append-prefix s = refl

drop-append-prefix : (s : String) → drop_chars 10 (append prefix s) ≡ s
unfolding append
drop-append-prefix s = refl

module _ (c : Cipher) (tenant nonce : ℕ) where
  -- Under a usable key, a text that is not an envelope becomes an envelope, which decrypts to it.
  pub decrypt-encrypt_value :
      Decrypts c
      → (k : c.Key) (text : String) → c.tenant_key tenant ≡ some k
      → is_encrypted text ≡ false
      → (e : String) × (encrypt_value c tenant nonce text ≡ ok e)
        × (is_encrypted e ≡ true)
        × (decrypt_value c tenant e ≡ ok text)
  decrypt-encrypt_value law k text key plain = (
    append prefix (c.seal k tenant nonce text),
    (unfold encrypt_value in rw (plain, key) refl),
    starts_with-append-prefix _,
    (unfold decrypt_value append starts_with in rw (key, law k tenant nonce text) refl),
  )

-- The text at the end of a path.
abbrev leaf_text : Option Json → Option String
leaf_text (some (Json.str v)) = some v
leaf_text _ = none

abbrev child_of : Option Json → Option Dict
child_of (some (Json.obj c)) = some c
child_of _ = none

abbrev pub leaf : List String → Dict → Option String
leaf [] d = none
leaf (k ∷ []) d = leaf_text (get k d)
leaf (k ∷ l ∷ path) d = elim (child_of (get k d)) [ some c ↦ leaf (l ∷ path) c | none ↦ none ]

module _ (f g : String → Outcome EncryptionError String) where
  at_leaf-at_leaf :
      (k : String) (d d' : Dict) (o : Option Json)
      → get k d ≡ o
      → ((v w : String) → leaf_text o ≡ some v → f v ≡ ok w → g w ≡ ok v)
      → at_leaf f k d o ≡ ok d'
      → at_leaf g k d' (get k d') ≡ ok d
  at_leaf-at_leaf k d d' none e inv h = ground arith
  at_leaf-at_leaf k d d' (some (Json.str v)) e inv h = elim (Outcome-cases (f v)) [
    | inl (w, fe) ↦ ground (
      arith,
      get-put_self k (Json.str w) d,
      inv v w,
      put-put k (Json.str v) (Json.str w) d,
      put-get k (Json.str v) d,
    )
    | inr (x, fe) ↦ absurd (ground arith)
  ]
  at_leaf-at_leaf k d d' (some v) e inv h = ground arith

  at_child-at_child :
      (k : String) (path : List String) (d d' : Dict) (o : Option Json)
      → get k d ≡ o
      → ((c c' : Dict) → child_of o ≡ some c → walk f path c ≡ ok c' → walk g path c' ≡ ok c)
      → at_child (walk f path) k d o ≡ ok d'
      → at_child (walk g path) k d' (get k d') ≡ ok d
  at_child-at_child k path d d' none e inv h = ground arith
  at_child-at_child k path d d' (some (Json.obj c)) e inv h = elim (Outcome-cases (walk f path c)) [
    | inl (w, fe) ↦ ground (
      arith,
      get-put_self k (Json.obj w) d,
      inv c w,
      put-put k (Json.obj c) (Json.obj w) d,
      put-get k (Json.obj c) d,
    )
    | inr (x, fe) ↦ absurd (ground arith)
  ]
  at_child-at_child k path d d' (some v) e inv h = ground arith

  -- Where `g` undoes `f` on the text at the end of the path, a walk with `g` undoes one with `f`.
  walk-walk :
      (path : List String) (d d' : Dict)
      → ((v w : String) → leaf path d ≡ some v → f v ≡ ok w → g w ≡ ok v)
      → walk f path d ≡ ok d'
      → walk g path d' ≡ ok d
  unfolding walk
  walk-walk [] d d' inv h = ground arith
  walk-walk (k ∷ []) d d' inv h = at_leaf-at_leaf k d d' (get k d) refl inv h
  walk-walk (k ∷ l ∷ path) d d' inv h =
      at_child-at_child k (l ∷ path) d d' (get k d) refl
        (λ c c' at. walk-walk (l ∷ path) c c' (λ v w e. inv v w (rw (at, leaf) e))) h

-- Under a usable key, encrypting a field and decrypting it again gives back the record, whatever
-- the path and whatever stands at its end, unless that is an envelope already.
pub decrypt-encrypt_field :
    (c : Cipher) (tenant : ℕ) (nonces : ℕ → ℕ) (field : String) (d d' : Dict)
    → Decrypts c
    → (k : c.Key) → c.tenant_key tenant ≡ some k
    → ((v : String) → leaf (segments field) d ≡ some v → is_encrypted v ≡ false)
    → encrypt_fields c tenant nonces 0 (field ∷ []) d ≡ ok d'
    → decrypt_fields c tenant (field ∷ []) d' ≡ ok d
unfolding encrypt_fields decrypt_fields
decrypt-encrypt_field c tenant nonces field d d' law k key plain h = ground (arith, back)
  where
    walked : walk (encrypt_value c tenant (nonces 0)) (segments field) d ≡ ok d'
    walked = elim (Outcome-cases (walk (encrypt_value c tenant (nonces 0)) (segments field) d)) [
      | inl (w, e) ↦ ground arith
      | inr (x, e) ↦ absurd (ground arith)
    ]

    back : walk (decrypt_value c tenant) (segments field) d' ≡ ok d
    back =
        walk-walk (encrypt_value c tenant (nonces 0)) (decrypt_value c tenant) (segments field) d d'
          (λ v w at sealed.
            let (e, enc, _, dec) =
              decrypt-encrypt_value c tenant (nonces 0) law k v key (plain v at) in
            ground arith)
          walked
