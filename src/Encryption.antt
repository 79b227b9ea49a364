-- ===== src/Encryption.antt =====
-- app/domain/encryption.py. AES-GCM, HKDF, base64 and the random source are parameters.
pub mod Walking
pub mod RoundTrip
use Prim.Native.Char.{Char, code}
use ocr_service.Prelude.{
  ℕ, suc, ◌+◌, String, ◌≡◌, Bool, true, false, Option, none, some, List, [], ◌∷◌, ◌==◌, nat_eq,
  if◌then◌else◌,
}
use ocr_service.Prelude.Outcome.{Outcome, ok, err}
use ocr_service.Text.{is_empty, starts_with, drop_chars, append}
use ocr_service.Json
use ocr_service.Json.{Json, Dict, get, put}

-- `EncryptionError`: no usable master key, or a value that does not decrypt.
pub data EncryptionError : Type 0 where
  no_key decryption_failed : EncryptionError

-- What the module takes from its libraries, for one process. `tenant_key` is `none` where the master
-- key is missing or has not 32 bytes; `seal` is base64 of the nonce and the ciphertext, under a key
-- and with a tenant id as associated data; `unseal` is `none` where authentication fails.
pub record Cipher : Type 1 where
  pub Key : Type 0
  pub tenant_key : ℕ → Option Key
  pub seal : Key → ℕ → ℕ → String → String
  pub unseal : Key → ℕ → String → Option String

-- AES-GCM decrypts what it encrypted under the same key and associated data.
abbrev pub Decrypts : Cipher → Type 0
Decrypts c =
    (k : c.Key) (tenant nonce : ℕ) (text : String)
    → c.unseal k tenant (c.seal k tenant nonce text) ≡ some text

abbrev pub prefix : String
prefix = "ocrenc:v1:"

-- `is_encrypted`, on a text
abbrev pub is_encrypted : String → Bool
is_encrypted value = starts_with value prefix

-- The texts between the dots of a path, as the recursion of `_walk` on `path.partition(".")` takes
-- them: what follows the last dot is dropped if it is empty.
abbrev pub add_char : Char → List String → List String
add_char c [] = String.◌∷◌ c String.[] ∷ []
add_char c (s ∷ ss) = String.◌∷◌ c s ∷ ss

unfoldable pub segments : String → List String
segments String.[] = "" ∷ []
segments (String.◌∷◌ c s) =
    let rest = segments s in
    if code c == b'.' then (if is_empty s then "" ∷ [] else "" ∷ rest) else add_char c rest

module _ {E : Type 0} where
  abbrev pub put_text : String → Dict → Outcome E String → Outcome E Dict
  put_text k d (ok v) = ok (put k (Json.str v) d)
  put_text k d (err e) = err e

  abbrev pub put_child : String → Dict → Outcome E Dict → Outcome E Dict
  put_child k d (ok c) = ok (put k (Json.obj c) d)
  put_child k d (err e) = err e

  abbrev pub at_leaf : (String → Outcome E String) → String → Dict → Option Json → Outcome E Dict
  at_leaf f k d (some (Json.str v)) = put_text k d (f v)
  at_leaf f k d _ = ok d

  -- The recursion into a nested object.
  abbrev pub at_child : (Dict → Outcome E Dict) → String → Dict → Option Json → Outcome E Dict
  at_child f k d (some (Json.obj c)) = put_child k d (f c)
  at_child f k d _ = ok d

  -- `_walk`, on the segments of the path
  unfoldable pub walk : (String → Outcome E String) → List String → Dict → Outcome E Dict
  walk f [] d = ok d
  walk f (k ∷ []) d = at_leaf f k d (get k d)
  walk f (k ∷ l ∷ path) d = at_child (walk f (l ∷ path)) k d (get k d)

module _ (c : Cipher) (tenant : ℕ) where
  -- `encrypt_value`
  unfoldable pub encrypt_value : ℕ → String → Outcome EncryptionError String
  unfolding starts_with append
  encrypt_value nonce plaintext =
      if is_encrypted plaintext then ok plaintext else elim (c.tenant_key tenant) [
        | some k ↦ ok (append prefix (c.seal k tenant nonce plaintext))
        | none ↦ err no_key
      ]

  abbrev opened : Option String → Outcome EncryptionError String
  opened (some text) = ok text
  opened none = err decryption_failed

  -- `decrypt_value`; a missing key is caught by the same `except`.
  unfoldable pub decrypt_value : String → Outcome EncryptionError String
  unfolding starts_with
  decrypt_value envelope =
      if is_encrypted envelope
      then elim (c.tenant_key tenant) [
        | some k ↦ opened (c.unseal k tenant (drop_chars 10 envelope))
        | none ↦ err decryption_failed
      ]
      else ok envelope

  -- `encrypt_fields`; the field numbered `i` takes the nonce `nonces i`.
  unfoldable pub encrypt_fields : (ℕ → ℕ) → ℕ → List String → Dict → Outcome EncryptionError Dict
  unfolding walk segments encrypt_value
  encrypt_fields nonces i [] d = ok d
  encrypt_fields nonces i (field ∷ fields) d =
      elim (walk (encrypt_value (nonces i)) (segments field) d) [
        | ok d' ↦ encrypt_fields nonces (suc i) fields d'
        | err e ↦ err e
      ]

  -- `decrypt_fields`
  unfoldable pub decrypt_fields : List String → Dict → Outcome EncryptionError Dict
  unfolding walk segments decrypt_value
  decrypt_fields [] d = ok d
  decrypt_fields (field ∷ fields) d = elim (walk decrypt_value (segments field) d) [
    | ok d' ↦ decrypt_fields fields d'
    | err e ↦ err e
  ]
