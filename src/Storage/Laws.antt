-- ===== src/Storage/Laws.antt =====
-- The blobs of app/domain/storage.py: one for each tenant and document.
use Prim.Native.Char.{code}
use ocr_service.Prelude.{
  ℕ, ◌≡◌, ◌≢◌, refl, sym, ap, ◌∙◌, String, Bool, true, false, ◌&&◌, List, [], ◌∷◌, All, ◌==◌,
  string_eq, nat_eq, arith, eq_iff, if◌then◌else◌, Bool-cases, inl, inr,
}
use ocr_service.Prelude.Outcome.{Outcome, ok, err}
use ocr_service.Text.{append, codes, split_on}
use ocr_service.Storage.{
  no_such_file, StorageError, invalid_storage_key, File, FilePath, storage_key, is_special, path_of,
  is_file, read_bytes, unlink, write_bytes, save_blob, load_blob, delete_blob,
}

-- A text that is a name in a directory: no slash, and none of the special names.
pub record IsName (s : String) : Type 0 where
  pub no_slash : All (λ c. c ≢ b'/') (codes s)
  pub plain : is_special s ≡ false

split_on_none : (s : String) → All (λ c. c ≢ b'/') (codes s) → split_on b'/' s ≡ s ∷ []
unfolding split_on
split_on_none String.[] h = refl
split_on_none (String.◌∷◌ c s) h = elim (Bool-cases (code c == b'/')) [
  | inl e ↦ absurd (ground arith)
  | inr e ↦ rw (e, split_on_none s h.1) refl
]

split_on-key :
    (d n : String)
    → All (λ c. c ≢ b'/') (codes d)
    → All (λ c. c ≢ b'/') (codes n)
    → split_on b'/' (append d (append "/" n)) ≡ d ∷ n ∷ []
unfolding split_on append
split_on-key String.[] n h k = rw (split_on_none n k) refl
split_on-key (String.◌∷◌ c d) n h k = elim (Bool-cases (code c == b'/')) [
  | inl e ↦ absurd (ground arith)
  | inr e ↦ rw (e, split_on-key d n h.1 k) refl
]

path_of-key : (d n : String) → IsName d → IsName n → path_of (storage_key d n) ≡ ok (d, n)
unfolding path_of storage_key
path_of-key d n h k = rw (split_on-key d n h.no_slash k.no_slash, h.plain, k.plain) refl

-- Whether two paths are one.
abbrev pub is_same : FilePath → FilePath → Bool
is_same (d, n) (e, m) = d == e && n == m

both : (a b : Bool) → (a && b) ≡ true → (a ≡ true) × (b ≡ true)
both true true h = (refl, refl)
both true false h = absurd (ground arith)
both false b h = absurd (ground arith)

is_file-is_same : (p q : FilePath) (f : File) → is_file p f ≡ true → is_file q f ≡ is_same p q
is_file-is_same (d, n) (e, m) f h =
    let (a, b) = both (f.directory == d) (f.name == n) h in
    rw ((eq_iff f.directory d).0 a, (eq_iff f.name n).0 b) refl

is_same-is_file : (p q : FilePath) (f : File) → is_same p q ≡ true → is_file q f ≡ is_file p f
is_same-is_file (d, n) (e, m) f h =
    let (a, b) = both (d == e) (n == m) h in rw ((eq_iff d e).0 a, (eq_iff n m).0 b) refl

module _ {A : Type 0} where
  either_way : (b : Bool) (x : A) → x ≡ (if b then x else x)
  either_way true x = refl
  either_way false x = refl

  twice : (b : Bool) (x y z : A) → (if b then x else (if b then y else z)) ≡ (if b then x else z)
  twice true x y z = refl
  twice false x y z = refl

read_bytes-unlink :
    (p q : FilePath) (files : List File)
    → read_bytes q (unlink p files) ≡ (if is_same p q then err no_such_file else read_bytes q files)
unfolding read_bytes unlink
read_bytes-unlink p q [] = either_way (is_same p q) (err no_such_file)
read_bytes-unlink p q (f ∷ files) = elim (Bool-cases (is_file p f)) [
  | inl h ↦
      rw (h, is_file-is_same p q f h, read_bytes-unlink p q files)
        (sym (twice (is_same p q) (err no_such_file) (ok f.content) (read_bytes q files)))
  | inr h ↦ (elim (Bool-cases (is_same p q)) [
    | inl s ↦ rw (h, s, is_same-is_file p q f s, h, read_bytes-unlink p q files, s) refl
    | inr s ↦ rw (h, read_bytes-unlink p q files, s) refl
  ])
]

read_bytes-write_bytes :
    (p q : FilePath) (content : List ℕ) (files : List File)
    → read_bytes q (write_bytes p content files)
      ≡ (if is_same p q then ok content else read_bytes q files)
unfolding read_bytes write_bytes
read_bytes-write_bytes (d, n) q content files =
    rw (read_bytes-unlink (d, n) q files)
      (twice (is_same (d, n) q) (ok content) (err no_such_file) (read_bytes q files))

-- The store as a map from pairs of a tenant and a document: what its blob holds, if there is one.
abbrev pub blob_of : List File → String → String → Outcome StorageError (List ℕ)
blob_of files tenant_id document_id = load_blob (storage_key tenant_id document_id) files

load_blob-key :
    (u e : String) (files : List File)
    → IsName u
    → IsName e
    → blob_of files u e ≡ read_bytes (u, e) files
unfolding load_blob
load_blob-key u e files hu he = rw (load_blob, path_of-key u e hu he) refl

save_blob-key :
    (t d : String) (content : List ℕ) (files : List File)
    → IsName t
    → IsName d
    → save_blob t d content files ≡ (ok (storage_key t d), write_bytes (t, d) content files)
unfolding save_blob
save_blob-key t d content files ht hd = rw (save_blob, path_of-key t d ht hd) refl

delete_blob-key :
    (t d : String) (files : List File)
    → IsName t
    → IsName d
    → delete_blob (storage_key t d) files ≡ (ok tt, unlink (t, d) files)
unfolding delete_blob
delete_blob-key t d files ht hd = rw (delete_blob, path_of-key t d ht hd) refl

-- Saving a document's blob under ids that are names changes what is loaded for that tenant and that
-- document, and for no other pair; deleting it removes it, and no other.
pub blob_of-save_blob :
    (t d u e : String) (content : List ℕ) (files : List File)
    → IsName t
    → IsName d
    → IsName u
    → IsName e
    → ((save_blob t d content files).0 ≡ ok (storage_key t d))
      × (blob_of (save_blob t d content files).1 u e
          ≡ (if t == u && d == e then ok content else blob_of files u e))
      × (blob_of (delete_blob (storage_key t d) files).1 u e
          ≡ (if t == u && d == e then err no_such_file else blob_of files u e))
blob_of-save_blob t d u e content files ht hd hu he = (
  ap (λ r. r.0) saved,
  ap (λ r. blob_of r.1 u e) saved
      ∙ load_blob-key u e (write_bytes (t, d) content files) hu he
      ∙ read_bytes-write_bytes (t, d) (u, e) content files
      ∙ rw (load_blob-key u e files hu he) refl,
  ap (λ r. blob_of r.1 u e) deleted
      ∙ load_blob-key u e (unlink (t, d) files) hu he
      ∙ read_bytes-unlink (t, d) (u, e) files
      ∙ rw (load_blob-key u e files hu he) refl,
)
  where
    saved : save_blob t d content files ≡ (ok (storage_key t d), write_bytes (t, d) content files)
    saved = save_blob-key t d content files ht hd

    deleted : delete_blob (storage_key t d) files ≡ (ok tt, unlink (t, d) files)
    deleted = delete_blob-key t d files ht hd

-- A key that is not two names around a slash touches no file, whatever is done with it.
pub invalid_key_refused :
    (key : String) (files : List File)
    → path_of key ≡ err invalid_storage_key
    → (load_blob key files ≡ err invalid_storage_key) × ((delete_blob key files).1 ≡ files)
unfolding load_blob delete_blob
invalid_key_refused key files h = (rw (load_blob, h) refl, rw (delete_blob, h) refl)
