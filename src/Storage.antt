-- ===== src/Storage.antt =====
-- `LocalFileStorage` of app/domain/storage.py, on the files under its root. A file is named by its
-- directory and its name there; ids are texts.
pub mod Laws
use ocr_service.Prelude.{
  ℕ, String, Bool, true, false, ◌&&◌, ◌||◌, Option, none, some, List, [], ◌∷◌, ◌==◌, string_eq,
  if◌then◌else◌, any,
}
use ocr_service.Prelude.Outcome.{Outcome, ok, err}
use ocr_service.Text.{append, split_on}

-- `ValueError` of the guard, and what reading a missing file raises.
pub data StorageError : Type 0 where
  invalid_storage_key no_such_file : StorageError

pub record File : Type 0 where
  pub directory : String
  pub name : String
  pub content : List ℕ

-- The path of a file below the root.
abbrev pub FilePath : Type 0
FilePath = String × String

-- `_key`
unfoldable pub storage_key : String → String → String
unfolding append
storage_key tenant_id document_id = append tenant_id (append "/" document_id)

-- `p in ("", ".", "..")`
abbrev pub is_special : String → Bool
is_special p = p == "" || (p == "." || p == "..")

abbrev pub path_of_parts : List String → Outcome StorageError FilePath
path_of_parts (d ∷ n ∷ []) =
    if is_special d || is_special n then err invalid_storage_key else ok (d, n)
path_of_parts parts = err invalid_storage_key

-- `_path`
unfoldable pub path_of : String → Outcome StorageError FilePath
unfolding split_on
path_of key = path_of_parts (split_on b'/' key)

abbrev pub is_file : FilePath → File → Bool
is_file (d, n) f = f.directory == d && f.name == n

unfoldable pub read_bytes : FilePath → List File → Outcome StorageError (List ℕ)
read_bytes p [] = err no_such_file
read_bytes p (f ∷ files) = if is_file p f then ok f.content else read_bytes p files

-- `unlink(missing_ok=True)`
unfoldable pub unlink : FilePath → List File → List File
unlink p [] = []
unlink p (f ∷ files) = let rest = unlink p files in if is_file p f then rest else f ∷ rest

-- `write_bytes`
unfoldable pub write_bytes : FilePath → List ℕ → List File → List File
unfolding unlink
write_bytes (d, n) content files =
    record { directory = d; name = n; content = content } ∷ unlink (d, n) files

-- `save`
unfoldable pub save_blob :
    String → String → List ℕ → List File → Outcome StorageError String × List File
unfolding storage_key path_of write_bytes
save_blob tenant_id document_id content files =
    let key = storage_key tenant_id document_id in
    elim (path_of key) [ err e ↦ (err e, files) | ok p ↦ (ok key, write_bytes p content files) ]

-- `load`
unfoldable pub load_blob : String → List File → Outcome StorageError (List ℕ)
unfolding path_of read_bytes
load_blob key files = elim (path_of key) [ err e ↦ err e | ok p ↦ read_bytes p files ]

-- `delete`
unfoldable pub delete_blob : String → List File → Outcome StorageError Unit × List File
unfolding path_of unlink
delete_blob key files = elim (path_of key) [
  | err e ↦ (err e, files)
  | ok p ↦ (ok tt, unlink p files)
]
