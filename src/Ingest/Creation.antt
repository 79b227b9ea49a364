-- ===== src/Ingest/Creation.antt =====
-- Which uploads `validate_upload` of app/services/ingest.py accepts.
use ocr_service.Prelude.{
  ℕ, ◌≤◌, ◌<◌, ◌≡◌, ◌↔◌, String, true, Option, none, List, [], ◌∷◌, length, arith,
}
use ocr_service.Ingest.{Settings, is_allowed, validate_upload}

-- An upload is accepted just when it is not empty, not over the limit, and of an allowed type.
pub validate_upload_iff :
    (settings : Settings) (content : List ℕ) (mime_type : Option String)
    → (validate_upload settings content mime_type ≡ none) ↔ (
        (0 < length content)
        × (length content ≤ settings.max_file_size_bytes)
        × (is_allowed mime_type settings.allowed_mime_types ≡ true))
unfolding validate_upload
validate_upload_iff settings [] mime_type = ground arith
validate_upload_iff settings (b ∷ content) mime_type = ground arith
