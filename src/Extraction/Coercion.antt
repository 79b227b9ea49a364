-- ===== src/Extraction/Coercion.antt =====
-- `build_output_model` and `_coerce` of app/pipeline/extraction.py. `float`, `str.isidentifier` and
-- the truth of a number are parameters, as is the making of a class by pydantic.
use ocr_service.Prelude.{
  String, Bool, true, false, not, ◌&&◌, Option, none, some, List, [], ◌∷◌, if◌then◌else◌,
}
use ocr_service.Prelude.Outcome.{Outcome, ok, err}
use ocr_service.Text.{is_empty}
use ocr_service.Json
use ocr_service.Json.{Json, Dict, entry, get, keep_values}
use ocr_service.Json.Values.{list_of, is_falsy, or_else}
use ocr_service.Float.{Float, ◌<=◌}
use ocr_service.Pipeline.Nodes.{LlmExtraction}

-- A field of the model of an answer: an optional text, with its description.
pub record OutputField : Type 0 where
  pub name : String
  pub description : String

-- What is taken from Python and pydantic; `create_model` gives the text of its exception, if any.
pub record Pydantic (F : Type 0) : Type 0 where
  pub is_identifier : String → Bool
  pub show : Json → String
  pub is_zero : String → Bool
  pub to_float : Json → Outcome String F
  pub create_model : List OutputField → Option String

-- An answer: an `LLMExtraction`, what `model_dump()` or `dict` make of any other, or the exception
-- of `dict`.
pub data RawResult (F : Type 0) : Type 0 where
  extraction : LlmExtraction F → RawResult F
  mapping : Dict → RawResult F
  no_mapping : String → RawResult F

-- `v not in (None, "")`
abbrev pub is_value : Json → Bool
is_value Json.null = false
is_value (Json.str s) = not (is_empty s)
is_value v = true

abbrev attribute_error : String
attribute_error = "object has no such attribute"

-- pydantic's `list[str]`
abbrev pub texts_of : List Json → Option (List String)
texts_of [] = some []
texts_of (Json.str s ∷ vs) = elim (texts_of vs) [ some ss ↦ some (s ∷ ss) | none ↦ none ]
texts_of (v ∷ vs) = none

abbrev pub item : String → Dict → Json
item k d = or_else Json.null (get k d)

module _ {F : Type 0} ⦃fl : Float F⦄ where
  abbrev validation_error : Outcome String (LlmExtraction F)
  validation_error = err "validation error"

  -- `LLMExtraction(...)`: pydantic holds the confidence to [0, 1] and the names to texts.
  abbrev pub checked :
      Dict → F → Option (List String) → Option (List String) → Outcome String (LlmExtraction F)
  checked fields c none missing = validation_error
  checked fields c (some low) none = validation_error
  checked fields c (some low) (some missing) =
      if fl.ratio 0 1 <= c && c <= fl.ratio 1 1
      then ok (record {
        fields = fields;
        confidence = c;
        low_confidence_fields = low;
        missing_fields = missing;
      })
      else validation_error

  -- The arguments of that call, evaluated in order.
  abbrev pub validated :
      Outcome String Dict
      → Outcome String F
      → Outcome String (List Json)
      → Outcome String (List Json)
      → Outcome String (LlmExtraction F)
  validated (err m) c low missing = err m
  validated (ok fields) (err m) low missing = err m
  validated (ok fields) (ok c) (err m) missing = err m
  validated (ok fields) (ok c) (ok low) (err m) = err m
  validated (ok fields) (ok c) (ok low) (ok missing) =
      checked fields c (texts_of low) (texts_of missing)

module _ {F : Type 0} ⦃fl : Float F⦄ (py : Pydantic F) where
  -- One entry of the comprehension, in front of the others.
  abbrev pub add_field :
      String → Json → Outcome String (List OutputField) → Outcome String (List OutputField)
  add_field name (Json.obj spec) (ok fields) =
      let description = or_else (Json.str name) (get "description" spec) in
      ok ((record { name = name; description = py.show description }) ∷ fields)
  add_field name (Json.obj spec) (err message) = err message
  add_field name spec rest = err attribute_error

  -- The items of `properties` whose names are identifiers.
  unfoldable pub output_fields : Dict → Outcome String (List OutputField)
  output_fields Json.empty = ok []
  output_fields (entry name spec properties) =
      let rest = output_fields properties in
      if py.is_identifier name then add_field name spec rest else rest

  abbrev pub properties_of : Option Json → Outcome String (List OutputField)
  properties_of none = ok []
  properties_of (some (Json.obj properties)) = output_fields properties
  properties_of (some v) = err attribute_error

  -- `build_output_model`
  unfoldable pub build_output_model : Dict → Outcome String (List OutputField)
  unfolding output_fields
  build_output_model json_schema = elim (properties_of (get "properties" json_schema)) [
    | err message ↦ err message
    | ok fields ↦ elim (py.create_model fields) [ some message ↦ err message | none ↦ ok fields ]
  ]

  -- `data.get("fields") or {}`, without the nulls and the empty texts.
  abbrev pub kept_fields : Json → Outcome String Dict
  kept_fields (Json.obj d) = ok (keep_values is_value d)
  kept_fields v = if is_falsy py.is_zero v then ok Json.empty else err attribute_error

  -- `float(data.get("confidence") or 0.0)`
  abbrev pub confidence_of : Json → Outcome String F
  confidence_of v = if is_falsy py.is_zero v then ok (fl.ratio 0 1) else py.to_float v

  -- `list(data.get(k) or [])`
  abbrev pub names_of : Json → Outcome String (List Json)
  names_of v =
      if is_falsy py.is_zero v
      then ok []
      else elim (list_of v) [ none ↦ err "object is not iterable" | some vs ↦ ok vs ]

  -- `_coerce`
  unfoldable pub coerce : RawResult F → Outcome String (LlmExtraction F)
  coerce (extraction e) = ok e
  coerce (no_mapping message) = err message
  coerce (mapping answer) =
      validated (kept_fields (item "fields" answer)) (confidence_of (item "confidence" answer))
        (names_of (item "low_confidence_fields" answer)) (names_of (item "missing_fields" answer))
