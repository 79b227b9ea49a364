-- ===== src/Json/Values.antt =====
-- Python's truth, `or` and `list` of the values that `json` gives. `is_zero` says whether the literal
-- of a number denotes zero.
use ocr_service.Prelude.{String, Bool, true, false, not, Option, none, some, List, [], ◌∷◌, map}
use ocr_service.Text.{is_empty}
use ocr_service.Json.{Json, Items, nil, cons, Dict, entry, keys}

abbrev pub items : Items → List Json
items nil = []
items (cons v vs) = v ∷ items vs

abbrev pub characters : String → List Json
characters String.[] = []
characters (String.◌∷◌ c s) = Json.str (String.◌∷◌ c String.[]) ∷ characters s

-- `list(v)`; `none` is the `TypeError`
abbrev pub list_of : Json → Option (List Json)
list_of (Json.arr vs) = some (items vs)
list_of (Json.str s) = some (characters s)
list_of (Json.obj d) = some (map Json.str (keys d))
list_of v = none

-- `not v`
abbrev pub is_falsy : (String → Bool) → Json → Bool
is_falsy is_zero Json.null = true
is_falsy is_zero (Json.bool b) = not b
is_falsy is_zero (Json.num s) = is_zero s
is_falsy is_zero (Json.str s) = is_empty s
is_falsy is_zero (Json.arr nil) = true
is_falsy is_zero (Json.arr (cons v vs)) = false
is_falsy is_zero (Json.obj Dict.empty) = true
is_falsy is_zero (Json.obj (entry k v d)) = false

-- `d.get(k, v)`, of what `get` finds
abbrev pub or_else : Json → Option Json → Json
or_else v none = v
or_else v (some w) = w
