-- ===== src/Json/Nul.antt =====
-- Which JSON values PostgreSQL refuses in a column `JSONB`: those with a NUL character in a text or in
-- a key.
use Prim.Native.Char.{code}
use ocr_service.Prelude.{String, Bool, false, ◌||◌, ◌==◌, nat_eq}
use ocr_service.Json.{Json, null, bool, num, str, arr, obj, Items, nil, cons, Dict, empty, entry}

unfoldable pub has_nul : String → Bool
has_nul String.[] = false
has_nul (String.◌∷◌ c s) = code c == 0 || has_nul s

unfoldable mutual
  unfolding has_nul

  pub json_has_nul : Json → Bool
  json_has_nul null = false
  json_has_nul (bool b) = false
  json_has_nul (num n) = false
  json_has_nul (str s) = has_nul s
  json_has_nul (arr vs) = items_have_nul vs
  json_has_nul (obj d) = dict_has_nul d

  pub items_have_nul : Items → Bool
  items_have_nul nil = false
  items_have_nul (cons v vs) = json_has_nul v || items_have_nul vs

  pub dict_has_nul : Dict → Bool
  dict_has_nul empty = false
  dict_has_nul (entry k v d) = has_nul k || (json_has_nul v || dict_has_nul d)
