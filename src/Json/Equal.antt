-- ===== src/Json/Equal.antt =====
-- Python's `==` of JSON values: of dicts whatever their order.
use ocr_service.Prelude.{Bool, true, false, not, ◌&&◌, none, some, ◌==◌, string_eq, nat_eq}
use ocr_service.Json.{Json, Items, nil, cons, Dict, empty, entry, get, count}

abbrev bool_eq : Bool → Bool → Bool
bool_eq true b = b
bool_eq false b = not b

unfoldable mutual
  pub json_eq : Json → Json → Bool
  json_eq Json.null Json.null = true
  json_eq (Json.bool a) (Json.bool b) = bool_eq a b
  json_eq (Json.num a) (Json.num b) = a == b
  json_eq (Json.str a) (Json.str b) = a == b
  json_eq (Json.arr a) (Json.arr b) = items_eq a b
  json_eq (Json.obj a) (Json.obj b) = count a == count b && within a b
  json_eq _ _ = false

  pub items_eq : Items → Items → Bool
  items_eq nil nil = true
  items_eq (cons a xs) (cons b ys) = json_eq a b && items_eq xs ys
  items_eq _ _ = false

  -- Each key of the first has an equal value in the second.
  pub within : Dict → Dict → Bool
  within empty e = true
  within (entry k v d) e = elim (get k e) [ some w ↦ json_eq v w && within d e | none ↦ false ]
