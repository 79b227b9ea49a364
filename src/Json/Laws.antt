-- ===== src/Json/Laws.antt =====
-- Laws of `dict`.
use ocr_service.Prelude.{
  ◌≢◌, String, ◌≡◌, refl, some, arith, eq_iff, ◌==◌, string_eq, if◌then◌else◌,
}
use ocr_service.Json.{Json, Dict, empty, entry, get, put, IsDict}

pub get-put :
    (k j : String) (v : Json) (d : Dict) → get j (put k v d) ≡ (if k == j then some v else get j d)
get-put k j v empty = refl
get-put k j v (entry i w d) = ground (arith, eq_iff k j, eq_iff i k, eq_iff i j, get-put k j v d)

pub put-IsDict : (k : String) (v : Json) (d : Dict) → IsDict d → IsDict (put k v d)
put-IsDict k v empty h = (refl, tt)
put-IsDict k v (entry i w d) h =
    ground (arith, put-IsDict k v d h.1, get-put k i v d, eq_iff k i, eq_iff i k)

pub put-get : (k : String) (v : Json) (d : Dict) → get k d ≡ some v → put k v d ≡ d
put-get k v empty h = cc
put-get k v (entry j w d) h = ground (arith, eq_iff j k, put-get k v d)

pub put-put : (k : String) (v w : Json) (d : Dict) → put k v (put k w d) ≡ put k v d
put-put k v w empty = ground (arith, eq_iff k k)
put-put k v w (entry j u d) = ground (arith, eq_iff j k, put-put k v w d)

pub get-put_self : (k : String) (v : Json) (d : Dict) → get k (put k v d) ≡ some v
get-put_self k v d = ground (arith, get-put k k v d, eq_iff k k)

pub get-put_ne : (k j : String) (v : Json) (d : Dict) → k ≢ j → get j (put k v d) ≡ get j d
get-put_ne k j v d ne = ground (arith, get-put k j v d, eq_iff k j)
