-- ===== src/Json.antt =====
-- JSON values, and Python's `dict` with text keys, which keeps the order of insertion. A number is
-- its literal: the program never computes with one.
pub mod Laws
pub mod Equal
pub mod Values
pub mod Nul
use ocr_service.Prelude.{
  ◌≡◌, ℕ, suc, String, Bool, true, false, not, ◌&&◌, Option, none, some, List, [], ◌∷◌, ◌==◌,
  string_eq, if◌then◌else◌,
}
use ocr_service.Text.{is_empty, strip}

mutual
  pub data Json : Type 0 where
    null : Json
    bool : Bool → Json
    num : String → Json
    str : String → Json
    arr : Items → Json
    obj : Dict → Json

  pub data Items : Type 0 where
    nil : Items
    cons : Json → Items → Items

  pub data Dict : Type 0 where
    empty : Dict
    entry : String → Json → Dict → Dict

-- `d.get(k)`
abbrev pub get : String → Dict → Option Json
get k empty = none
get k (entry j v d) = if j == k then some v else get k d

-- `d[k] = v`
abbrev pub put : String → Json → Dict → Dict
put k v empty = entry k v empty
put k v (entry j w d) = if j == k then entry j v d else entry j w (put k v d)

-- `list(d)`
abbrev pub keys : Dict → List String
keys empty = []
keys (entry k v d) = k ∷ keys d

-- `len(d)`
abbrev pub count : Dict → ℕ
count empty = 0
count (entry k v d) = suc (count d)

-- `{k: v for k, v in d.items() if p(v)}`
abbrev pub keep_values : (Json → Bool) → Dict → Dict
keep_values p empty = empty
keep_values p (entry k v d) = let rest = keep_values p d in if p v then entry k v rest else rest

-- No key is listed twice, as in every Python `dict`.
abbrev pub HasNewKey : String → Dict → Type 0
HasNewKey k d = get k d ≡ none

abbrev pub IsDict : Dict → Type 0
IsDict empty = Unit
IsDict (entry k v d) = HasNewKey k d × IsDict d
