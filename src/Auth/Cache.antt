-- ===== src/Auth/Cache.antt =====
-- `_TTLCache` of app/services/auth.py. Times are readings of `time.monotonic()`, in ticks.
pub mod Refinement
use ocr_service.Prelude.{
  ℕ, ◌+◌, String, Option, none, some, List, [], ◌∷◌, length, ltb, leb, ◌==◌, string_eq,
  if◌then◌else◌,
}

-- What is stored under a key.
pub record Entry (V : Type 0) : Type 0 where
  pub expires : ℕ
  pub value : V

-- Python's `dict` with text keys.
abbrev pub Data : Type 0 → Type 0
Data V = List (String × Entry V)

pub record TtlCache (V : Type 0) : Type 0 where
  pub ttl : ℕ
  pub maxsize : ℕ
  pub entries : Data V

module _ {V : Type 0} where
  -- `_TTLCache.__init__`
  abbrev pub new_cache : ℕ → ℕ → TtlCache V
  new_cache ttl_s maxsize = record { ttl = ttl_s; maxsize = maxsize; entries = [] }

  -- `self._data.get(key)`
  unfoldable pub find : String → Data V → Option (Entry V)
  find key [] = none
  find key ((k, e) ∷ d) = if k == key then some e else find key d

  -- `self._data.pop(key, None)`
  unfoldable pub drop_key : String → Data V → Data V
  drop_key key [] = []
  drop_key key ((k, e) ∷ d) = let rest = drop_key key d in if k == key then rest else (k, e) ∷ rest

  -- `self._data[key] = e`
  unfoldable pub put_key : String → Entry V → Data V → Data V
  put_key key e [] = (key, e) ∷ []
  put_key key e ((k, f) ∷ d) =
      let rest = put_key key e d in if k == key then (k, e) ∷ d else (k, f) ∷ rest

  -- `get`; `none` is `(False, None)`.
  unfoldable pub get_cached : ℕ → String → TtlCache V → Option V × TtlCache V
  unfolding find drop_key
  get_cached now key c = elim (find key c.entries) [
    | none ↦ (none, c)
    | some e ↦
        if ltb e.expires now
        then (none, record c { entries = drop_key key c.entries })
        else (some e.value, c)
  ]

  -- `set`
  unfoldable pub set_cached : ℕ → String → V → TtlCache V → TtlCache V
  unfolding put_key
  set_cached now key value c =
      let kept = if leb c.maxsize (length c.entries) then [] else c.entries in
      record c { entries = put_key key (record { expires = now + c.ttl; value = value }) kept }

  -- `clear`
  abbrev pub clear_cache : TtlCache V → TtlCache V
  clear_cache c = record c { entries = [] }
