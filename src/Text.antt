-- ===== src/Text.antt =====
-- What the program uses of Python's `str`, on native texts: `strip`, `split`, `partition`, `in`.
pub mod Laws
use Prim.Native.Char.{Char, code}
use ocr_service.Prelude.{
  length, zero, suc, ℕ, String, Bool, true, false, not, ◌&&◌, ◌||◌, List, [], ◌∷◌, ltb, leb, ◌==◌,
  nat_eq, if◌then◌else◌,
}

-- The code points of a text.
abbrev pub codes : String → List ℕ
codes String.[] = []
codes (String.◌∷◌ c s) = code c ∷ codes s

-- `not s`
abbrev pub is_empty : String → Bool
is_empty String.[] = true
is_empty (String.◌∷◌ c s) = false

-- `len(s)`, in code points
abbrev pub size : String → ℕ
size s = length (codes s)

-- `c.isspace()`: the code points that `strip` and `split` take for white space.
unfoldable pub is_space : ℕ → Bool
is_space c =
    (leb 0x9 c && leb c 0xd)
    || (leb 0x1c c && leb c 0x20)
    || c == 0x85
    || c == 0xa0
    || c == 0x1680
    || (leb 0x2000 c && leb c 0x200a)
    || c == 0x2028
    || c == 0x2029
    || c == 0x202f
    || c == 0x205f
    || c == 0x3000

unfoldable pub lstrip : String → String
lstrip String.[] = String.[]
lstrip (String.◌∷◌ c s) = if is_space (code c) then lstrip s else String.◌∷◌ c s

unfoldable pub rstrip : String → String
rstrip String.[] = String.[]
rstrip (String.◌∷◌ c s) =
    let rest = rstrip s in
    if is_empty rest && is_space (code c) then String.[] else String.◌∷◌ c rest

-- `s.strip()`
unfoldable pub strip : String → String
unfolding lstrip rstrip is_space
strip s = rstrip (lstrip s)

-- Put a word in front, unless it is empty.
abbrev pub add_word : String → List String → List String
add_word w ws = if is_empty w then ws else w ∷ ws

-- The characters up to the next white space, and the words after it.
unfoldable pub words : String → String × List String
words String.[] = (String.[], [])
words (String.◌∷◌ c s) =
    let (w, ws) = words s in
    if is_space (code c) then (String.[], add_word w ws) else (String.◌∷◌ c w, ws)

-- `s.split()`
unfoldable pub split : String → List String
unfolding words is_space
split s = let (w, ws) = words s in add_word w ws

-- `s.partition(sep)` at the first character that is `sep`, without the middle part.
unfoldable pub partition : ℕ → String → String × String
partition sep String.[] = (String.[], String.[])
partition sep (String.◌∷◌ c s) =
    let rest = partition sep s in
    if code c == sep then (String.[], s) else (String.◌∷◌ c rest.0, rest.1)

-- `s.replace(c, "")` for one character.
unfoldable pub remove_char : ℕ → String → String
remove_char d String.[] = String.[]
remove_char d (String.◌∷◌ c s) =
    let rest = remove_char d s in if code c == d then rest else String.◌∷◌ c rest

-- `s.startswith(p)`, and what is left after the prefix.
unfoldable pub starts_with : String → String → Bool
starts_with s String.[] = true
starts_with String.[] (String.◌∷◌ d p) = false
starts_with (String.◌∷◌ c s) (String.◌∷◌ d p) = code c == code d && starts_with s p

-- `s[n:]`
abbrev pub drop_chars : ℕ → String → String
drop_chars zero s = s
drop_chars (suc n) String.[] = String.[]
drop_chars (suc n) (String.◌∷◌ c s) = drop_chars n s

-- `s[:n]`
abbrev pub take_chars : ℕ → String → String
take_chars zero s = String.[]
take_chars (suc n) String.[] = String.[]
take_chars (suc n) (String.◌∷◌ c s) = String.◌∷◌ c (take_chars n s)

-- `s + t`
unfoldable pub append : String → String → String
append String.[] t = t
append (String.◌∷◌ c s) t = String.◌∷◌ c (append s t)

-- A character in front of the first of the parts.
abbrev pub extend_first : Char → List String → List String
extend_first c [] = []
extend_first c (s ∷ parts) = String.◌∷◌ c s ∷ parts

-- `s.split(sep)` at each character that is `sep`.
unfoldable pub split_on : ℕ → String → List String
split_on sep String.[] = String.[] ∷ []
split_on sep (String.◌∷◌ c s) =
    let parts = split_on sep s in if code c == sep then String.[] ∷ parts else extend_first c parts
