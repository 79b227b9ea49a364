-- ===== src/Regex/Syntax.antt =====
-- The forms of the patterns of app/domain/guardrails/injection.py and of
-- app/observability/pii_filter.py, in the constructors of `Regex`.
use Prim.Native.Char.{code}
use ocr_service.Prelude.{ℕ, zero, suc, ◌-◌, String, Bool, ◌&&◌, ◌||◌, leb, ◌==◌, nat_eq}
use ocr_service.Regex.{Regex, one, eps, seq, alt, star}

-- A letter of a pattern, in lower case, against a character: the same, or its capital, or one of
-- the further characters that `re` folds to `i`, `k` and `s`.
unfoldable pub same_letter : ℕ → ℕ → Bool
same_letter c x =
    x == c
    || (leb b'a' c && leb c b'z' && x == c - 32)
    || (c == b'i' && (x == 0x130 || x == 0x131))
    || (c == b'k' && x == 0x212a)
    || (c == b's' && x == 0x17f)

-- A literal text, under `re.IGNORECASE`.
abbrev pub lit : String → Regex
lit String.[] = eps
lit (String.◌∷◌ c s) = seq (one (same_letter (code c))) (lit s)

-- `r?`, greedy
abbrev pub opt : Regex → Regex
opt r = alt r eps

infixr 20 ◌▸◌
abbrev pub ◌▸◌ : Regex → Regex → Regex
r ▸ s = seq r s

infixr 25 ◌∣◌
abbrev pub ◌∣◌ : Regex → Regex → Regex
r ∣ s = alt r s

-- `r+`, greedy
abbrev pub some_of : Regex → Regex
some_of r = seq r (star r)

-- `r{n}`
abbrev pub times : ℕ → Regex → Regex
times zero r = eps
times (suc n) r = seq r (times n r)

-- `r{0,n}`, greedy
abbrev pub up_to : ℕ → Regex → Regex
up_to zero r = eps
up_to (suc n) r = opt (seq r (up_to n r))
