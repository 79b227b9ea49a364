-- ===== src/Regex.antt =====
-- What the program uses of Python's `re`: `pattern.search(text)` and `match.group(0)`. A match is
-- tried from each place of the text in turn, and at a place the ways to match are listed in the
-- order in which the backtracking engine tries them, so that the first one is the engine's answer.
pub mod Syntax
pub mod Semantics
pub mod Search
use ocr_service.Prelude.{
  ℕ, zero, suc, ◌-◌, Bool, true, false, not, ◌&&◌, ◌||◌, Option, none, some, List, [], ◌∷◌, ◌++◌,
  ltb, length, ◌==◌, nat_eq, if◌then◌else◌,
}

-- A place in a text: the character before it, and the characters after it.
pub record Place : Type 0 where
  pub before : Option ℕ
  pub rest : List ℕ

pub data Regex : Type 0 where
  -- one character of a class
  one : (ℕ → Bool) → Regex
  -- the empty text
  eps : Regex
  seq : Regex → Regex → Regex
  alt : Regex → Regex → Regex
  -- greedy `*`
  star : Regex → Regex
  -- `\b`
  boundary : Regex

abbrev pub holds : (ℕ → Bool) → Option ℕ → Bool
holds p none = false
holds p (some c) = p c

abbrev pub head? : List ℕ → Option ℕ
head? [] = none
head? (c ∷ s) = some c

abbrev differ : Bool → Bool → Bool
differ true b = not b
differ false b = b

-- `\w` is a parameter: the letters and digits of Unicode.
abbrev pub at_boundary : (ℕ → Bool) → Place → Bool
at_boundary is_word p = differ (holds is_word p.before) (holds is_word (head? p.rest))

abbrev pub step_one : (ℕ → Bool) → List ℕ → List Place
step_one p [] = []
step_one p (c ∷ s) = if p c then record { before = some c; rest = s } ∷ [] else []

-- `f` at each place, the results in order.
abbrev pub each : (Place → List Place) → List Place → List Place
each f [] = []
each f (p ∷ ps) = f p ++ each f ps

-- An iteration of `*` that consumes nothing ends the loop.
abbrev pub shorter : Place → Place → Bool
shorter p q = ltb (length q.rest) (length p.rest)

-- The places `qs` that an iteration from `p` to `q` leads to.
abbrev pub go_on : Place → Place → List Place → List Place
go_on p q qs = if shorter p q then qs else []

abbrev pub iterate : (Place → List Place) → ℕ → Place → List Place
iterate f zero p = p ∷ []
iterate f (suc n) p = each (λ q. let later = iterate f n q in go_on p q later) (f p) ++ p ∷ []

-- The length of the first match.
abbrev pub first_length : Place → List Place → Option ℕ
first_length p [] = none
first_length p (q ∷ qs) = some (length p.rest - length q.rest)

-- The first answer there is.
abbrev pub or_else : Option (List ℕ × ℕ) → Option (List ℕ × ℕ) → Option (List ℕ × ℕ)
or_else (some m) later = some m
or_else none later = later

module _ (is_word : ℕ → Bool) where
  -- The places at which a match begun at a place may end, in the order of the engine.
  unfoldable pub ends : Regex → Place → List Place
  ends (one p) q = step_one p q.rest
  ends eps q = q ∷ []
  ends (seq r s) q = each (ends s) (ends r q)
  ends (alt r s) q = ends r q ++ ends s q
  ends (star r) q = iterate (ends r) (length q.rest) q
  ends boundary q = if at_boundary is_word q then q ∷ [] else []

  -- The first match at a place: what is left of the text there, and the length.
  abbrev pub match_at : Regex → Option ℕ → List ℕ → Option (List ℕ × ℕ)
  match_at r before s =
      let p : Place = record { before = before; rest = s } in
      elim (first_length p (ends r p)) [ some n ↦ some (s, n) | none ↦ none ]

  -- `pattern.search(text)`, from a place on: the text from the start of the match, and its length.
  unfoldable pub search_from : Regex → Option ℕ → List ℕ → Option (List ℕ × ℕ)
  search_from r before [] = match_at r before []
  search_from r before (c ∷ s) =
      let later = search_from r (some c) s in or_else (match_at r before (c ∷ s)) later

  unfoldable pub search_text : Regex → List ℕ → Option (List ℕ × ℕ)
  unfolding search_from ends
  search_text r s = search_from r none s
