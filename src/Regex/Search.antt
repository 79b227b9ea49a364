-- ===== src/Regex/Search.antt =====
-- `search` finds a match exactly where the text has one.
use ocr_service.Prelude.{
  Bool, arith, ℕ, ◌-◌, ◌≡◌, ◌⊎◌, inl, inr, refl, Option, none, some, List, [], ◌∷◌, length,
  Option-cases,
}
use ocr_service.Regex.{match_at, match_at, Place, Regex, ends, first_length, search_from}
use ocr_service.Regex.Semantics.{Matches, In, ends_sound, ends_complete}

-- The places of a text that follows the character `before`.
abbrev pub PlaceOf : Option ℕ → List ℕ → Place → Type 0
PlaceOf before [] p = p ≡ record { before = before; rest = [] }
PlaceOf before (c ∷ s) p = (p ≡ record { before = before; rest = c ∷ s }) ⊎ PlaceOf (some c) s p

first_length-some :
    (p : Place) (n : ℕ) (qs : List Place)
    → first_length p qs ≡ some n
    → (q : Place) × In q qs × (n ≡ length p.rest - length q.rest)
first_length-some p n [] h = cc
first_length-some p n (q ∷ qs) h = (q, inl refl, ground arith)

first_length-none : (p q : Place) (qs : List Place) → first_length p qs ≡ none → ¬ In q qs
first_length-none p q [] h = λ k. k
first_length-none p q (x ∷ qs) h = cc

-- Where in the text, and how long, a match is.
pub record Found (w : ℕ → Bool) (r : Regex) (before : Option ℕ) (s t : List ℕ) (n : ℕ)
    : Type 0 where
  pub from : Place
  pub to : Place
  pub inside : PlaceOf before s from
  pub matches : Matches w r from to
  pub text : t ≡ from.rest
  pub size : n ≡ length from.rest - length to.rest

module _ (w : ℕ → Bool) (r : Regex) where
  pub match_at-some :
      (before : Option ℕ) (s t : List ℕ) (n : ℕ)
      → match_at w r before s ≡ some (t, n)
      → PlaceOf before s (record { before = before; rest = s })
      → Found w r before s t n
  match_at-some before s t n h at = elim (Option-cases (first_length here (ends w r here))) [
    | inl e ↦ absurd (ground arith)
    | inr (k, e) ↦
        let (q, m, l) = first_length-some here k (ends w r here) e in
        record {
          from = here;
          to = q;
          inside = at;
          matches = ends_sound w r here q m;
          text = ground arith;
          size = ground arith;
        }
  ]
    where
      here : Place
      here = record { before = before; rest = s }

  pub match_at-none :
      (before : Option ℕ) (s : List ℕ) (q : Place)
      → match_at w r before s ≡ none
      → ¬ Matches w r (record { before = before; rest = s }) q
  match_at-none before s q h m =
      first_length-none here q (ends w r here) (ground arith) (ends_complete w r m)
    where
      here : Place
      here = record { before = before; rest = s }

  Found-later :
      (before : Option ℕ) (c : ℕ) (s t : List ℕ) (n : ℕ)
      → Found w r (some c) s t n
      → Found w r before (c ∷ s) t n
  Found-later before c s t n f = record {
    from = f.from;
    to = f.to;
    inside = inr f.inside;
    matches = f.matches;
    text = f.text;
    size = f.size;
  }

  -- What `search` returns is a match in the text: its start and its length.
  pub search_from-some :
      (before : Option ℕ) (s t : List ℕ) (n : ℕ)
      → search_from w r before s ≡ some (t, n)
      → Found w r before s t n
  unfolding search_from
  search_from-some before [] t n h = match_at-some before [] t n h refl
  search_from-some before (c ∷ s) t n h = elim (Option-cases (match_at w r before (c ∷ s))) [
    | inl e ↦ Found-later before c s t n (search_from-some (some c) s t n (ground arith))
    | inr (m, e) ↦ match_at-some before (c ∷ s) t n (ground arith) (inl refl)
  ]

  -- Where `search` returns none, no place of the text begins a match.
  pub search_from-none :
      (before : Option ℕ) (s : List ℕ) (p q : Place)
      → search_from w r before s ≡ none
      → PlaceOf before s p
      → ¬ Matches w r p q
  unfolding search_from
  search_from-none before [] p q h at m = match_at-none before [] q h (rw at at m)
  search_from-none before (c ∷ s) p q h at m = elim at [
    | inl e ↦ match_at-none before (c ∷ s) q (ground arith) (rw e at m)
    | inr later ↦ search_from-none (some c) s p q (ground arith) later m
  ]
