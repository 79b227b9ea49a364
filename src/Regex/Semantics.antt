-- ===== src/Regex/Semantics.antt =====
-- The search of `Regex` against the language of the patterns.
use ocr_service.Prelude.{
  zero, false, suc, lt→ltb, if◌then◌else◌, ◌≤◌, Bool-cases, arith, ◌<◌, length, ℕ, ◌≡◌, ◌⊎◌, inl,
  inr, refl, Bool, true, some, List, [], ◌∷◌, ◌++◌,
}
use ocr_service.Regex.{
  shorter, go_on, go_on, iterate, ends, ends, step_one, Place, Regex, one, eps, seq, alt, star,
  boundary, at_boundary, each,
}

module _ (is_word : ℕ → Bool) where
  -- `Matches r p q`: `r` matches the text between the places `p` and `q`.
  pub data Matches : Regex → Place → Place → Type 0 where
    one_char :
        {f : ℕ → Bool} {p q : Place} (c : ℕ) (s : List ℕ)
        → p.rest ≡ c ∷ s
        → f c ≡ true
        → q ≡ record { before = some c; rest = s }
        → Matches (one f) p q
    nothing : {p : Place} → Matches eps p p
    both : {r s : Regex} {p q u : Place} → Matches r p q → Matches s q u → Matches (seq r s) p u
    left : {r s : Regex} {p q : Place} → Matches r p q → Matches (alt r s) p q
    right : {r s : Regex} {p q : Place} → Matches s p q → Matches (alt r s) p q
    stop : {r : Regex} {p : Place} → Matches (star r) p p
    again :
        {r : Regex} {p q u : Place} → Matches r p q → Matches (star r) q u → Matches (star r) p u
    edge : {p : Place} → at_boundary is_word p ≡ true → Matches boundary p p

-- `p` is one of the places.
abbrev pub In : Place → List Place → Type 0
In p [] = ⊥
In p (q ∷ qs) = (p ≡ q) ⊎ In p qs

In-append_left : (p : Place) (xs ys : List Place) → In p xs → In p (xs ++ ys)
In-append_left p (x ∷ xs) ys (inl e) = inl e
In-append_left p (x ∷ xs) ys (inr h) = inr (In-append_left p xs ys h)
In-append_left p [] ys h = elim h [ ]

In-append_right : (p : Place) (xs ys : List Place) → In p ys → In p (xs ++ ys)
In-append_right p [] ys h = h
In-append_right p (x ∷ xs) ys h = inr (In-append_right p xs ys h)

In-append : (p : Place) (xs ys : List Place) → In p (xs ++ ys) → In p xs ⊎ In p ys
In-append p [] ys h = inr h
In-append p (x ∷ xs) ys (inl e) = inl (inl e)
In-append p (x ∷ xs) ys (inr h) = elim (In-append p xs ys h) [ inl k ↦ inl (inr k) | inr k ↦ inr k ]

In-each :
    (f : Place → List Place) (p q : Place) (ps : List Place)
    → In q ps
    → In p (f q)
    → In p (each f ps)
In-each f p q [] h k = elim h [ ]
In-each f p q (x ∷ ps) (inl e) k = In-append_left p (f x) (each f ps) (rw e at k)
In-each f p q (x ∷ ps) (inr h) k = In-append_right p (f x) (each f ps) (In-each f p q ps h k)

each-In :
    (f : Place → List Place) (p : Place) (ps : List Place)
    → In p (each f ps)
    → (q : Place) × In q ps × In p (f q)
each-In f p [] h = elim h [ ]
each-In f p (x ∷ ps) h = elim (In-append p (f x) (each f ps) h) [
  | inl k ↦ (x, inl refl, k)
  | inr k ↦ let (q, m, n) = each-In f p ps k in (q, inr m, n)
]

-- A match goes nowhere or forward.
join :
    {p q u : Place}
    → (p ≡ q) ⊎ (length q.rest < length p.rest)
    → (q ≡ u) ⊎ (length u.rest < length q.rest)
    → (p ≡ u) ⊎ (length u.rest < length p.rest)
join (inl e) k = rw e k
join (inr h) (inl e) = inr (rw (← e) h)
join (inr h) (inr k) = inr (omega arith)

pub advance :
    (w : ℕ → Bool) {r : Regex} {p q : Place}
    → Matches w r p q
    → (p ≡ q) ⊎ (length q.rest < length p.rest)
advance w (one_char c s e h k) = inr (rw (e, k) (omega arith))
advance w nothing = inl refl
advance w (both m n) = join (advance w m) (advance w n)
advance w (left m) = advance w m
advance w (right m) = advance w m
advance w stop = inl refl
advance w (again m n) = join (advance w m) (advance w n)
advance w (edge h) = inl refl

In-if : (b : Bool) (q p : Place) → In q (if b then p ∷ [] else []) → (b ≡ true) × (q ≡ p)
In-if true q p (inl e) = (refl, e)
In-if true q p (inr h) = elim h [ ]
In-if false q p h = elim h [ ]

In-go_on : (p u q : Place) (xs : List Place) → In q (go_on p u xs) → In q xs
In-go_on p u q xs h = elim (Bool-cases (shorter p u)) [
  | inl e ↦ rw e at h
  | inr e ↦ absurd (rw e at h)
]

module _ (w : ℕ → Bool) where
  step_one_sound :
      (f : ℕ → Bool) (p q : Place) (s : List ℕ)
      → p.rest ≡ s
      → In q (step_one f s)
      → Matches w (one f) p q
  step_one_sound f p q [] e h = elim h [ ]
  step_one_sound f p q (c ∷ s) e h =
      let (yes_f, k) = In-if (f c) q (record { before = some c; rest = s }) h in
      one_char c s e yes_f k

  iterate_sound :
      (r : Regex)
      → ((p q : Place) → In q (ends w r p) → Matches w r p q)
      → (n : ℕ) (p q : Place) → In q (iterate (ends w r) n p)
      → Matches w (star r) p q
  iterate_sound r sound zero p q (inl e) = rw e stop
  iterate_sound r sound zero p q (inr h) = elim h [ ]
  iterate_sound r sound (suc n) p q h =
      elim (In-append q (each (λ u. go_on p u (iterate (ends w r) n u)) (ends w r p)) (p ∷ []) h) [
        | inl k ↦
            let (u, m, l) = each-In (λ u. go_on p u (iterate (ends w r) n u)) q (ends w r p) k in
            again (sound p u m) (iterate_sound r sound n u q (In-go_on p u q _ l))
        | inr (inl e) ↦ rw e stop
        | inr (inr k) ↦ elim k [ ]
      ]

  -- Each place that the engine lists ends a match.
  pub ends_sound : (r : Regex) (p q : Place) → In q (ends w r p) → Matches w r p q
  unfolding ends
  ends_sound (one f) p q h = step_one_sound f p q p.rest refl h
  ends_sound eps p q (inl e) = rw e nothing
  ends_sound eps p q (inr h) = elim h [ ]
  ends_sound (seq r s) p q h =
      let (u, m, n) = each-In (ends w s) q (ends w r p) h in
      both (ends_sound r p u m) (ends_sound s u q n)
  ends_sound (alt r s) p q h = elim (In-append q (ends w r p) (ends w s p) h) [
    | inl k ↦ left (ends_sound r p q k)
    | inr k ↦ right (ends_sound s p q k)
  ]
  ends_sound (star r) p q h = iterate_sound r (ends_sound r) (length p.rest) p q h
  ends_sound boundary p q h = let (at, e) = In-if (at_boundary w p) q p h in rw e (edge at)

  -- What an iteration that went forward leads to is kept.
  go_on-In :
      (p u q : Place) (xs : List Place)
      → length u.rest < length p.rest
      → In q xs
      → In q (go_on p u xs)
  go_on-In p u q xs lt h = rw (lt→ltb _ _ lt) h

  iterate_complete :
      (r : Regex)
      → ((p q : Place) → Matches w r p q → In q (ends w r p))
      → (n : ℕ) {p q : Place} → Matches w (star r) p q
      → length p.rest ≤ n
      → In q (iterate (ends w r) n p)
  iterate_complete r complete zero stop h = inl refl
  iterate_complete r complete (suc n) {p} stop h =
      In-append_right p (each (λ u. go_on p u (iterate (ends w r) n u)) (ends w r p)) (p ∷ [])
        (inl refl)
  iterate_complete r complete zero {p} {q} (again {q = u} m ms) h = elim (advance w m) [
    | inl e ↦ rw e (iterate_complete r complete zero ms (rw e at h))
    | inr lt ↦ absurd (omega arith)
  ]
  iterate_complete r complete (suc n) {p} {q} (again {q = u} m ms) h = elim (advance w m) [
    | inl e ↦ rw e (iterate_complete r complete (suc n) ms (rw e at h))
    | inr lt ↦
        In-append_left q (each (λ x. go_on p x (iterate (ends w r) n x)) (ends w r p)) (p ∷ []) (
          In-each (λ x. go_on p x (iterate (ends w r) n x)) q u (ends w r p) (complete p u m)
            (go_on-In p u q (iterate (ends w r) n u) lt
              (iterate_complete r complete n ms (omega arith))))
  ]

  -- Each end of a match is listed.
  pub ends_complete : (r : Regex) {p q : Place} → Matches w r p q → In q (ends w r p)
  unfolding ends
  ends_complete (one f) (one_char c s e h k) = rw (e, step_one, h) (inl k)
  ends_complete eps nothing = inl refl
  ends_complete (seq r s) {p} {q} (both {q = u} m n) =
      In-each (ends w s) q u (ends w r p) (ends_complete r m) (ends_complete s n)
  ends_complete (alt r s) {p} {q} (left m) =
      In-append_left q (ends w r p) (ends w s p) (ends_complete r m)
  ends_complete (alt r s) {p} {q} (right m) =
      In-append_right q (ends w r p) (ends w s p) (ends_complete s m)
  ends_complete (star r) {p} m =
      iterate_complete r (λ a b. ends_complete r {p = a} {q = b}) (length p.rest) m (omega arith)
  ends_complete boundary (edge h) = rw h (inl refl)
