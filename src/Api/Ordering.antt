-- ===== src/Api/Ordering.antt =====
-- What `order_by` of the queries of app/api/routers/audit.py does to rows.
use ocr_service.Prelude.{ℕ, ◌≤◌, List, [], ◌∷◌, leb, arith, Bool-cases, inl, inr}
use ocr_service.Api.Export.{insert_by, order_by}

-- `Inserted a xs ys`: `ys` is `xs` with `a` somewhere.
pub data Inserted {A : Type 0} (a : A) : List A → List A → Type 0 where
  first : {xs : List A} → Inserted a xs (a ∷ xs)
  later : {x : A} {xs ys : List A} → Inserted a xs ys → Inserted a (x ∷ xs) (x ∷ ys)

-- The same rows, in some order.
pub data Shuffled {A : Type 0} : List A → List A → Type 0 where
  none_left : Shuffled [] []
  one_more : {a : A} {xs ys zs : List A} → Shuffled xs ys → Inserted a ys zs → Shuffled (a ∷ xs) zs

module _ {A : Type 0} (column : A → ℕ) where
  -- No row is before `n`.
  abbrev NotBefore : ℕ → List A → Type 0
  NotBefore n [] = Unit
  NotBefore n (b ∷ rows) = n ≤ column b

  -- Each row is at or after the one in front of it.
  abbrev pub InOrder : List A → Type 0
  InOrder [] = Unit
  InOrder (a ∷ rows) = NotBefore (column a) rows × InOrder rows

  insert_by-Inserted : (a : A) (rows : List A) → Inserted a rows (insert_by column a rows)
  insert_by-Inserted a [] = first
  insert_by-Inserted a (b ∷ rows) = elim (Bool-cases (leb (column a) (column b))) [
    | inl h ↦ rw h first
    | inr h ↦ rw h (later (insert_by-Inserted a rows))
  ]

  insert_by-NotBefore :
      (n : ℕ) (a : A) (rows : List A)
      → n ≤ column a
      → NotBefore n rows
      → NotBefore n (insert_by column a rows)
  insert_by-NotBefore n a [] h k = h
  insert_by-NotBefore n a (b ∷ rows) h k = elim (Bool-cases (leb (column a) (column b))) [
    | inl e ↦ rw e h
    | inr e ↦ rw e k
  ]

  insert_by-InOrder : (a : A) (rows : List A) → InOrder rows → InOrder (insert_by column a rows)
  insert_by-InOrder a [] h = (tt, tt)
  insert_by-InOrder a (b ∷ rows) (k, h) = elim (Bool-cases (leb (column a) (column b))) [
    | inl e ↦ rw e (ground arith, (k, h))
    | inr e ↦
        rw e (insert_by-NotBefore (column b) a rows (ground arith) k, insert_by-InOrder a rows h)
  ]

  pub order_by-Shuffled : (rows : List A) → Shuffled rows (order_by column rows)
  unfolding order_by
  order_by-Shuffled [] = none_left
  order_by-Shuffled (a ∷ rows) =
      one_more (order_by-Shuffled rows) (insert_by-Inserted a (order_by column rows))

  pub order_by-InOrder : (rows : List A) → InOrder (order_by column rows)
  unfolding order_by
  order_by-InOrder [] = tt
  order_by-InOrder (a ∷ rows) = insert_by-InOrder a (order_by column rows) (order_by-InOrder rows)
