-- ===== src/Store/Laws.antt =====
-- Laws of the tables.
use ocr_service.Prelude.{
  ◌⊎◌, ◌++◌, nat_eq, inl, inr, ◌∙◌, sym, ap, ℕ, ◌≡◌, ◌≢◌, refl, Option, none, some, List, [], ◌∷◌,
  arith,
}
use ocr_service.Store.Rows.{Row, get_row, set_row, foreign_rows}

abbrev pub map_option : {A : Type 0} → (A → A) → Option A → Option A
map_option f none = none
map_option f (some a) = some (f a)

nat_dec : (m n : ℕ) → (m ≡ n) ⊎ (m ≢ n)
nat_dec m n = ground arith

abbrev value_or : {A : Type 0} → A → Option A → A
value_or d none = d
value_or d (some a) = a

pub some_injective : {A : Type 0} {a b : A} → some a ≡ some b → a ≡ b
some_injective {a = a} h = ap (value_or a) h

module _ {A : Type 0} ⦃r : Row A⦄ where
  -- An assignment that leaves the primary key and the tenant alone.
  pub record KeepsKeys (f : A → A) : Type 0 where
    pub id_kept : (a : A) → r.id_of (f a) ≡ r.id_of a
    pub tenant_kept : (a : A) → r.tenant_of (f a) ≡ r.tenant_of a

  pub get-set_row :
      (tenant id : ℕ) (f : A → A) (rows : List A)
      → KeepsKeys f
      → get_row tenant id (set_row tenant id f rows) ≡ map_option f (get_row tenant id rows)
  unfolding get_row set_row
  get-set_row tenant id f [] k = refl
  get-set_row tenant id f (a ∷ rows) k =
      ground (arith, k.id_kept a, k.tenant_kept a, get-set_row tenant id f rows k)

  pub get-set_row_ne :
      (tenant id other : ℕ) (f : A → A) (rows : List A)
      → KeepsKeys f
      → other ≢ id
      → get_row tenant other (set_row tenant id f rows) ≡ get_row tenant other rows
  unfolding get_row set_row
  get-set_row_ne tenant id other f [] k ne = refl
  get-set_row_ne tenant id other f (a ∷ rows) k ne =
      ground (arith, k.id_kept a, k.tenant_kept a, get-set_row_ne tenant id other f rows k ne)

  -- What one tenant's session writes leaves the rows of the others as they were.
  pub foreign-set_row :
      (tenant id : ℕ) (f : A → A) (rows : List A)
      → KeepsKeys f
      → foreign_rows tenant (set_row tenant id f rows) ≡ foreign_rows tenant rows
  unfolding set_row
  foreign-set_row tenant id f [] k = refl
  foreign-set_row tenant id f (a ∷ rows) k =
      ground (arith, k.tenant_kept a, foreign-set_row tenant id f rows k)

  pub get-set_row_foreign :
      (tenant id stranger other : ℕ) (f : A → A) (rows : List A)
      → KeepsKeys f
      → stranger ≢ tenant
      → get_row stranger other (set_row tenant id f rows) ≡ get_row stranger other rows
  unfolding get_row set_row
  get-set_row_foreign tenant id stranger other f [] k ne = refl
  get-set_row_foreign tenant id stranger other f (a ∷ rows) k ne = ground (
    arith,
    k.id_kept a,
    k.tenant_kept a,
    get-set_row_foreign tenant id stranger other f rows k ne,
  )

  get_row-append :
      (tenant id : ℕ) (rows : List A) (a b : A)
      → get_row tenant id (rows ++ a ∷ []) ≡ some b
      → (get_row tenant id rows ≡ some b) ⊎ (a ≡ b)
  unfolding get_row
  get_row-append tenant id [] a b h = ground arith
  get_row-append tenant id (x ∷ rows) a b h = ground (arith, get_row-append tenant id rows a b)

  map_option-some :
      (f : A → A) (o : Option A) (b : A)
      → map_option f o ≡ some b
      → (a : A) × (o ≡ some a) × (f a ≡ b)
  map_option-some f none b h = ground arith
  map_option-some f (some a) b h = (a, refl, some_injective h)

  -- What every session sees in a table has a property.
  pub Seen : (A → Type 0) → List A → Type 0
  Seen p rows = (tenant id : ℕ) (a : A) → get_row tenant id rows ≡ some a → p a

  pub Seen-append :
      (p : A → Type 0) (rows : List A) (a : A) → Seen p rows → p a → Seen p (rows ++ a ∷ [])
  unfolding Seen
  Seen-append p rows a s h tenant id b found = elim (get_row-append tenant id rows a b found) [
    | inl old ↦ s tenant id b old
    | inr new ↦ rw new at h
  ]

  Seen-set_row_own :
      (p : A → Type 0) (tenant id : ℕ) (f : A → A) (rows : List A)
      → KeepsKeys f
      → ((a : A) → get_row tenant id rows ≡ some a → p a → p (f a))
      → Seen p rows
      → (other : ℕ) (b : A) → get_row tenant other (set_row tenant id f rows) ≡ some b
      → p b
  unfolding Seen
  Seen-set_row_own p tenant id f rows k step s other b found = elim (nat_dec other id) [
    | inr i ↦ s tenant other b (sym (get-set_row_ne tenant id other f rows k i) ∙ found)
    | inl i ↦
        let here : get_row tenant id (set_row tenant id f rows) ≡ some b = rw i at found in
        let (a, at_a, same) =
          map_option-some f (get_row tenant id rows) b
            (sym (get-set_row tenant id f rows k) ∙ here) in
        rw same at (step a at_a (s tenant id a at_a))
  ]

  pub Seen-set_row :
      (p : A → Type 0) (tenant id : ℕ) (f : A → A) (rows : List A)
      → KeepsKeys f
      → ((a : A) → get_row tenant id rows ≡ some a → p a → p (f a))
      → Seen p rows
      → Seen p (set_row tenant id f rows)
  unfolding Seen
  Seen-set_row p tenant id f rows k step s stranger other b found = elim (nat_dec stranger tenant) [
    | inr t ↦
        s stranger other b (sym (get-set_row_foreign tenant id stranger other f rows k t) ∙ found)
    | inl t ↦ Seen-set_row_own p tenant id f rows k step s other b (rw t at found)
  ]

  pub Seen-map :
      (p q : A → Type 0) (rows : List A) → ((a : A) → p a → q a) → Seen p rows → Seen q rows
  unfolding Seen
  Seen-map p q rows h s tenant id a found = h a (s tenant id a found)

  -- The row that is found under an id has that id.
  pub id_of-get_row :
      (tenant id : ℕ) (rows : List A) (a : A) → get_row tenant id rows ≡ some a → r.id_of a ≡ id
  unfolding get_row
  id_of-get_row tenant id [] a h = ground arith
  id_of-get_row tenant id (x ∷ rows) a h = ground (arith, id_of-get_row tenant id rows a)

  -- And it is of the tenant.
  pub tenant_of-get_row :
      (tenant id : ℕ) (rows : List A) (a : A)
      → get_row tenant id rows ≡ some a
      → r.tenant_of a ≡ tenant
  unfolding get_row
  tenant_of-get_row tenant id [] a h = ground arith
  tenant_of-get_row tenant id (x ∷ rows) a h = ground (arith, tenant_of-get_row tenant id rows a)

  pub Seen-get_row :
      (p : A → Type 0) (tenant id : ℕ) (rows : List A) (a : A)
      → Seen p rows
      → get_row tenant id rows ≡ some a
      → p a
  unfolding Seen
  Seen-get_row p tenant id rows a s found = s tenant id a found

  pub Seen-none : (p : A → Type 0) → Seen p []
  unfolding Seen get_row
  Seen-none p tenant id a found = absurd (ground arith)
