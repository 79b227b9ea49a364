-- ===== src/Store/Rows.antt =====
-- A table as the list of its rows, read and written by one tenant's session.
use ocr_service.Prelude.{
  ℕ, Bool, not, ◌&&◌, Option, none, some, List, [], ◌∷◌, ◌==◌, nat_eq, keep, if◌then◌else◌,
}

-- A table's primary key and its tenant column.
pub record Row (A : Type 0) : Type 0 where
  pub id_of : A → ℕ
  pub tenant_of : A → ℕ

module _ {A : Type 0} ⦃r : Row A⦄ where
  -- The row that a tenant's session finds under an id.
  abbrev pub is_at : ℕ → ℕ → A → Bool
  is_at tenant id a = r.tenant_of a == tenant && r.id_of a == id

  -- `session.get(Model, id)`
  unfoldable pub get_row : ℕ → ℕ → List A → Option A
  get_row tenant id [] = none
  get_row tenant id (a ∷ rows) = if is_at tenant id a then some a else get_row tenant id rows

  -- The assignments to a loaded row, written at the flush.
  unfoldable pub set_row : ℕ → ℕ → (A → A) → List A → List A
  set_row tenant id f [] = []
  set_row tenant id f (a ∷ rows) = (if is_at tenant id a then f a else a) ∷ set_row tenant id f rows

  -- The rows of other tenants.
  abbrev pub foreign_rows : ℕ → List A → List A
  foreign_rows tenant rows = keep (λ a. not (r.tenant_of a == tenant)) rows
