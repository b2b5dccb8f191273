-- ===== src/Crud.antt =====
-- app/crud/base.py: the generic queries of a table, in the order of its ids. `CRUDBase` is generic
-- in the model: its id, its `deleted_at`, and whether it has the soft-delete mixin are parameters.
pub mod Cursor
pub mod Deletion
pub mod Pages
use async_fastapi_template.Prelude.{
  ℕ, ◌+◌, ◌-◌, ◌*◌, ◌/◌, suc, zero, Bool, true, false, not, ◌&&◌, ◌||◌, Option, none, some, List,
  [], ◌∷◌, ltb, ◌==◌, is_some, length, take, drop, select, find, if◌then◌else◌,
}

-- A mapped class
pub record Model (A : Type 0) : Type 0 where
  pub id : A → ℕ
  pub deleted_at : A → Option ℕ
  pub set_deleted_at : Option ℕ → A → A
  pub has_soft_delete : Bool

abbrev pub last : {A : Type 0} → List A → Option A
last [] = none
last (x ∷ xs) = elim (last xs) [ none ↦ some x | some y ↦ some y ]

module _ {A : Type 0} (m : Model A) where
  -- `if not include_deleted and _has_soft_delete(self.model): … deleted_at.is_(None)`
  abbrev pub is_visible : Bool → A → Bool
  is_visible include_deleted a =
      include_deleted || (not m.has_soft_delete || not (is_some (m.deleted_at a)))

  -- `get`
  unfoldable pub get : List A → ℕ → Bool → Option A
  get rows id include_deleted = find (λ a. m.id a == id && is_visible include_deleted a) rows

  -- `get_multi`
  unfoldable pub get_multi : List A → ℕ → ℕ → Bool → List A
  get_multi rows skip limit include_deleted =
      take limit (drop skip (select (is_visible include_deleted) rows))

  abbrev pub is_after : Option ℕ → A → Bool
  is_after none a = true
  is_after (some cursor) a = ltb cursor (m.id a)

  -- `get_multi_cursor`: one row more than the limit is fetched, and the last one is the cursor.
  unfoldable pub get_multi_cursor : List A → Option ℕ → ℕ → Bool → List A × Option ℕ
  get_multi_cursor table cursor limit include_deleted =
      let rows =
        take (limit + 1) (select (λ a. is_after cursor a && is_visible include_deleted a) table) in
      (
        take limit rows,
        if ltb limit (length rows)
            then elim (last rows) [ none ↦ none | some a ↦ some (m.id a) ]
            else none,
      )

  -- `count`
  unfoldable pub count_rows : List A → Bool → ℕ
  count_rows rows include_deleted = length (select (is_visible include_deleted) rows)

  abbrev pub put : A → List A → List A
  put a [] = []
  put a (r ∷ rows) = (if m.id r == m.id a then a else r) ∷ put a rows

  -- `delete`: the row that was found, and the table
  unfoldable pub delete : ℕ → List A → ℕ → Option A × List A
  unfolding get
  delete now rows id = elim (get rows id false) [
    | none ↦ (none, rows)
    | some a ↦
        if m.has_soft_delete
        then (let a' = m.set_deleted_at (some now) a in (some a', put a' rows))
        else (some a, select (λ r. not (m.id r == m.id a)) rows)
  ]

  -- `restore`
  unfoldable pub restore : List A → ℕ → Option A × List A
  unfolding get
  restore rows id = if not m.has_soft_delete then (none, rows) else elim (get rows id true) [
    | none ↦ (none, rows)
    | some a ↦ elim (m.deleted_at a) [
      | none ↦ (none, rows)
      | some t ↦ (let a' = m.set_deleted_at none a in (some a', put a' rows))
    ]
  ]

  -- The `WHERE` clause of `purge`
  abbrev pub is_purged : ℕ → A → Bool
  is_purged cutoff a = elim (m.deleted_at a) [ none ↦ false | some t ↦ ltb t cutoff ]

  -- `purge`, from the cutoff: the number of rows that went, and the table
  unfoldable pub purge : ℕ → List A → ℕ × List A
  purge cutoff rows =
      if m.has_soft_delete
      then (length (select (is_purged cutoff) rows), select (λ a. not (is_purged cutoff a)) rows)
      else (0, rows)
