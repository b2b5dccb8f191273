-- ===== src/Crud/Cursor.antt =====
-- The pages of `get_multi_cursor`.
use async_fastapi_template.Prelude.{
  ℕ, suc, zero, ◌+◌, ◌<◌, ◌≡◌, ◌≢◌, refl, Bool, true, false, ◌&&◌, Option, none, some, List, [],
  ◌∷◌, ltb, length, take, select, All, arith, if◌then◌else◌, Bool-cases, Option-cases, inl, inr,
  sym,
}
use native.Mathlib.Numerals.{unary_clauses}
use async_fastapi_template.Crud.{Model, last, is_visible, is_after, get_multi_cursor}

module _ {A : Type 0} (m : Model A) where
  -- Each id is below the ids after it: the table is in the order of its primary key.
  abbrev pub IsOrdered : List A → Type 0
  IsOrdered [] = Unit
  IsOrdered (a ∷ rows) = All (λ x. m.id a < m.id x) rows × IsOrdered rows

  abbrev Avoids : ℕ → List A → Type 0
  Avoids n = All (λ x. m.id x ≢ n)

  All-select :
      (p : A → Bool) (n : ℕ) (rows : List A)
      → All (λ x. n < m.id x) rows
      → All (λ x. n < m.id x) (select p rows)
  All-select p n [] h = tt
  All-select p n (a ∷ rows) h = elim (Bool-cases (p a)) [
    | inl e ↦ rw e (h.0, All-select p n rows h.1)
    | inr e ↦ rw e (All-select p n rows h.1)
  ]

  IsOrdered-select : (p : A → Bool) (rows : List A) → IsOrdered rows → IsOrdered (select p rows)
  IsOrdered-select p [] h = tt
  IsOrdered-select p (a ∷ rows) h = elim (Bool-cases (p a)) [
    | inl e ↦ rw e (All-select p (m.id a) rows h.0, IsOrdered-select p rows h.1)
    | inr e ↦ rw e (IsOrdered-select p rows h.1)
  ]

  last-none : (rows : List A) → last rows ≡ none → length rows ≡ 0
  last-none [] e = refl
  last-none (a ∷ rows) e = elim (Option-cases (last rows)) [
    | inl f ↦ absurd (grind (arith, e, f))
    | inr (z, f) ↦ absurd (grind (arith, e, f))
  ]

  last_tail :
      (a z : A) (rows : List A) → 0 < length rows → last (a ∷ rows) ≡ some z → last rows ≡ some z
  last_tail a z rows l e = elim (Option-cases (last rows)) [
    | inl f ↦ absurd (omega (arith, l, last-none rows f))
    | inr (y, f) ↦ grind (arith, e, f)
  ]

  last_after :
      (n : ℕ) (rows : List A) (z : A) → All (λ x. n < m.id x) rows → last rows ≡ some z → n < m.id z
  last_after n [] z h e = absurd cc
  last_after n (a ∷ rows) z h e = elim (Option-cases (last rows)) [
    | inl f ↦ grind (arith, e, f, h.0)
    | inr (y, f) ↦ last_after n rows z h.1 (grind (arith, e, f))
  ]

  take_after :
      (n k : ℕ) (rows : List A) → All (λ x. n < m.id x) rows → All (λ x. n < m.id x) (take k rows)
  take_after n zero rows h = tt
  take_after n (suc k) [] h = tt
  take_after n (suc k) (a ∷ rows) h = (h.0, take_after n k rows h.1)

  -- The last of `limit + 1` rows in order is none of the first `limit`.
  last_avoided :
      (limit : ℕ) (rows : List A) (z : A)
      → IsOrdered rows
      → limit < length (take (suc limit) rows)
      → last (take (suc limit) rows) ≡ some z
      → Avoids (m.id z) (take limit (take (suc limit) rows))
  last_avoided zero rows z h l e = tt
  last_avoided (suc k) [] z h l e = absurd (omega (arith, l))
  last_avoided (suc k) (a ∷ rows) z h l e =
      let f = last_tail a z (take (suc k) rows) (omega (arith, l)) e in
      (
        λ g. omega (
          arith,
          g,
          last_after (m.id a) (take (suc k) rows) z (take_after (m.id a) (suc k) rows h.0) f,
        ),
        last_avoided k rows z h.1 (omega (arith, l)) f,
      )

  if_some : (b : Bool) (x n : ℕ) → (if b then some x else none) ≡ some n → (b ≡ true) × (x ≡ n)
  if_some true x n e = (refl, grind (arith, e))
  if_some false x n e = absurd cc

  page-Avoids :
      (limit next : ℕ) (rows : List A)
      → IsOrdered rows
      → (if ltb limit (length (take (suc limit) rows))
          then elim (last (take (suc limit) rows)) [ none ↦ none | some a ↦ some (m.id a) ]
          else none)
        ≡ some next
      → Avoids next (take limit (take (suc limit) rows))
  page-Avoids limit next rows h e = elim (Option-cases (last (take (suc limit) rows))) [
    | inl f ↦ absurd (grind (arith, e, f))
    | inr (z, f) ↦
        let g = if_some (ltb limit (length (take (suc limit) rows))) (m.id z) next (rw f at e) in
        rw (sym g.1) (last_avoided limit rows z h (ground (arith, g.0)) f)
  ]

  after-Avoids :
      (n : ℕ) (p : A → Bool) (rows : List A)
      → Avoids n (select (λ a. is_after m (some n) a && p a) rows)
  after-Avoids n p [] = tt
  after-Avoids n p (a ∷ rows) = elim (Bool-cases (is_after m (some n) a && p a)) [
    | inl e ↦ rw e (ground (arith, e), after-Avoids n p rows)
    | inr e ↦ rw e (after-Avoids n p rows)
  ]

  take-Avoids : (n k : ℕ) (rows : List A) → Avoids n rows → Avoids n (take k rows)
  take-Avoids n zero rows h = tt
  take-Avoids n (suc k) [] h = tt
  take-Avoids n (suc k) (a ∷ rows) h = (h.0, take-Avoids n k rows h.1)

  -- Over a table in the order of its ids, the row whose id is handed out as the cursor is neither
  -- on the page that comes with the cursor nor on the page that the cursor leads to: a client
  -- that follows the cursors never sees it.
  pub get_multi_cursor_skips :
      (table : List A) (cursor : Option ℕ) (limit limit' : ℕ) (include_deleted : Bool) (next : ℕ)
      → IsOrdered table
      → (get_multi_cursor m table cursor limit include_deleted).1 ≡ some next
      → All (λ a. m.id a ≢ next) (get_multi_cursor m table cursor limit include_deleted).0
        × All (λ a. m.id a ≢ next) (get_multi_cursor m table (some next) limit' include_deleted).0
  unfolding get_multi_cursor
  get_multi_cursor_skips table cursor limit limit' include_deleted next h e =
      let p = λ (a : A). is_after m cursor a && is_visible m include_deleted a in
      let rows = select p table in
      (
        simp unary_clauses
            (page-Avoids limit next rows (IsOrdered-select p table h) (simp unary_clauses at e)),
        take-Avoids next limit' _ (
            take-Avoids next (limit' + 1) _
              (after-Avoids next (is_visible m include_deleted) table)),
      )
