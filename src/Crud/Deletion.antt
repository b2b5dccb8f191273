-- ===== src/Crud/Deletion.antt =====
-- What `delete` and `restore` of `CRUDBase` do to a table whose class has the soft-delete mixin.
use mathlib.Core.Path.{ap₂, subst}
use async_fastapi_template.Prelude.{
  some_injective, ℕ, ◌<◌, ◌≡◌, refl, ap, ◌∙◌, sym, Bool, true, false, not, ◌&&◌, Option, none, some,
  List, [], ◌∷◌, ◌==◌, find, All, arith, if◌then◌else◌, Bool-cases, inl, inr, find-holds,
  Option-cases,
}
use async_fastapi_template.Crud.{Model, is_visible, get, put, delete, restore}
use async_fastapi_template.Crud.Cursor.{IsOrdered}

-- What the mapping of the columns satisfies
pub record Columns {A : Type 0} (m : Model A) : Type 0 where
  pub id_set : (o : Option ℕ) (a : A) → m.id (m.set_deleted_at o a) ≡ m.id a
  pub deleted_set : (o : Option ℕ) (a : A) → m.deleted_at (m.set_deleted_at o a) ≡ o
  pub set_set :
      (o : Option ℕ) (a : A) → m.set_deleted_at (m.deleted_at a) (m.set_deleted_at o a) ≡ a

if_true : {A : Type 0} {b : Bool} (x y : A) → b ≡ true → (if b then x else y) ≡ x
if_true x y e = rw e refl

if_false : {A : Type 0} {b : Bool} (x y : A) → b ≡ false → (if b then x else y) ≡ y
if_false x y e = rw e refl

module _ {A : Type 0} (m : Model A) where
  put_misses :
      (n : ℕ) (b : A) (rows : List A)
      → m.id b ≡ n
      → All (λ x. n < m.id x) rows
      → put m b rows ≡ rows
  put_misses n b [] e h = refl
  put_misses n b (r ∷ rows) e h = elim (Bool-cases (m.id r == m.id b)) [
    | inl f ↦ absurd (ground (arith, e, f, h.0))
    | inr f ↦ rw f (ap (λ t. r ∷ t) (put_misses n b rows e h.1))
  ]

  -- A search that the new row passes, and that the others do not pass when the old search did not
  -- take them, finds it in the place of the row that was found.
  pub find_again :
      (p q : A → Bool) (a b : A) (rows : List A)
      → m.id b ≡ m.id a
      → q b ≡ true
      → ((x : A) → p x ≡ false → q x ≡ false)
      → find p rows ≡ some a
      → find q (put m b rows) ≡ some b
  find_again p q a b [] e h k f = absurd cc
  find_again p q a b (r ∷ rows) e h k f = elim (Bool-cases (m.id r == m.id b)) [
    | inl g ↦ rw (g, h) refl
    | inr g ↦ elim (Bool-cases (p r)) [
      | inl z ↦ absurd (ground (arith, ap m.id (some_injective r a (rw z at f)), g, e))
      | inr z ↦ rw (g, k r z) (find_again p q a b rows e h k (rw z at f))
    ]
  ]

  -- A row that is not visible hides its id.
  put_hides :
      (id : ℕ) (b : A) (rows : List A)
      → m.id b ≡ id
      → is_visible m false b ≡ false
      → find (λ x. m.id x == id && is_visible m false x) (put m b rows) ≡ none
  put_hides id b [] e v = refl
  put_hides id b (r ∷ rows) e v = elim (Bool-cases (m.id r == m.id b)) [
    | inl f ↦ rw f (ground (arith, e, v, put_hides id b rows e v))
    | inr f ↦ rw f (ground (arith, e, f, put_hides id b rows e v))
  ]

  find-All :
      (P : A → Type 0) (p : A → Bool) (a : A) (rows : List A)
      → All P rows
      → find p rows ≡ some a
      → P a
  find-All P p a [] h f = absurd cc
  find-All P p a (r ∷ rows) h f = elim (Bool-cases (p r)) [
    | inl g ↦ subst P (some_injective r a (rw g at f)) h.0
    | inr g ↦ find-All P p a rows h.1 (rw g at f)
  ]

  -- The first row of a table in order, when the search has its id, is what is found.
  first_found :
      (id : ℕ) (a r : A) (rows : List A)
      → All (λ x. m.id r < m.id x) rows
      → (m.id r == id) ≡ true
      → find (λ x. m.id x == id && is_visible m false x) (r ∷ rows) ≡ some a
      → a ≡ r
  first_found id a r rows h g f = elim (Bool-cases (is_visible m false r)) [
    | inl v ↦ sym (some_injective r a (rw (g, v) at f))
    | inr v ↦
        let f' = rw (g, v) at f in
        absurd
          (ground (arith, g, find-All (λ x. m.id r < m.id x) _ a rows h f', find-holds _ a rows f'))
  ]

  -- Writing a row and then the one that was there before gives the table back.
  put-put :
      (id : ℕ) (a b : A) (rows : List A)
      → IsOrdered m rows
      → m.id b ≡ id
      → find (λ x. m.id x == id && is_visible m false x) rows ≡ some a
      → put m a (put m b rows) ≡ rows
  put-put id a b [] h e f = refl
  put-put id a b (r ∷ rows) h e f = elim (Bool-cases (m.id r == id)) [
    | inl g ↦
        let q = first_found id a r rows h.0 g f in
        let t : (m.id r == m.id b) ≡ true = ground (arith, e, g) in
        let t' : (m.id b == m.id a) ≡ true = rw q (ground (arith, e, g)) in
        rw (t, t', put_misses (m.id r) b rows (ground (arith, e, g)) h.0)
          (ap₂ (λ x y. x ∷ y) q (put_misses (m.id r) a rows (ap m.id q) h.0))
    | inr g ↦
        let k = find-holds (λ x. m.id x == id && is_visible m false x) a (r ∷ rows) f in
        let t : (m.id r == m.id b) ≡ false = ground (arith, e, g) in
        let t' : (m.id r == m.id a) ≡ false = ground (arith, k, g) in
        rw (t, t') (ap (λ x. r ∷ x) (put-put id a b rows h.1 e (rw g at f)))
  ]

  find-put :
      (id : ℕ) (a b : A) (rows : List A)
      → m.id b ≡ id
      → find (λ x. m.id x == id && is_visible m false x) rows ≡ some a
      → find (λ x. m.id x == id && is_visible m true x) (put m b rows) ≡ some b
  find-put id a b [] e f = absurd cc
  find-put id a b (r ∷ rows) e f = elim (Bool-cases (m.id r == id)) [
    | inl g ↦ let t : (m.id r == m.id b) ≡ true = ground (arith, e, g) in rw t (ground (arith, e))
    | inr g ↦
        let t : (m.id r == m.id b) ≡ false = ground (arith, e, g) in
        rw (t, g) (find-put id a b rows e (rw g at f))
  ]

module _ {A : Type 0} (m : Model A) (columns : Columns m) (soft : m.has_soft_delete ≡ true) where
  live : (a : A) → is_visible m false a ≡ true → m.deleted_at a ≡ none
  live a v = elim (Option-cases (m.deleted_at a)) [
    | inl e ↦ e
    | inr (t, e) ↦ absurd (grind (arith, v, soft, e))
  ]

  hidden : (now : ℕ) (a : A) → is_visible m false (m.set_deleted_at (some now) a) ≡ false
  hidden now a = grind (arith, soft, columns.deleted_set (some now) a)

  pub delete_soft :
      (now id : ℕ) (rows : List A) (a : A)
      → get m rows id false ≡ some a
      → delete m now rows id
        ≡ (some (m.set_deleted_at (some now) a), put m (m.set_deleted_at (some now) a) rows)
  unfolding get delete
  delete_soft now id rows a f = rw (delete, f) (if_true _ _ soft)

  pub restore_soft :
      (id t : ℕ) (rows : List A) (b : A)
      → get m rows id true ≡ some b
      → m.deleted_at b ≡ some t
      → restore m rows id ≡ (some (m.set_deleted_at none b), put m (m.set_deleted_at none b) rows)
  unfolding get restore
  restore_soft id t rows b f d = rw (restore, f, d) (if_false _ _ (ap not soft))

  -- Over a table in the order of its ids, deleting the row that a look-up finds hides its id from
  -- the look-ups that leave deleted rows out, and restoring it returns that row and gives the
  -- table back.
  pub restore-delete :
      (now id : ℕ) (rows : List A) (a : A)
      → IsOrdered m rows
      → get m rows id false ≡ some a
      → (get m (delete m now rows id).1 id false ≡ none)
        × (restore m (delete m now rows id).1 id ≡ (some a, rows))
  unfolding get
  restore-delete now id rows a h f =
      let b = m.set_deleted_at (some now) a in
      let k = find-holds (λ x. m.id x == id && is_visible m false x) a rows f in
      let e : m.id b ≡ id = ground (arith, columns.id_set (some now) a, k) in
      let d = live a (ground (arith, k)) in
      let z : m.set_deleted_at none b ≡ a = rw (sym d) (columns.set_set (some now) a) in
      rw (delete_soft now id rows a f) (
        put_hides m id b rows e (hidden now a),
        restore_soft id now (put m b rows) b (find-put m id a b rows e f)
              (columns.deleted_set (some now) a)
            ∙ ap₂ (λ x y. (some x, y)) z
                (ap (λ x. put m x (put m b rows)) z ∙ put-put m id a b rows h e f),
      )
