-- ===== src/Notifications/Inbox/Order.antt =====
-- Tables in descending order of their ids, and what filters, pages and cursors leave of them.
use mathlib.Core.Path.{subst}
use async_fastapi_template.Prelude.{
  ℕ, zero, suc, ◌≤◌, ◌<◌, ◌≡◌, refl, sym, ap, ◌∙◌, Bool, true, false, ◌&&◌, Option, some, List, [],
  ◌∷◌, ◌++◌, ltb, length, take, drop, select, All, arith, Bool-cases, Option-cases, inl, inr,
}
use async_fastapi_template.Crud.{last}
use async_fastapi_template.Notifications.Inbox.{Notification, is_below}

-- Each id is above the ids after it.
abbrev pub IsNewestFirst : List Notification → Type 0
IsNewestFirst [] = Unit
IsNewestFirst (n ∷ rows) = All (λ (x : Notification). x.id < n.id) rows × IsNewestFirst rows

select-All :
    (k : ℕ) (p : Notification → Bool) (rows : List Notification)
    → All (λ (x : Notification). x.id < k) rows
    → All (λ (x : Notification). x.id < k) (select p rows)
select-All k p [] h = tt
select-All k p (n ∷ rows) h = elim (Bool-cases (p n)) [
  | inl e ↦ rw e (h.0, select-All k p rows h.1)
  | inr e ↦ rw e (select-All k p rows h.1)
]

pub select-IsNewestFirst :
    (p : Notification → Bool) (rows : List Notification)
    → IsNewestFirst rows
    → IsNewestFirst (select p rows)
select-IsNewestFirst p [] h = tt
select-IsNewestFirst p (n ∷ rows) h = elim (Bool-cases (p n)) [
  | inl e ↦ rw e (select-All n.id p rows h.0, select-IsNewestFirst p rows h.1)
  | inr e ↦ rw e (select-IsNewestFirst p rows h.1)
]

select-select :
    (p q : Notification → Bool) (rows : List Notification)
    → select p (select q rows) ≡ select (λ n. p n && q n) rows
select-select p q [] = refl
select-select p q (n ∷ rows) = ground (arith, select-select p q rows)

-- Two tests that agree
select_same :
    (p q : Notification → Bool) (rows : List Notification)
    → ((n : Notification) → p n ≡ q n)
    → select p rows ≡ select q rows
select_same p q [] h = refl
select_same p q (n ∷ rows) h = rw (h n, select_same p q rows h) refl

All-below :
    (k : ℕ) (rows : List Notification)
    → All (λ (x : Notification). x.id < k) rows
    → select (is_below (some k)) rows ≡ rows
All-below k [] h = refl
All-below k (n ∷ rows) h = ground (arith, h.0, All-below k rows h.1)

pub last_below :
    (k : ℕ) (z : Notification) (rows : List Notification)
    → All (λ (x : Notification). x.id < k) rows
    → last rows ≡ some z
    → z.id < k
last_below k z [] h e = absurd cc
last_below k z (n ∷ rows) h e = elim (Option-cases (last rows)) [
  | inl f ↦ grind (arith, e, f, h.0)
  | inr (y, f) ↦ last_below k z rows h.1 (grind (arith, e, f))
]

pub take_below :
    (k m : ℕ) (rows : List Notification)
    → All (λ (x : Notification). x.id < k) rows
    → All (λ (x : Notification). x.id < k) (take m rows)
take_below k zero rows h = tt
take_below k (suc m) [] h = tt
take_below k (suc m) (n ∷ rows) h = (h.0, take_below k m rows h.1)

last_tail :
    (n z x : Notification) (rows : List Notification)
    → last (n ∷ x ∷ rows) ≡ some z
    → last (x ∷ rows) ≡ some z
last_tail n z x rows e = elim (Option-cases (last rows)) [
  | inl f ↦ grind (arith, e, f)
  | inr (y, f) ↦ grind (arith, e, f)
]

-- Behind the last row of a page stands what the page left.
below_last :
    (m : ℕ) (rows : List Notification) (z : Notification)
    → IsNewestFirst rows
    → last (take (suc m) rows) ≡ some z
    → select (is_below (some z.id)) rows ≡ drop (suc m) rows
below_last m [] z h e = refl
below_last zero (n ∷ rows) z h e =
    let t : n.id ≡ z.id = grind (arith, e) in
    let b : ltb n.id z.id ≡ false = ground (arith, t) in
    rw b (subst (λ k. select (is_below (some k)) rows ≡ rows) t (All-below n.id rows h.0))
below_last (suc m) (n ∷ []) z h e = let t : n.id ≡ z.id = grind (arith, e) in ground (arith, t)
below_last (suc m) (n ∷ x ∷ rows) z h e =
    let f = last_tail n z x (take m rows) e in
    let l =
      last_below n.id z (take (suc m) (x ∷ rows)) (take_below n.id (suc m) (x ∷ rows) h.0) f in
    ground (arith, l, below_last m (x ∷ rows) z h.1 f)

pub page_left :
    (m : ℕ) (rows : List Notification) (z : Notification)
    → 1 ≤ m
    → IsNewestFirst rows
    → last (take m rows) ≡ some z
    → select (is_below (some z.id)) rows ≡ drop m rows
page_left zero rows z s h e = absurd (omega (arith, s))
page_left (suc m) rows z s h e = below_last m rows z h e

pub selected_below :
    (c : ℕ) (q : Notification → Bool) (rows : List Notification)
    → All (λ (x : Notification). x.id < c) (select (λ n. is_below (some c) n && q n) rows)
selected_below c q [] = tt
selected_below c q (n ∷ rows) = elim (Bool-cases (is_below (some c) n && q n)) [
  | inl e ↦ rw e (ground (arith, e), selected_below c q rows)
  | inr e ↦ rw e (selected_below c q rows)
]

-- A page never ends above the cursor it starts at, so the next filter includes the last one.
pub narrower :
    (z : ℕ) (cursor : Option ℕ) (q : Notification → Bool) (rows : List Notification)
    → ((n : Notification) → is_below (some z) n ≡ true → is_below cursor n ≡ true)
    → select (λ n. is_below (some z) n && q n) rows
      ≡ select (is_below (some z)) (select (λ n. is_below cursor n && q n) rows)
narrower z cursor q rows h =
    select_same (λ n. is_below (some z) n && q n)
      (λ n. is_below (some z) n && (is_below cursor n && q n)) rows (λ n. ground (arith, h n))
    ∙ sym (select-select (is_below (some z)) (λ n. is_below cursor n && q n) rows)

-- Of the rows taken, one more shows whether there are more.
pub take_more :
    (m : ℕ) (rows : List Notification)
    → (take m (take (suc m) rows) ≡ take m rows)
      × (ltb m (length (take (suc m) rows)) ≡ ltb m (length rows))
take_more zero [] = (refl, refl)
take_more zero (n ∷ rows) = (refl, ground arith)
take_more (suc m) [] = (refl, refl)
take_more (suc m) (n ∷ rows) =
    let h = take_more m rows in (ap (λ l. n ∷ l) h.0, ground (arith, h.1))

pub take_all : (m : ℕ) (rows : List Notification) → length rows ≤ m → take m rows ≡ rows
take_all zero [] l = refl
take_all zero (n ∷ rows) l = absurd (omega (arith, l))
take_all (suc m) [] l = refl
take_all (suc m) (n ∷ rows) l = ap (λ t. n ∷ t) (take_all m rows (omega (arith, l)))

pub take-drop : (m : ℕ) (rows : List Notification) → take m rows ++ drop m rows ≡ rows
take-drop zero rows = refl
take-drop (suc m) [] = refl
take-drop (suc m) (n ∷ rows) = ap (λ t. n ∷ t) (take-drop m rows)

pub length-drop :
    (m : ℕ) (rows : List Notification)
    → 1 ≤ m
    → m < length rows
    → length (drop m rows) < length rows
length-drop zero rows s l = absurd (omega (arith, s))
length-drop (suc m) [] s l = absurd (omega (arith, l))
length-drop (suc zero) (n ∷ rows) s l = omega arith
length-drop (suc (suc m)) (n ∷ rows) s l =
    omega (arith, length-drop (suc m) rows (omega arith) (omega (arith, l)))

-- A page that is not empty has a last row.
pub last_there :
    (m : ℕ) (rows : List Notification)
    → 1 ≤ m
    → m < length rows
    → (z : Notification) × (last (take m rows) ≡ some z)
last_there zero rows s l = absurd (omega (arith, s))
last_there (suc m) [] s l = absurd (omega (arith, l))
last_there (suc m) (n ∷ rows) s l = elim (Option-cases (last (take m rows))) [
  | inl f ↦ (n, rw f refl)
  | inr (z, f) ↦ (z, rw f refl)
]
