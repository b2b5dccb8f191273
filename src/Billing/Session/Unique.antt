-- ===== src/Billing/Session/Unique.antt =====
-- When a write keeps the unique indexes of the billing tables, so that `commit` goes through.
use async_fastapi_template.Prelude.{
  ◌≡◌, refl, ap, map, inl, inr, Bool, true, false, none, some, List, [], ◌∷◌, ◌++◌, ◌==◌,
  if◌then◌else◌, any, find, find_last, All, arith, Bool-cases,
}
use async_fastapi_template.Billing.Model.{Invoice, is_blocking}
use async_fastapi_template.Billing.Session.{unique, period_clash, put_invoice}

module _ {A : Type 0} where
  -- Where a lookup fails, a test that implies its condition holds nowhere.
  pub any-find-none :
      (p q : A → Bool) (xs : List A)
      → ((x : A) → p x ≡ false → q x ≡ false)
      → find p xs ≡ none
      → any q xs ≡ false
  any-find-none p q [] h e = refl
  any-find-none p q (x ∷ xs) h e = ground (arith, h x, any-find-none p q xs h)

  pub any-find_last-none :
      (p q : A → Bool) (xs : List A)
      → ((x : A) → p x ≡ false → q x ≡ false)
      → find_last p xs ≡ none
      → any q xs ≡ false
  any-find_last-none p q [] h e = refl
  any-find_last-none p q (x ∷ xs) h e = ground (arith, h x, any-find_last-none p q xs h)

  pub any-append-one :
      (p : A → Bool) (y : A) (xs : List A)
      → any p xs ≡ false
      → p y ≡ false
      → any p (xs ++ y ∷ []) ≡ false
  any-append-one p y [] h k = ground arith
  any-append-one p y (x ∷ xs) h k = ground (arith, any-append-one p y xs)

  -- A new row that clashes with no row keeps a table unique.
  pub unique-append :
      (clash : A → A → Bool) (y : A) (xs : List A)
      → unique clash xs ≡ true
      → any (λ x. clash x y) xs ≡ false
      → unique clash (xs ++ y ∷ []) ≡ true
  unique-append clash y [] h k = refl
  unique-append clash y (x ∷ xs) h k =
      ground (arith, any-append-one (clash x) y xs, unique-append clash y xs)

-- A rewrite of all rows that brings two of them into a clash only if they clashed before.
module _ {A : Type 0} (f : A → A) (clash : A → A → Bool) (P : A → Type 0)
    (keeps : (x r : A) → P x → P r → clash x r ≡ false → clash (f x) (f r) ≡ false) where
  any-map :
      (x : A) (rows : List A)
      → P x
      → All P rows
      → any (clash x) rows ≡ false
      → any (clash (f x)) (map f rows) ≡ false
  any-map x [] hx h k = refl
  any-map x (r ∷ rows) hx h k = ground (arith, keeps x r hx h.0, any-map x rows hx h.1)

  pub unique-map :
      (rows : List A) → All P rows → unique clash rows ≡ true → unique clash (map f rows) ≡ true
  unique-map [] h k = refl
  unique-map (r ∷ rows) h k = ground (arith, any-map r rows h.0 h.1, unique-map rows h.1)

module _ (i : Invoice) where
  -- The row may be replaced by `i`: they claim one period, and `i` does not claim it anew.
  abbrev pub Covers : Invoice → Type 0
  Covers r =
      (r.id == i.id) ≡ true
      → (r.subscription_id ≡ i.subscription_id)
        × (r.period_start ≡ i.period_start)
        × (is_blocking i.status ≡ true → is_blocking r.status ≡ true)

  replaced : Invoice → Invoice
  replaced r = if r.id == i.id then i else r

  clash-replaced :
      (x r : Invoice)
      → Covers x
      → Covers r
      → period_clash x r ≡ false
      → period_clash (replaced x) (replaced r) ≡ false
  unfolding replaced
  clash-replaced x r hx hr h = ground (arith, hx, hr)

  put-eq-map : (rows : List Invoice) → put_invoice i rows ≡ map replaced rows
  unfolding replaced
  put-eq-map [] = refl
  put-eq-map (r ∷ rows) = ap (λ xs. replaced r ∷ xs) (put-eq-map rows)

  -- Such a replacement keeps the index on the periods.
  pub unique-put_invoice :
      (rows : List Invoice)
      → All Covers rows
      → unique period_clash rows ≡ true
      → unique period_clash (put_invoice i rows) ≡ true
  unique-put_invoice rows h k =
      rw (put-eq-map rows) (unique-map replaced period_clash Covers clash-replaced rows h k)

-- The invoices have distinct ids: the primary key.
abbrev pub HasDistinctInvoices : List Invoice → Type 0
HasDistinctInvoices [] = Unit
HasDistinctInvoices (r ∷ rows) =
    All (λ (x : Invoice). (x.id == r.id) ≡ false) rows × HasDistinctInvoices rows

absent-Covers :
    (i : Invoice) (rows : List Invoice)
    → All (λ (x : Invoice). (x.id == i.id) ≡ false) rows
    → All (Covers i) rows
absent-Covers i [] h = tt
absent-Covers i (r ∷ rows) h = ((λ e. absurd (cc (h.0))), absent-Covers i rows h.1)

-- The row that a lookup found may be replaced by a change of its status away from `void`.
pub found-Covers :
    (old i : Invoice) (rows : List Invoice)
    → HasDistinctInvoices rows
    → find (λ (r : Invoice). r.id == i.id) rows ≡ some old
    → old.subscription_id ≡ i.subscription_id
    → old.period_start ≡ i.period_start
    → (is_blocking i.status ≡ true → is_blocking old.status ≡ true)
    → All (Covers i) rows
found-Covers old i [] d f s p b = tt
found-Covers old i (r ∷ rows) d f s p b = elim (Bool-cases (r.id == i.id)) [
  | inl e ↦
      let same : r ≡ old = ground arith in
      let id : r.id ≡ i.id = ground arith in
      (
        λ _. (ground arith, ground arith, λ k. ground (arith, b k)),
        absent-Covers i rows (rw id at d.0),
      )
  | inr e ↦ ((λ k. absurd (cc)), found-Covers old i rows d.1 (ground arith) s p b)
]
