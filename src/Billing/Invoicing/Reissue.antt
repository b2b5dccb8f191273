-- ===== src/Billing/Invoicing/Reissue.antt =====
-- Voiding an invoice frees its period for a new one, and the calls keep the unique indexes.
use async_fastapi_template.Prelude.{
  ℕ, ◌≡◌, refl, ap, ◌∙◌, inl, inr, Bool, true, false, ◌&&◌, none, some, List, [], ◌∷◌, ◌==◌, find,
  any, All, arith, Bool-cases,
}
use async_fastapi_template.Billing.Model.{Invoice, void, is_blocking}
use async_fastapi_template.Billing.Status.{invoice_allowed}
use async_fastapi_template.Billing.Session.{
  Tables, World, ok, integrity, period_clash, unique, get_invoice, find_blocking_for_period,
  put_invoice,
}
use async_fastapi_template.Billing.Session.Unique.{
  HasDistinctInvoices, found-Covers, unique-put_invoice,
}
use async_fastapi_template.Billing.Invoicing.{void_invoice}

abbrev blocks : ℕ → ℕ → Invoice → Bool
blocks sub start i = i.subscription_id == sub && (i.period_start == start && is_blocking i.status)

put_invoice-absent :
    (i : Invoice) (rows : List Invoice)
    → All (λ (x : Invoice). (x.id == i.id) ≡ false) rows
    → put_invoice i rows ≡ rows
put_invoice-absent i [] h = refl
put_invoice-absent i (r ∷ rows) h = ground (arith, put_invoice-absent i rows h.1)

-- No row that does not clash with a blocking invoice blocks its period.
find-blocks-none :
    (i : Invoice) (rows : List Invoice)
    → is_blocking i.status ≡ true
    → any (period_clash i) rows ≡ false
    → find (blocks i.subscription_id i.period_start) rows ≡ none
find-blocks-none i [] b h = refl
find-blocks-none i (r ∷ rows) b h = ground (arith, find-blocks-none i rows b)

any-found :
    (p : Invoice → Bool) (n : ℕ) (i : Invoice) (rows : List Invoice)
    → any p rows ≡ false
    → find (λ (r : Invoice). r.id == n) rows ≡ some i
    → p i ≡ false
any-found p n i [] h f = absurd (cc)
any-found p n i (r ∷ rows) h f = ground (arith, any-found p n i rows)

find-voided :
    (i i' : Invoice) (rows : List Invoice)
    → HasDistinctInvoices rows
    → unique period_clash rows ≡ true
    → find (λ (r : Invoice). r.id == i'.id) rows ≡ some i
    → is_blocking i.status ≡ true
    → is_blocking i'.status ≡ false
    → find (blocks i.subscription_id i.period_start) (put_invoice i' rows) ≡ none
find-voided i i' [] d u f b v = refl
find-voided i i' (r ∷ rows) d u f b v = elim (Bool-cases (r.id == i'.id)) [
  | inl e ↦
      let same : r ≡ i = ground arith in
      let id : r.id ≡ i'.id = ground arith in
      let rest : put_invoice i' rows ≡ rows = put_invoice-absent i' rows (rw id at d.0) in
      rw (e, rest, v) (ground (arith, find-blocks-none i rows b))
  | inr e ↦
      rw e (ground (arith, any-found (period_clash r) i'.id i rows, find-voided i i' rows d.1))
]

found-id :
    (n : ℕ) (i : Invoice) (rows : List Invoice)
    → find (λ (r : Invoice). r.id == n) rows ≡ some i
    → i.id ≡ n
found-id n i [] f = absurd (cc)
found-id n i (r ∷ rows) f = ground (arith, found-id n i rows)

put_invoice-integrity :
    (i' : Invoice) (t : Tables)
    → integrity t ≡ true
    → unique period_clash (put_invoice i' t.invoices) ≡ true
    → integrity (record t { invoices = put_invoice i' t.invoices }) ≡ true
unfolding integrity
put_invoice-integrity i' t h k = ground arith

periods_unique : (t : Tables) → integrity t ≡ true → unique period_clash t.invoices ≡ true
unfolding integrity
periods_unique t h = ground arith

-- From a session that satisfies the unique indexes and has distinct invoice ids: voiding an
-- invoice that may be voided succeeds and stores the change, the unique indexes still hold, and
-- no blocking invoice is left for its subscription and period start, so that the period can be
-- invoiced again.
pub void_invoice_frees :
    (id : ℕ) (w : World) (i : Invoice)
    → integrity w.session ≡ true
    → HasDistinctInvoices w.session.invoices
    → get_invoice w.session id ≡ some i
    → invoice_allowed i.status void ≡ true
    → let i' = record i { status = void } in
      let t = record (w.session) { invoices = put_invoice i' w.session.invoices } in
      (void_invoice id w ≡ (ok i', record w { stored = t; session = t }))
      × (integrity t ≡ true)
      × (find_blocking_for_period t i.subscription_id i.period_start ≡ none)
unfolding void_invoice invoice_allowed
void_invoice_frees id w i h d f a =
    let i' = record i { status = void } in
    let rows = w.session.invoices in
    let key : i.id ≡ id = found-id id i rows f in
    let f' : find (λ (r : Invoice). r.id == i'.id) rows ≡ some i =
      ap (λ n. find (λ (r : Invoice). r.id == n) rows) key ∙ f in
    let u : unique period_clash rows ≡ true = periods_unique w.session h in
    let covers = found-Covers i i' rows d f' refl refl (λ b. ground arith) in
    let whole = put_invoice-integrity i' w.session h (unique-put_invoice i' rows covers u) in
    (ground (arith, whole), whole, find-voided i i' rows d u f' (ground arith) refl)
