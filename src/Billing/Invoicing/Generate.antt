-- ===== src/Billing/Invoicing/Generate.antt =====
-- When `generate_invoice` succeeds, and that it is all or nothing.
use async_fastapi_template.Prelude.{
  ℕ, ◌<◌, ◌≤◌, ◌≡◌, inl, inr, ◌⊎◌, true, false, Option, none, leb, any, arith, is_some, Bool-cases,
  Option-cases,
}
use async_fastapi_template.Billing.Model.{Subscription, Plan, is_live, Invoice, draft}
use async_fastapi_template.Billing.Session.{
  Tables, World, Error, ok, err, integrity, period_clash, find_blocking_for_period,
}
use async_fastapi_template.Billing.Session.Unique.{any-find-none, unique-append}
use async_fastapi_template.Billing.Usage.{Redis}
use async_fastapi_template.Billing.Invoicing.{
  build_invoice, append_metered_lines, add_invoice, generate_invoice, or_else,
}

build_invoice_keys :
    (redis : Redis) (id : ℕ) (s : Subscription) (plan : Plan) (start end : ℕ)
    → let i = build_invoice redis id s plan start end in
      (i.subscription_id ≡ s.id) × (i.period_start ≡ start) × (i.status ≡ draft)
unfolding build_invoice append_metered_lines
build_invoice_keys redis id s plan start end = ground arith

-- The check for a blocking invoice makes sure that the unique index accepts the new one.
pub add_invoice-integrity :
    (t : Tables) (i : Invoice)
    → integrity t ≡ true
    → find_blocking_for_period t i.subscription_id i.period_start ≡ none
    → integrity (add_invoice i t) ≡ true
unfolding integrity add_invoice
add_invoice-integrity t i h e =
    let free : any (λ x. period_clash x i) t.invoices ≡ false =
      any-find-none _ (λ x. period_clash x i) t.invoices (λ x k. ground arith) e in
    ground (arith, unique-append period_clash i t.invoices)

-- From a session that satisfies the unique indexes: a live subscription, a period that is not
-- empty and no draft, open or paid invoice for its start are enough for `generate_invoice` to
-- succeed; the invoice is stored, nothing else changes, and the indexes still hold.
pub generate_invoice_stores :
    (redis : Redis) (s : Subscription) (plan : Plan) (from to : Option ℕ) (w : World)
    → integrity w.session ≡ true
    → is_live s ≡ true
    → or_else from s.current_period_start < or_else to s.current_period_end
    → find_blocking_for_period w.session s.id (or_else from s.current_period_start) ≡ none
    → let i =
        build_invoice redis w.session.next_id s plan
          (or_else from s.current_period_start)
          (or_else to s.current_period_end) in
      let t = add_invoice i w.session in
      (generate_invoice redis s plan from to w ≡ (ok i, record w { stored = t; session = t }))
      × (integrity t ≡ true)
unfolding generate_invoice
generate_invoice_stores redis s plan from to w h live lt free =
    let start = or_else from s.current_period_start in
    let i = build_invoice redis w.session.next_id s plan start (or_else to s.current_period_end) in
    let (k, p, d) =
      build_invoice_keys redis w.session.next_id s plan start (or_else to s.current_period_end) in
    let whole : integrity (add_invoice i w.session) ≡ true =
      add_invoice-integrity w.session i h (rw (k, p) free) in
    (ground (arith, whole), whole)

-- From a session that satisfies the unique indexes: whenever `generate_invoice` raises, nothing
-- has changed, and the subscription is not live, the period is empty, or a draft, open or paid
-- invoice covers its start.
pub generate_invoice_refuses :
    (redis : Redis) (s : Subscription) (plan : Plan) (from to : Option ℕ) (w : World) {e : Error}
    → integrity w.session ≡ true
    → (generate_invoice redis s plan from to w).0 ≡ err e
    → let start = or_else from s.current_period_start in
      ((generate_invoice redis s plan from to w).1 ≡ w)
      × ((is_live s ≡ false)
          ⊎ (or_else to s.current_period_end ≤ start)
          ⊎ (is_some (find_blocking_for_period w.session s.id start) ≡ true))
unfolding generate_invoice
generate_invoice_refuses redis s plan from to w h e =
    let start = or_else from s.current_period_start in
    let end = or_else to s.current_period_end in
    elim (Bool-cases (is_live s)) [
      | inr dead ↦ (ground arith, inl dead)
      | inl live ↦ elim (Bool-cases (leb end start)) [
        | inl empty ↦ (ground arith, inr (inl (ground arith)))
        | inr proper ↦ elim (Option-cases (find_blocking_for_period w.session s.id start)) [
          | inl free ↦ absurd (
              ground
                (arith, generate_invoice_stores redis s plan from to w h live (ground arith) free))
          | inr (i, taken) ↦ (ground arith, inr (inr (ground arith)))
        ]
      ]
    ]
