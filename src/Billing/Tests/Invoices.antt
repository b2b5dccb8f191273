-- ===== src/Billing/Tests/Invoices.antt =====
-- Invoices of a concrete subscription.
use async_fastapi_template.Prelude.{
  ◌+◌, ◌≤◌, ◌≡◌, ◌⊎◌, refl, true, false, none, some, [], ◌∷◌, is_some, arith,
}
use async_fastapi_template.Billing.Model.{active, canceled, is_live, draft, open_, void}
use async_fastapi_template.Billing.Status.{invoice_allowed}
use async_fastapi_template.Billing.Session.{World, ok, integrity, find_blocking_for_period}
use async_fastapi_template.Billing.Invoicing.{
  build_invoice, add_invoice, generate_invoice, void_invoice,
}
use async_fastapi_template.Billing.Invoicing.Totals.{tenant_overage, build_invoice_total}
use async_fastapi_template.Billing.Invoicing.Generate.{
  generate_invoice_stores, generate_invoice_refuses,
}
use async_fastapi_template.Billing.Invoicing.Reissue.{void_invoice_frees}
use async_fastapi_template.Billing.Tests.Data.{basic, member, owing, bill, world, counted}

build_invoice_total_example :
    let i = build_invoice counted 20 (member active) basic 1000000 61000000 in
    (i.subtotal_cents ≡ 1000 + tenant_overage counted (some 7) 1000000 basic.metering)
    × (i.tax_cents ≡ 0)
    × (i.total_cents ≡ i.subtotal_cents + i.tax_cents)
    × (i.status ≡ draft)
    × (i.subscription_id ≡ 5)
build_invoice_total_example = build_invoice_total counted 20 (member active) basic 1000000 61000000

abbrev subscribed_world : World
subscribed_world = world (member active ∷ []) []

generate_invoice_stores_example :
    let i = build_invoice counted 20 (member active) basic 1000000 61000000 in
    let t = add_invoice i subscribed_world.session in
    (generate_invoice counted (member active) basic none none subscribed_world
      ≡ (ok i, record subscribed_world { stored = t; session = t }))
    × (integrity t ≡ true)
unfolding integrity
generate_invoice_stores_example =
    generate_invoice_stores counted (member active) basic none none subscribed_world refl refl
      (omega arith) refl

generate_invoice_refuses_example :
    ((generate_invoice counted (member canceled) basic none none subscribed_world).1
      ≡ subscribed_world)
    × ((is_live (member canceled) ≡ false)
        ⊎ (61000000 ≤ 1000000)
        ⊎ (is_some (find_blocking_for_period subscribed_world.session 5 1000000) ≡ true))
unfolding integrity generate_invoice
generate_invoice_refuses_example =
    generate_invoice_refuses counted (member canceled) basic none none subscribed_world refl refl

abbrev billed : World
billed = world (owing ∷ []) (bill open_ ∷ [])

void_invoice_frees_example :
    let i' = bill void in
    let t = record (billed.session) { invoices = i' ∷ [] } in
    (void_invoice 3 billed ≡ (ok i', record billed { stored = t; session = t }))
    × (integrity t ≡ true)
    × (find_blocking_for_period t 5 1000000 ≡ none)
unfolding integrity invoice_allowed
void_invoice_frees_example = void_invoice_frees 3 billed (bill open_) refl (tt, tt) refl refl
