-- ===== src/Billing/Invoicing/Lifecycle.antt =====
-- The life of an invoice after its generation: `issue`, `mark_paid` and `void`.
use async_fastapi_template.Prelude.{
  ℕ, ◌≡◌, refl, inl, inr, true, Option, none, some, arith, Option-cases,
}
use async_fastapi_template.Billing.Model.{Subscription, past_due, Invoice, paid}
use async_fastapi_template.Billing.Status.{invoice_allowed}
use async_fastapi_template.Billing.Session.{
  Tables, World, Bus, recovered, save_invoice, ok, err, Error, M, save_subscription, get_invoice,
  get_subscription, put_invoice, put_subscription,
}
use async_fastapi_template.Billing.Dunning.{is_dunning, recover_subscription, recovered_row}
use async_fastapi_template.Billing.Dunning.Publish.{publish_to_recipients-tables}
use async_fastapi_template.Billing.Invoicing.{issue, recover_paid, mark_paid, void_invoice}

-- A call of the service on one invoice.
pub data Operation : Type 0 where
  to_issue to_pay to_void : Operation

unfoldable pub operate : Operation → ℕ → Option Bus → ℕ → M Invoice
operate to_issue clock bus id = issue clock id
operate to_pay clock bus id = mark_paid clock id bus
operate to_void clock bus id = void_invoice id

-- What ending the dunning does to the tables, whether or not the bus takes the event.
recover_subscription-tables :
    (bus : Option Bus) (s : Subscription) (w : World)
    → let w' = (recover_subscription bus s w).1 in
      (w'.stored ≡ w.stored)
      × (w'.session ≡ record (w.session) {
        subscriptions = put_subscription (recovered_row s).0 w.session.subscriptions;
      })
unfolding recover_subscription
recover_subscription-tables bus s w = ground (
  arith,
  publish_to_recipients-tables bus recovered (recovered_row s).0
      (save_subscription (recovered_row s).0 w).1,
)

recover_paid-tables :
    (bus : Option Bus) (o : Option Subscription) (w : World)
    → (recover_paid bus o w).1.stored ≡ w.stored
unfolding recover_paid
recover_paid-tables bus none w = refl
recover_paid-tables bus (some s) w = ground (arith, recover_subscription-tables bus s w)

recover_paid-invoices :
    (bus : Option Bus) (o : Option Subscription) (w : World)
    → (recover_paid bus o w).1.session.invoices ≡ w.session.invoices
unfolding recover_paid
recover_paid-invoices bus none w = refl
recover_paid-invoices bus (some s) w = ground (arith, recover_subscription-tables bus s w)

-- Whichever call on an invoice raises, nothing of it is stored.
pub operate_atomic :
    (op : Operation) (clock : ℕ) (bus : Option Bus) (id : ℕ) (w : World) {e : Error}
    → (operate op clock bus id w).0 ≡ err e
    → (operate op clock bus id w).1.stored ≡ w.stored
unfolding operate issue mark_paid void_invoice
operate_atomic to_issue clock bus id w h = ground arith
operate_atomic to_pay clock bus id w h = elim (Option-cases (get_invoice w.session id)) [
  | inl gone ↦ ground arith
  | inr (i, found) ↦ ground (
    arith,
    recover_paid-tables bus (get_subscription w.session i.subscription_id)
        (save_invoice (record i { status = paid; paid_at = some clock }) w).1,
  )
]
operate_atomic to_void clock bus id w h = ground arith

-- What a successful call has done to the invoice `id`.
abbrev pub Moved : ℕ → Tables → Invoice → Tables → Type 0
Moved id before i' after =
    (i : Invoice) × (get_invoice before id ≡ some i)
    × (invoice_allowed i.status i'.status ≡ true)
    × (i'.total_cents ≡ i.total_cents)
    × (after.invoices ≡ put_invoice i' before.invoices)

-- A call that succeeds found the invoice, moved its status along the documented diagram, left its
-- amount alone, and stored exactly this change of the invoices.
pub operate_moves :
    (op : Operation) (clock : ℕ) (bus : Option Bus) (id : ℕ) (w : World) {i' : Invoice}
    → (operate op clock bus id w).0 ≡ ok i'
    → Moved id w.session i' (operate op clock bus id w).1.stored
unfolding operate issue mark_paid void_invoice
operate_moves to_issue clock bus id w h = elim (Option-cases (get_invoice w.session id)) [
  | inl gone ↦ absurd (ground arith)
  | inr (i, found) ↦ (i, found, ground arith, ground arith, ground arith)
]
operate_moves to_pay clock bus id w h = elim (Option-cases (get_invoice w.session id)) [
  | inl gone ↦ absurd (ground arith)
  | inr (i, found) ↦
      let same =
        recover_paid-invoices bus (get_subscription w.session i.subscription_id)
          (save_invoice (record i { status = paid; paid_at = some clock }) w).1 in
      (i, found, ground arith, ground arith, ground arith)
]
operate_moves to_void clock bus id w h = elim (Option-cases (get_invoice w.session id)) [
  | inl gone ↦ absurd (ground arith)
  | inr (i, found) ↦ (i, found, ground arith, ground arith, ground arith)
]

-- Once a payment of an invoice is recorded, its subscription, if the session has it as past due,
-- is stored as recovered: active, with the dunning state cleared; no other subscription changes.
pub mark_paid_recovers :
    (clock : ℕ) (bus : Option Bus) (id : ℕ) (w : World) {i i' : Invoice} {s : Subscription}
    → (mark_paid clock id bus w).0 ≡ ok i'
    → get_invoice w.session id ≡ some i
    → get_subscription w.session i.subscription_id ≡ some s
    → s.status ≡ past_due
    → (mark_paid clock id bus w).1.stored.subscriptions
      ≡ put_subscription (recovered_row s).0 w.session.subscriptions
unfolding mark_paid recover_paid is_dunning
mark_paid_recovers clock bus id w {i} {i'} {s} h found sub late = ground (
  arith,
  recover_subscription-tables bus s
      (save_invoice (record i { status = paid; paid_at = some clock }) w).1,
)
