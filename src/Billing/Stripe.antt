-- ===== src/Billing/Stripe.antt =====
-- app/billing/services/stripe_events.py, second part: the handlers of subscription and payment
-- events, their dispatch, and the answer of the endpoint (app/billing/api/endpoints/stripe.py).
pub mod Sync
pub mod Ledger
pub mod Replay
pub mod Intake
pub use async_fastapi_template.Billing.Checkout.{
  Outcome, invalid, duplicate, skipped, linked, created, unknown, unchanged, synced, went_past_due,
  ignored, rejected, failed, stamp, lift,
}
unfoldable pub use async_fastapi_template.Billing.Checkout.{
  record_event, mark_processed, period_from_stripe, stripe_status_map, status_from_stripe,
  checkout_terms, new_subscription, add_subscription, create_from_checkout, link_or_create,
  checkout_fields, handle_checkout_completed,
}
use text.Mathlib.Text.{◌==◌ as str_eq}
use async_fastapi_template.Prelude.{
  ℕ, String, ◌+◌, ◌*◌, max, Bool, true, false, not, ◌&&◌, ◌||◌, Option, none, some, List, [], ◌∷◌,
  ◌++◌, ltb, leb, ◌==◌, if◌then◌else◌, is_some, find,
}
use async_fastapi_template.Billing.Model.{
  Status, trialing, active, past_due, canceled, status_eq, Plan, Subscription, StripeEvent,
}
use async_fastapi_template.Billing.Session.{
  ⊤, Tables, World, Bus, Error, Result, ok, err, value_error, type_error, illegal_transition, M,
  pure, raise, or_raise, ◌>>=◌, ◌>>◌, raise_if, tables, write, commit, rollback, save_subscription,
  get_plan, get_live_for_tenant, get_subscription_by_stripe_id,
}
use async_fastapi_template.Billing.Json.{
  Json, null, obj, str, Fields, end, get_or, get, set_field, or_json, as_dict, as_text,
  positive_time, Python, to_text,
}
use async_fastapi_template.Billing.Dunning.{
  Config, assert_transition, reset_dunning, record_payment_failure,
}
use async_fastapi_template.Billing.Invoicing.{commit_or_conflict}

-- The assertions of `handle_subscription_sync`: none for a target of `trialing` or `suspended`.
unfoldable pub assert_sync : Status → Status → M ⊤
unfolding assert_transition
assert_sync current canceled = assert_transition current canceled
assert_sync current past_due = assert_transition current past_due
assert_sync current active = assert_transition current active
assert_sync current _ = pure tt

-- The attribute writes of `handle_subscription_sync`
unfoldable pub sync_row : ℕ → Status → ℕ × ℕ → Subscription → Subscription
unfolding reset_dunning
sync_row now target period s =
    let s' : Subscription = elim target [
      | canceled ↦ record s {
        canceled_at = some now;
        cancel_at_period_end = false;
        pending_plan_id = none;
      }
      | active ↦ if status_eq s.status past_due then (reset_dunning s).0 else s
      | _ ↦ s
    ] in
    record s' { status = target; current_period_start = period.0; current_period_end = period.1 }

-- `handle_subscription_sync` for a subscription that is known
unfoldable pub sync_known : Python → ℕ → Fields → Subscription → M Outcome
unfolding assert_sync
sync_known py now fs s = do
  target ← lift (status_from_stripe py now fs)
  (if status_eq target s.status then pure unchanged else (do
    assert_sync s.status target
    save_subscription (sync_row now target (period_from_stripe now fs) s)
    commit_or_conflict
    pure synced))

-- `handle_subscription_sync`
unfoldable pub handle_subscription_sync : Python → ℕ → Fields → M Outcome
handle_subscription_sync py now fs w =
    elim (get_subscription_by_stripe_id w.session (to_text py (get_or "id" (str "") fs))) [
      | none ↦ (ok unknown, w)
      | some s ↦ sync_known py now fs s w
    ]

-- `handle_payment_failed` for a subscription that is known
unfoldable pub fail_known : Config → Option Bus → Subscription → M Outcome
fail_known c bus s = do record_payment_failure c bus none s; commit; pure went_past_due

-- `handle_payment_failed`
unfoldable pub handle_payment_failed : Config → Option Bus → Fields → M Outcome
handle_payment_failed c bus fs w = elim (as_text (get "subscription" fs)) [
  | none ↦ (ok skipped, w)
  | some id ↦ elim (get_subscription_by_stripe_id w.session id) [
    | none ↦ (ok unknown, w)
    | some s ↦ fail_known c bus s w
  ]
]

-- `inner`; a value that is no dictionary makes the handlers raise.
unfoldable pub inner : Fields → Json
inner event = elim (as_dict (get "data" event)) [
  | some d ↦ get_or "object" (obj end) d
  | none ↦ obj end
]

-- The dispatch of `process_event` on the type
unfoldable pub dispatch : Python → Config → Option Bus → String → Json → M Outcome
dispatch py c bus kind v =
    if str_eq kind "checkout.session.completed"
    then or_raise (as_dict v) type_error >>= handle_checkout_completed py c.clock
    else if str_eq kind "customer.subscription.updated"
    then or_raise (as_dict v) type_error >>= handle_subscription_sync py c.clock
    else if str_eq kind "customer.subscription.deleted"
    then or_raise (as_dict v) type_error
      >>= (λ fs. handle_subscription_sync py c.clock (set_field "status" (str "canceled") fs))
    else if str_eq kind "invoice.payment_failed"
    then or_raise (as_dict v) type_error >>= handle_payment_failed c bus
    else pure ignored

-- `process_event` behind the ledger
unfoldable pub handle_fresh : Python → Config → Option Bus → String → String → Json → M Outcome
handle_fresh py c bus id kind v = do
  outcome ← dispatch py c bus kind v
  mark_processed c.clock id
  pure outcome

-- `process_event`
unfoldable pub process_event : Python → Config → Option Bus → Fields → M Outcome
process_event py c bus event =
    let id = to_text py (get_or "id" (str "") event) in
    let kind = to_text py (get_or "type" (str "") event) in
    if str_eq id "" || str_eq kind "" then pure invalid else (do
      fresh ← record_event id kind
      (if fresh then handle_fresh py c bus id kind (inner event) else pure duplicate))

abbrev pub answer : Result Outcome → Outcome
answer (ok o) = o
answer (err illegal_transition) = rejected
answer (err e) = failed

-- The end of `stripe_webhook`, on a verified event: every outcome is acknowledged, and the session
-- of the request is closed.
unfoldable pub receive : Python → Config → Option Bus → Fields → World → Outcome × World
receive py c bus event w =
    let (r, w') = process_event py c bus event w in (answer r, record w' { session = w'.stored })
