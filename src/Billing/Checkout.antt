-- ===== src/Billing/Checkout.antt =====
-- app/billing/services/stripe_events.py, first part: the idempotency ledger, how status and period
-- are read from Stripe's objects, and the handler of a completed checkout.
use text.Mathlib.Text.{◌==◌ as str_eq}
use async_fastapi_template.Prelude.{
  ℕ, String, ◌+◌, ◌*◌, max, Bool, true, false, ◌||◌, Option, none, some, List, [], ◌∷◌, ◌++◌, leb,
  if◌then◌else◌, is_some, find,
}
use async_fastapi_template.Billing.Model.{
  Status, trialing, active, past_due, canceled, Plan, Subscription, StripeEvent,
}
use async_fastapi_template.Billing.Session.{
  ⊤, Tables, Result, ok, err, value_error, M, pure, or_raise, ◌>>=◌, ◌>>◌, tables, write, commit,
  save_subscription, get_plan, get_live_for_tenant,
}
use async_fastapi_template.Billing.Json.{
  Json, null, obj, str, Fields, end, get_or, get, or_json, as_dict, as_text, positive_time, Python,
  to_text,
}

-- The labels that the handlers return.
pub data Outcome : Type 0 where
  invalid duplicate skipped linked created unknown unchanged synced went_past_due ignored : Outcome
  rejected failed : Outcome

-- `record_event`: `false` if the event was seen before; a race on the unique index counts as that.
unfoldable pub record_event : String → String → M Bool
record_event id kind w =
    if is_some (find (λ (e : StripeEvent). str_eq e.event_id id) w.session.stripe_events)
    then (ok false, w)
    else (let row : StripeEvent = record {
      event_id = id;
      event_type = kind;
      processed_at = none;
    } in
        let t = record (w.session) { stripe_events = w.session.stripe_events ++ row ∷ [] } in
        let (r, w') = commit (record w { session = t }) in
        elim r [ ok u ↦ (ok true, w') | err e ↦ (ok false, record w' { session = w'.stored }) ])

abbrev pub stamp : String → ℕ → List StripeEvent → List StripeEvent
stamp id now [] = []
stamp id now (e ∷ es) =
    (if str_eq e.event_id id then record e { processed_at = some now } else e) ∷ stamp id now es

-- `mark_processed`
unfoldable pub mark_processed : ℕ → String → M ⊤
mark_processed now id w =
    if is_some (find (λ (e : StripeEvent). str_eq e.event_id id) w.session.stripe_events)
    then (write (λ t. record t { stripe_events = stamp id now t.stripe_events }) >> commit) w
    else (ok tt, w)

abbrev pub time_or : Option ℕ → ℕ → ℕ
time_or (some t) d = t
time_or none d = d

-- `_period_from_stripe`
unfoldable pub period_from_stripe : ℕ → Fields → ℕ × ℕ
period_from_stripe now fs =
    let start = time_or (positive_time (get "current_period_start" fs)) now in
    let end = time_or (positive_time (get "current_period_end" fs)) (start + 30 * 86400000000) in
    (start, max end (start + 60000000))

-- `STRIPE_STATUS_MAP`
unfoldable pub stripe_status_map : String → Option Status
stripe_status_map s =
    if str_eq s "active"
    then some active
    else if str_eq s "past_due"
    then some past_due
    else if str_eq s "canceled"
    then some canceled
    else if str_eq s "unpaid"
    then some past_due
    else none

-- `_status_from_stripe`
unfoldable pub status_from_stripe : Python → ℕ → Fields → Result Status
unfolding stripe_status_map
status_from_stripe py now fs =
    let status = to_text py (get_or "status" (str "") fs) in
    if str_eq status "trialing"
    then elim (positive_time (get "trial_end" fs)) [
      | some t ↦ if leb t now then ok active else ok trialing
      | none ↦ ok trialing
    ]
    else elim (stripe_status_map status) [ some s ↦ ok s | none ↦ err value_error ]

abbrev pub lift : {A : Type 0} → Result A → M A
lift r w = (r, w)

-- The status, period and trial end of a checkout with or without its subscription object
unfoldable pub checkout_terms : Python → ℕ → Json → Result (Status × ℕ × ℕ × Option ℕ)
unfolding status_from_stripe period_from_stripe
checkout_terms py now (obj fs) =
    let (start, stop) = period_from_stripe now fs in
    elim (status_from_stripe py now fs) [
      | ok s ↦ ok (s, start, stop, positive_time (get "trial_end" fs))
      | err e ↦ err e
    ]
checkout_terms py now _ =
    let (start, stop) = period_from_stripe now end in ok (active, start, stop, none)

-- The row that `handle_checkout_completed` creates
unfoldable pub new_subscription :
    ℕ → Option ℕ → ℕ → Status → ℕ → ℕ → Option ℕ → Option String → Subscription
new_subscription id tenant plan status start stop trial stripe = record {
  id = id;
  tenant_id = tenant;
  plan_id = plan;
  status = status;
  current_period_start = start;
  current_period_end = stop;
  trial_end = trial;
  cancel_at_period_end = false;
  pending_plan_id = none;
  canceled_at = none;
  stripe_subscription_id = stripe;
  failed_payment_count = 0;
  last_payment_failure_at = none;
  next_retry_at = none;
  suspended_at = none;
}

-- `db.add` of a new subscription
unfoldable pub add_subscription : Subscription → Tables → Tables
add_subscription s t = record t {
  subscriptions = t.subscriptions ++ s ∷ [];
  next_id = t.next_id + 1;
}

-- The end of `handle_checkout_completed`: no live subscription is in the way.
unfoldable pub create_from_checkout : Python → ℕ → ℕ → Plan → String → Json → M Outcome
unfolding checkout_terms new_subscription add_subscription
create_from_checkout py now tenant plan stripe_id stripe_sub = do
  terms ← lift (checkout_terms py now stripe_sub)
  t ← tables
  let s =
      new_subscription t.next_id (some tenant) plan.id terms.0 terms.1 terms.2 terms.3
        (some stripe_id)
  write (add_subscription s)
  commit
  pure created

-- The part of `handle_checkout_completed` behind the lookup of a live subscription
unfoldable pub link_or_create :
    Python → ℕ → ℕ → Plan → String → Json → Option Subscription → M Outcome
unfolding create_from_checkout
link_or_create py now tenant plan stripe_id stripe_sub none =
    create_from_checkout py now tenant plan stripe_id stripe_sub
link_or_create py now tenant plan stripe_id stripe_sub (some live) =
    elim live.stripe_subscription_id [
      | none ↦
          save_subscription (record live { stripe_subscription_id = some stripe_id })
          >> (commit >> pure linked)
      | some other ↦ pure duplicate
    ]

-- `handle_checkout_completed` once its three fields are read; `int` may raise.
unfoldable pub checkout_fields : Python → ℕ → Json → Json → String → Json → M Outcome
unfolding link_or_create
checkout_fields py now tenant_raw plan_raw stripe_id stripe_sub = do
  tenant ← or_raise (py.int_of (to_text py tenant_raw)) value_error
  plan_id ← or_raise (py.int_of (to_text py plan_raw)) value_error
  t ← tables
  elim (get_plan t plan_id) [
    | none ↦ pure skipped
    | some plan ↦
        link_or_create py now tenant plan stripe_id stripe_sub (get_live_for_tenant t (some tenant))
  ]

abbrev pub is_null : Json → Bool
is_null null = true
is_null _ = false

abbrev pub dict_or_empty : Json → Fields
dict_or_empty v = elim (as_dict v) [ some fs ↦ fs | none ↦ end ]

-- `handle_checkout_completed`
unfoldable pub handle_checkout_completed : Python → ℕ → Fields → M Outcome
unfolding checkout_fields
handle_checkout_completed py now session =
    let metadata = dict_or_empty (get "metadata" session) in
    let tenant_raw = or_json (get "tenant_id" metadata) (get "client_reference_id" session) in
    let plan_raw = get "plan_id" metadata in
    elim (as_text (get "subscription" session)) [
      | none ↦ pure skipped
      | some id ↦
          if is_null tenant_raw || is_null plan_raw
          then pure skipped
          else checkout_fields py now tenant_raw plan_raw id
              (get "stripe_subscription_object" session)
    ]
