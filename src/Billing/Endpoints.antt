-- ===== src/Billing/Endpoints.antt =====
-- app/billing/api/endpoints/subscriptions.py: the calls by which a tenant manages its subscription.
-- A call runs on the session of its request; the response body is the row that it returns.
pub mod Subscribe
pub mod Cancel
pub mod Invoices
use async_fastapi_template.Prelude.{
  ℕ, ◌+◌, ◌*◌, Bool, true, false, not, ◌&&◌, ◌||◌, Option, none, some, List, [], ◌∷◌, ltb, ◌==◌,
  if◌then◌else◌, is_some,
}
use async_fastapi_template.Billing.Model.{
  Status, trialing, active, canceled, status_eq, Metering, Plan, Subscription,
}
use async_fastapi_template.Billing.Status.{allowed}
use async_fastapi_template.Billing.Session.{
  ⊤, User, Tables, World, Bus, Subject, Suffix, Event, Error, Result, ok, err, not_found, conflict,
  bad_request, M, pure, raise, or_raise, ◌>>=◌, ◌>>◌, raise_if, tables, write, commit,
  save_subscription, publish, get_plan, get_live_for_tenant,
}
use async_fastapi_template.Billing.Stripe.{new_subscription, add_subscription, lift}
use async_fastapi_template.Billing.Proration.{
  Float, day, next_period_end, Preview, Decision, decide_plan_change,
}
use async_fastapi_template.Billing.Usage.{Redis, get_usage}

-- `_require_live_subscription`
unfoldable pub require_live_subscription : Option ℕ → M Subscription
require_live_subscription tenant = do t ← tables; or_raise (get_live_for_tenant t tenant) not_found

-- `_require_tenant`
unfoldable pub require_tenant : User → M (Option ℕ)
require_tenant u w =
    (if not (is_some u.tenant_id) && not u.is_superuser then err bad_request else ok u.tenant_id, w)

-- `_require_active_plan`
unfoldable pub require_active_plan : ℕ → M Plan
require_active_plan id = do
  t ← tables
  plan ← or_raise (get_plan t id) bad_request
  raise_if (not plan.is_active) bad_request
  pure plan

-- `subscription_event` of app/billing/services/billing.py
unfoldable pub subscription_event : Suffix → Subscription → ℕ → Event
subscription_event suffix s uid = record {
  subject = Subject.subscription;
  suffix = suffix;
  row_id = s.id;
  user_id = some uid;
}

-- The row that `subscribe` creates
unfoldable pub subscribed : ℕ → ℕ → Option ℕ → Plan → Subscription
unfolding next_period_end new_subscription
subscribed id now tenant plan =
    if ltb 0 plan.trial_days
    then new_subscription id tenant plan.id trialing now (next_period_end plan now)
        (some (now + day * plan.trial_days)) none
    else new_subscription id tenant plan.id active now (next_period_end plan now) none none

-- `subscribe`
unfoldable pub subscribe : ℕ → Bus → User → ℕ → M Subscription
unfolding require_tenant require_active_plan subscription_event
subscribe now bus u plan_id = do
  tenant ← require_tenant u
  plan ← require_active_plan plan_id
  t ← tables
  raise_if (is_some (get_live_for_tenant t tenant)) conflict
  let s = subscribed t.next_id now tenant plan
  write (add_subscription s)
  commit
  publish bus (
      subscription_event (if ltb 0 plan.trial_days then Suffix.trial_started else Suffix.started) s
        u.id)
  pure s

-- The attribute writes of `change_plan`, from the decision
unfoldable pub changed_row : ℕ → Plan → Decision → Subscription → Subscription
unfolding next_period_end
changed_row now new d s =
    if d.is_immediate && is_some d.preview
    then record s {
      plan_id = new.id;
      pending_plan_id = none;
      current_period_start = now;
      current_period_end = next_period_end new now;
    }
    else record s { pending_plan_id = some new.id }

abbrev pub bad_decision : Result Decision → Result Decision
bad_decision (ok d) = ok d
bad_decision (err e) = err bad_request

-- The `preview` and `applied_plan_id` of the response of `change_plan`
unfoldable pub change_response : Plan → Decision → Option Preview × Option ℕ
change_response new d =
    if d.is_immediate && is_some d.preview then (d.preview, none) else (none, some new.id)

-- `change_plan`
unfoldable pub change_plan :
    Float → ℕ → Bus → User → ℕ → M (Subscription × (Option Preview × Option ℕ))
unfolding require_live_subscription require_active_plan subscription_event
change_plan fl now bus u plan_id = do
  s ← require_live_subscription u.tenant_id
  new ← require_active_plan plan_id
  t ← tables
  current ← or_raise (get_plan t s.plan_id) not_found
  raise_if (new.id == current.id) bad_request
  d ← lift (bad_decision (decide_plan_change fl current new s now))
  let s' = changed_row now new d s
  save_subscription s'
  commit
  publish bus (subscription_event Suffix.plan_changed s' u.id)
  pure (s', change_response new d)

-- The attribute writes of an immediate cancellation
unfoldable pub canceled_row : ℕ → Subscription → Subscription
canceled_row now s = record s {
  status = canceled;
  canceled_at = some now;
  cancel_at_period_end = false;
  pending_plan_id = none;
}

-- `cancel_subscription`
unfoldable pub cancel_subscription : ℕ → Bus → User → Bool → M Subscription
unfolding require_live_subscription subscription_event canceled_row allowed
cancel_subscription now bus u immediate = do
  s ← require_live_subscription u.tenant_id
  (if immediate
      then (do
        raise_if (not (allowed s.status canceled)) conflict
        save_subscription (canceled_row now s)
        commit
        publish bus (subscription_event Suffix.canceled (canceled_row now s) u.id)
        pure (canceled_row now s))
      else (do
        raise_if (status_eq s.status trialing) bad_request
        let s' = record s { cancel_at_period_end = true }
        save_subscription s'
        commit
        publish bus (subscription_event Suffix.cancel_scheduled s' u.id)
        pure s'))

-- `resume_subscription`
unfoldable pub resume_subscription : Bus → User → M Subscription
unfolding require_live_subscription subscription_event
resume_subscription bus u = do
  s ← require_live_subscription u.tenant_id
  raise_if (not s.cancel_at_period_end) bad_request
  let s' = record s { cancel_at_period_end = false }
  save_subscription s'
  commit
  publish bus (subscription_event Suffix.resumed s' u.id)
  pure s'
