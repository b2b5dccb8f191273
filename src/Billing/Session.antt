-- ===== src/Billing/Session.antt =====
-- The database session that the billing services share (app/core/database.py hands it out), the
-- event bus of app/events/base.py, and the monad of a service call: state and exceptions.
-- Attribute writes and `db.add` change the session; `commit` makes it durable if the unique
-- indexes of app/billing/models hold; what is not committed is lost when the session closes.
pub mod Unique
pub mod Rows
use text.Mathlib.Text.{◌==◌ as str_eq}
use async_fastapi_template.Prelude.{
  ℕ, String, ◌+◌, ◌≡◌, refl, ◌⊎◌, inl, inr, Bool, true, false, not, ◌&&◌, ◌||◌, Option, none, some,
  List, [], ◌∷◌, ◌++◌, ◌==◌, if◌then◌else◌, any, find, find_last, opt_eq, is_some, arith,
}
use async_fastapi_template.Billing.Model.{
  Status, Plan, Subscription, is_live, Invoice, is_blocking, StripeEvent,
}

-- Two optional texts: `none` equals `none`.
abbrev pub text_eq : Option String → Option String → Bool
text_eq none none = true
text_eq none (some b) = false
text_eq (some a) none = false
text_eq (some a) (some b) = str_eq a b

abbrev pub ⊤ : Type 0
⊤ = Unit

-- The columns of `User` that the billing code reads.
pub record User : Type 0 where
  pub id : ℕ
  pub tenant_id : Option ℕ
  pub is_active : Bool
  pub is_superuser : Bool

-- Each table in the order of its ids, as the queries return it. `next_id` is the sequence.
pub record Tables : Type 0 where
  pub plans : List Plan
  pub subscriptions : List Subscription
  pub invoices : List Invoice
  pub stripe_events : List StripeEvent
  pub users : List User
  pub next_id : ℕ

-- What an event of the billing services is about.
pub data Subject : Type 0 where
  subscription dunning invoice : Subject

pub data Suffix : Type 0 where
  trial_started started plan_changed canceled cancel_scheduled resumed : Suffix
  payment_failed payment_reminder suspended recovered : Suffix
  generated issued paid voided : Suffix

-- `Event`: its type, the id of the row in its payload and its recipient.
pub record Event : Type 0 where
  pub subject : Subject
  pub suffix : Suffix
  pub row_id : ℕ
  pub user_id : Option ℕ

-- An implementation of `EventBus`: the events whose `publish` does not raise.
pub record Bus : Type 0 where
  pub accepts : Event → Bool

pub record World : Type 0 where
  pub stored : Tables
  pub session : Tables
  pub outbox : List Event

pub data Error : Type 0 where
  not_found forbidden conflict bad_request value_error rate_limited : Error
  illegal_transition illegal_invoice_transition integrity_error publish_error type_error : Error

pub data Result (A : Type 0) : Type 0 where
  ok : A → Result A
  err : Error → Result A

abbrev pub M : Type 0 → Type 0
M A = World → Result A × World

module _ {A : Type 0} where
  abbrev pub pure : A → M A
  pure a w = (ok a, w)

  abbrev pub raise : Error → M A
  raise e w = (err e, w)

  abbrev pub or_raise : Option A → Error → M A
  or_raise none e = raise e
  or_raise (some a) e = pure a

abbrev pub succeeded : {A : Type 0} → Result A → Bool
succeeded (ok a) = true
succeeded (err e) = false

pub Result-cases :
    {A : Type 0} (r : Result A) → ((a : A) × (r ≡ ok a)) ⊎ ((e : Error) × (r ≡ err e))
Result-cases (ok a) = inl (a, refl)
Result-cases (err e) = inr (e, refl)

infixl 5 ◌>>=◌ ◌>>◌
abbrev pub ◌>>=◌ : {A B : Type 0} → M A → (A → M B) → M B
◌>>=◌ m f w = let (r, w') = m w in elim r [ ok a ↦ f a w' | err e ↦ (err e, w') ]

abbrev pub ◌>>◌ : {A B : Type 0} → M A → M B → M B
m >> k = m >>= λ _. k

abbrev pub raise_if : Bool → Error → M ⊤
raise_if c e w = (if c then err e else ok tt, w)

abbrev pub tables : M Tables
tables w = (ok w.session, w)

abbrev pub write : (Tables → Tables) → M ⊤
write f w = (ok tt, record w { session = f w.session })

-- No two rows of a table clash.
abbrev pub unique : {A : Type 0} → (A → A → Bool) → List A → Bool
unique clash [] = true
unique clash (x ∷ xs) = not (any (clash x) xs) && unique clash xs

-- An index ignores rows where its column is NULL.
abbrev pub same_key : Option ℕ → Option ℕ → Bool
same_key a b = is_some a && opt_eq a b

-- `uq_live_subscription_per_tenant`
abbrev pub live_clash : Subscription → Subscription → Bool
live_clash s t = is_live s && (is_live t && same_key s.tenant_id t.tenant_id)

-- `unique=True` of `stripe_subscription_id`
abbrev pub stripe_clash : Subscription → Subscription → Bool
stripe_clash s t =
    is_some s.stripe_subscription_id && text_eq s.stripe_subscription_id t.stripe_subscription_id

-- `uq_invoice_per_subscription_period`
abbrev pub period_clash : Invoice → Invoice → Bool
period_clash i j =
    is_blocking i.status
    && (is_blocking j.status
        && (i.subscription_id == j.subscription_id && i.period_start == j.period_start))

-- `unique=True` of `StripeEvent.event_id`
abbrev pub event_clash : StripeEvent → StripeEvent → Bool
event_clash e f = str_eq e.event_id f.event_id

unfoldable pub integrity : Tables → Bool
integrity t =
    unique live_clash t.subscriptions
    && (unique stripe_clash t.subscriptions
        && (unique period_clash t.invoices && unique event_clash t.stripe_events))

-- `await db.commit()`
abbrev pub commit : M ⊤
commit w = (
  if integrity w.session then ok tt else err integrity_error,
  record w { stored = if integrity w.session then w.session else w.stored },
)

-- `await db.rollback()`
abbrev pub rollback : M ⊤
rollback w = (ok tt, record w { session = w.stored })

-- The end of a request or task: `async with sessionmanager.writer_session()` closes the session.
abbrev pub close : {A : Type 0} → Result A × World → Result A × World
close (r, w) = (r, record w { session = w.stored })

-- Replaces the row that has the id of the new one: `UPDATE … WHERE id = …`.
abbrev pub put_subscription : Subscription → List Subscription → List Subscription
put_subscription s [] = []
put_subscription s (r ∷ rows) = (if r.id == s.id then s else r) ∷ put_subscription s rows

abbrev pub put_invoice : Invoice → List Invoice → List Invoice
put_invoice i [] = []
put_invoice i (r ∷ rows) = (if r.id == i.id then i else r) ∷ put_invoice i rows

-- Attribute writes on a row that the session holds, and `db.add`.
abbrev pub save_subscription : Subscription → M ⊤
save_subscription s = write λ t. record t { subscriptions = put_subscription s t.subscriptions }

abbrev pub save_invoice : Invoice → M ⊤
save_invoice i = write λ t. record t { invoices = put_invoice i t.invoices }

-- `bus.publish(event)`, on a bus that may raise.
abbrev pub publish : Bus → Event → M ⊤
publish bus e w = (
  if bus.accepts e then ok tt else err publish_error,
  record w { outbox = if bus.accepts e then w.outbox ++ e ∷ [] else w.outbox },
)

-- `CRUDPlan.get`
abbrev pub get_plan : Tables → ℕ → Option Plan
get_plan t id = find (λ (p : Plan). p.id == id) t.plans

-- `CRUDSubscription.get`, `db.get(Subscription, id)`
abbrev pub get_subscription : Tables → ℕ → Option Subscription
get_subscription t id = find (λ (s : Subscription). s.id == id) t.subscriptions

-- `CRUDSubscription.get_live_for_tenant`: the newest live row of the tenant.
abbrev pub get_live_for_tenant : Tables → Option ℕ → Option Subscription
get_live_for_tenant t tenant =
    find_last (λ (s : Subscription). opt_eq s.tenant_id tenant && is_live s) t.subscriptions

-- `get_subscription_by_stripe_id`
abbrev pub get_subscription_by_stripe_id : Tables → String → Option Subscription
get_subscription_by_stripe_id t id =
    find (λ (s : Subscription). text_eq s.stripe_subscription_id (some id)) t.subscriptions

-- `CRUDInvoice.get`
abbrev pub get_invoice : Tables → ℕ → Option Invoice
get_invoice t id = find (λ (i : Invoice). i.id == id) t.invoices

-- `CRUDInvoice.find_blocking_for_period`
abbrev pub find_blocking_for_period : Tables → ℕ → ℕ → Option Invoice
find_blocking_for_period t sub start =
    find
      (λ (i : Invoice).
        i.subscription_id == sub && (i.period_start == start && is_blocking i.status))
      t.invoices
