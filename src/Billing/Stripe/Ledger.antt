-- ===== src/Billing/Stripe/Ledger.antt =====
-- No call of the handlers takes an event out of the idempotency ledger.
use text.Mathlib.Text.{◌==◌ as str_eq}
use async_fastapi_template.Prelude.{
  ℕ, String, ◌≡◌, refl, Bool, true, false, Option, none, some, arith, find, is_some, inl, inr,
  if◌then◌else◌,
}
use async_fastapi_template.Billing.Model.{
  Plan, Subscription, StripeEvent, Status, trialing, active, past_due, canceled, suspended,
  status_eq,
}
use async_fastapi_template.Billing.Session.{
  Tables, World, Bus, Suffix, ◌>>◌, get_plan, get_live_for_tenant, value_error, type_error,
  payment_failed, get_subscription_by_stripe_id, Error, or_raise, Result, Result-cases, ok, M,
  ◌>>=◌, pure, commit, write, tables, save_subscription, put_subscription,
}
use async_fastapi_template.Billing.Json.{
  Json, Fields, Python, to_text, get_or, str, set_field, as_dict, as_text, get,
}
use async_fastapi_template.Billing.Dunning.{
  now_or, fail_payment, Config, assert_transition, record_payment_failure, publish_to_recipients,
}
use async_fastapi_template.Billing.Dunning.Publish.{publish_to_recipients-tables}
use async_fastapi_template.Billing.Invoicing.{commit_or_conflict}
use async_fastapi_template.Billing.Stripe.{
  checkout_terms, new_subscription, add_subscription, created, linked, ignored, status_from_stripe,
  sync_row, period_from_stripe, unchanged, synced, unknown, skipped, went_past_due, assert_sync,
  duplicate, handle_checkout_completed, handle_subscription_sync, handle_payment_failed, dispatch,
  sync_known, fail_known, create_from_checkout, link_or_create, checkout_fields,
}

-- The ledger has a row for the event.
abbrev pub seen : String → Tables → Bool
seen id t = is_some (find (λ (e : StripeEvent). str_eq e.event_id id) t.stripe_events)

-- The event is in the ledger, on disk and in the session.
abbrev pub IsRecorded : String → World → Type 0
IsRecorded id w = (seen id w.stored ≡ true) × (seen id w.session ≡ true)

-- The call does not take an event out of the ledger, however it ends.
pub record Keeps (id : String) {A : Type 0} (m : M A) : Type 0 where
  pub run : (w : World) → IsRecorded id w → IsRecorded id (m w).1

module _ (id : String) where
  pub keep-bind :
      {A B : Type 0} (m : M A) (f : A → M B)
      → Keeps id m
      → ((a : A) → Keeps id (f a))
      → Keeps id (m >>= f)
  keep-bind m f km kf = record {
    run = λ w h. elim (Result-cases (m w).0) [
      | inl (a, e) ↦ rw (e, ◌>>=◌) ((kf a).run (m w).1 (km.run w h))
      | inr (x, e) ↦ rw (e, ◌>>=◌) (km.run w h)
    ];
  }

  pub keep-result : {A : Type 0} (r : Result A) → Keeps id (λ w. (r, w))
  keep-result r = record { run = λ w h. h }

  pub keep-tables : Keeps id tables
  keep-tables = record { run = λ w h. h }

  pub keep-commit : Keeps id commit
  keep-commit = record { run = λ w h. ground arith }

  pub keep-commit_or_conflict : Keeps id commit_or_conflict
  keep-commit_or_conflict = record { run = λ w h. ground arith }

  pub keep-write :
      (f : Tables → Tables)
      → ((t : Tables) → (f t).stripe_events ≡ t.stripe_events)
      → Keeps id (write f)
  keep-write f e = record { run = λ w h. (h.0, rw (e w.session) h.1) }

  pub keep-save : (s : Subscription) → Keeps id (save_subscription s)
  keep-save s =
      keep-write (λ t. record t { subscriptions = put_subscription s t.subscriptions }) (λ t. refl)

  pub keep-if :
      {A : Type 0} (b : Bool) (m k : M A) → Keeps id m → Keeps id k → Keeps id (if b then m else k)
  keep-if true m k km kk = km
  keep-if false m k km kk = kk

  pub keep-or_raise : {A : Type 0} (o : Option A) (e : Error) → Keeps id (or_raise o e)
  keep-or_raise none e = record { run = λ w h. h }
  keep-or_raise (some a) e = record { run = λ w h. h }

  pub keep-publish :
      (bus : Option Bus) (x : Suffix) (s : Subscription) → Keeps id (publish_to_recipients bus x s)
  keep-publish bus x s = record {
    run = λ w h. let (a, b) = publish_to_recipients-tables bus x s w in (rw a h.0, rw b h.1);
  }

  pub keep-assert_transition : (a b : Status) → Keeps id (assert_transition a b)
  unfolding assert_transition
  keep-assert_transition a b = keep-result _

  pub keep-record_payment_failure :
      (c : Config) (bus : Option Bus) (o : Option ℕ) (s : Subscription)
      → Keeps id (record_payment_failure c bus o s)
  unfolding record_payment_failure
  keep-record_payment_failure c bus o s =
      let s' = fail_payment c (now_or o c.clock) s in
      keep-bind _ _
        (keep-if (status_eq s.status past_due) _ _ (keep-result (ok tt))
          (keep-assert_transition s.status past_due))
        λ _.
          keep-bind _ _ (keep-save s')
            λ _. keep-bind _ _ (keep-publish bus payment_failed s') λ _. keep-result (ok s')

  pub keep-assert_sync : (a b : Status) → Keeps id (assert_sync a b)
  unfolding assert_sync
  keep-assert_sync a trialing = keep-result _
  keep-assert_sync a active = keep-assert_transition a active
  keep-assert_sync a past_due = keep-assert_transition a past_due
  keep-assert_sync a canceled = keep-assert_transition a canceled
  keep-assert_sync a suspended = keep-result _

  pub keep-sync_known :
      (py : Python) (now : ℕ) (fs : Fields) (s : Subscription) → Keeps id (sync_known py now fs s)
  unfolding sync_known assert_sync
  keep-sync_known py now fs s = keep-bind _ _ (keep-result (status_from_stripe py now fs)) λ target.
      keep-if (status_eq target s.status) _ _ (keep-result (ok unchanged)) (
        keep-bind _ _ (keep-assert_sync s.status target) λ _.
          keep-bind _ _ (keep-save (sync_row now target (period_from_stripe now fs) s))
            λ _. keep-bind _ _ keep-commit_or_conflict λ _. keep-result (ok synced))

  pub keep-option :
      {A B : Type 0} (o : Option A) (m : M B) (f : A → M B)
      → Keeps id m
      → ((a : A) → Keeps id (f a))
      → Keeps id {A = B} (λ w. elim o [ none ↦ m w | some a ↦ f a w ])
  keep-option none m f km kf = km
  keep-option (some a) m f km kf = kf a

  pub keep-case :
      {A B : Type 0} (o : Option A) (m : M B) (f : A → M B)
      → Keeps id m
      → ((a : A) → Keeps id (f a))
      → Keeps id {A = B} (elim o [ none ↦ m | some a ↦ f a ])
  keep-case none m f km kf = km
  keep-case (some a) m f km kf = kf a

  pub keep-sync :
      (py : Python) (now : ℕ) (fs : Fields) → Keeps id (handle_subscription_sync py now fs)
  unfolding handle_subscription_sync
  keep-sync py now fs = record {
    run = λ w h.
        (keep-option
            (get_subscription_by_stripe_id w.session (to_text py (get_or "id" (str "") fs)))
            (λ w. (ok unknown, w)) (sync_known py now fs) (keep-result (ok unknown))
            (keep-sync_known py now fs)).run
          w h;
  }

  pub keep-fail_known :
      (c : Config) (bus : Option Bus) (s : Subscription) → Keeps id (fail_known c bus s)
  unfolding fail_known
  keep-fail_known c bus s =
      keep-bind _ _ (keep-record_payment_failure c bus none s)
        λ _. keep-bind _ _ keep-commit λ _. keep-result (ok went_past_due)

  pub keep-payment_failed :
      (c : Config) (bus : Option Bus) (fs : Fields) → Keeps id (handle_payment_failed c bus fs)
  unfolding handle_payment_failed
  keep-payment_failed c bus fs =
      keep-option (as_text (get "subscription" fs)) (λ w. (ok skipped, w)) _
        (keep-result (ok skipped))
        λ sid. record {
          run = λ w h.
              (keep-option (get_subscription_by_stripe_id w.session sid) (λ w. (ok unknown, w))
                  (fail_known c bus) (keep-result (ok unknown)) (keep-fail_known c bus)).run
                w h;
        }

  pub keep-add : (s : Subscription) → Keeps id (write (add_subscription s))
  unfolding add_subscription
  keep-add s = record { run = λ w h. h }

  pub keep-create :
      (py : Python) (now tenant : ℕ) (plan : Plan) (stripe_id : String) (stripe_sub : Json)
      → Keeps id (create_from_checkout py now tenant plan stripe_id stripe_sub)
  unfolding create_from_checkout
  keep-create py now tenant plan stripe_id stripe_sub =
      keep-bind _ _ (keep-result (checkout_terms py now stripe_sub)) λ terms.
        keep-bind tables _ keep-tables λ t.
          keep-bind _ _
            (keep-add (
              new_subscription t.next_id (some tenant) plan.id terms.0 terms.1 terms.2 terms.3
                (some stripe_id)))
            λ _. keep-bind _ _ keep-commit λ _. keep-result (ok created)

  pub keep-link_or_create :
      (py : Python) (now tenant : ℕ) (plan : Plan) (stripe_id : String) (stripe_sub : Json)
      (o : Option Subscription)
      → Keeps id (link_or_create py now tenant plan stripe_id stripe_sub o)
  unfolding link_or_create
  keep-link_or_create py now tenant plan stripe_id stripe_sub none =
      keep-create py now tenant plan stripe_id stripe_sub
  keep-link_or_create py now tenant plan stripe_id stripe_sub (some live) =
      keep-case live.stripe_subscription_id
        (save_subscription (record live { stripe_subscription_id = some stripe_id })
          >> (commit >> pure linked))
        (λ _. pure duplicate)
        (keep-bind _ _ (keep-save (record live { stripe_subscription_id = some stripe_id }))
          λ _. keep-bind _ _ keep-commit λ _. keep-result (ok linked))
        (λ _. keep-result (ok duplicate))

  pub keep-checkout_fields :
      (py : Python) (now : ℕ) (a b : Json) (stripe_id : String) (stripe_sub : Json)
      → Keeps id (checkout_fields py now a b stripe_id stripe_sub)
  unfolding checkout_fields
  keep-checkout_fields py now a b stripe_id stripe_sub =
      keep-bind _ _ (keep-or_raise (py.int_of (to_text py a)) value_error) λ tenant.
        keep-bind _ _ (keep-or_raise (py.int_of (to_text py b)) value_error) λ plan_id.
          keep-bind tables _ keep-tables λ t.
            keep-case (get_plan t plan_id) (pure skipped) _ (keep-result (ok skipped)) λ plan.
              keep-link_or_create py now tenant plan stripe_id stripe_sub
                (get_live_for_tenant t (some tenant))

  pub keep-checkout :
      (py : Python) (now : ℕ) (fs : Fields) → Keeps id (handle_checkout_completed py now fs)
  unfolding handle_checkout_completed
  keep-checkout py now fs =
      keep-case (as_text (get "subscription" fs)) (pure skipped) _ (keep-result (ok skipped))
        λ sid. keep-if _ _ _ (keep-result (ok skipped)) (keep-checkout_fields py now _ _ sid _)

  pub keep-dispatch :
      (py : Python) (c : Config) (bus : Option Bus) (kind : String) (v : Json)
      → Keeps id (dispatch py c bus kind v)
  unfolding dispatch
  keep-dispatch py c bus kind v =
      keep-if (str_eq kind "checkout.session.completed") _ _
        (keep-bind _ _ (keep-or_raise (as_dict v) type_error) (keep-checkout py c.clock))
        (keep-if (str_eq kind "customer.subscription.updated") _ _
          (keep-bind _ _ (keep-or_raise (as_dict v) type_error) (keep-sync py c.clock))
          (keep-if (str_eq kind "customer.subscription.deleted") _ _
            (keep-bind _ _ (keep-or_raise (as_dict v) type_error)
              (λ fs. keep-sync py c.clock (set_field "status" (str "canceled") fs)))
            (keep-if (str_eq kind "invoice.payment_failed") _ _
              (keep-bind _ _ (keep-or_raise (as_dict v) type_error) (keep-payment_failed c bus))
              (keep-result (ok ignored)))))
