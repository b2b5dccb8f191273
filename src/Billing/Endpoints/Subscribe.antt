-- ===== src/Billing/Endpoints/Subscribe.antt =====
-- `subscribe` and the rule that a tenant has at most one live subscription.
use async_fastapi_template.Prelude.{
  ℕ, ◌≡◌, refl, inl, inr, true, false, Option, none, some, List, [], ◌∷◌, any, arith, Option-cases,
}
use async_fastapi_template.Billing.Model.{Plan, Subscription, is_live}
use async_fastapi_template.Billing.Session.{
  Tables, World, Bus, User, succeeded, integrity, live_clash, stripe_clash, get_plan,
  get_live_for_tenant,
}
use async_fastapi_template.Billing.Session.Unique.{any-find_last-none, unique-append}
use async_fastapi_template.Billing.Stripe.{add_subscription}
use async_fastapi_template.Billing.Endpoints.{subscribe, subscribed}

subscribed_facts :
    (id now : ℕ) (tenant : Option ℕ) (plan : Plan)
    → let s = subscribed id now tenant plan in
      (s.tenant_id ≡ tenant) × (s.stripe_subscription_id ≡ none) × (is_live s ≡ true)
unfolding subscribed
subscribed_facts id now tenant plan = ground arith

any_stripe_none :
    (s : Subscription) (rows : List Subscription)
    → s.stripe_subscription_id ≡ none
    → any (λ r. stripe_clash r s) rows ≡ false
any_stripe_none s [] h = refl
any_stripe_none s (r ∷ rows) h = ground (arith, any_stripe_none s rows h)

add_subscription-integrity :
    (t : Tables) (s : Subscription)
    → integrity t ≡ true
    → get_live_for_tenant t s.tenant_id ≡ none
    → s.stripe_subscription_id ≡ none
    → integrity (add_subscription s t) ≡ true
unfolding integrity add_subscription
add_subscription-integrity t s h free new =
    let clear : any (λ r. live_clash r s) t.subscriptions ≡ false =
      any-find_last-none _ (λ r. live_clash r s) t.subscriptions (λ x k. ground arith) free in
    ground (
      arith,
      unique-append live_clash s t.subscriptions,
      any_stripe_none s t.subscriptions,
      unique-append stripe_clash s t.subscriptions,
    )

-- From a session that satisfies the unique indexes: a member of a tenant without a live
-- subscription subscribes to an active plan; the row is stored as a live one and the unique
-- indexes hold, whether or not the bus takes the event.
pub subscribe_stores :
    (now : ℕ) (bus : Bus) (u : User) (plan_id tenant : ℕ) (plan : Plan) (w : World)
    → integrity w.session ≡ true
    → u.tenant_id ≡ some tenant
    → get_plan w.session plan_id ≡ some plan
    → plan.is_active ≡ true
    → get_live_for_tenant w.session (some tenant) ≡ none
    → let s = subscribed w.session.next_id now (some tenant) plan in
      ((subscribe now bus u plan_id w).1.stored ≡ add_subscription s w.session)
      × (integrity (add_subscription s w.session) ≡ true)
      × (is_live s ≡ true)
unfolding subscribe
subscribe_stores now bus u plan_id tenant plan w h t p a free =
    let s = subscribed w.session.next_id now (some tenant) plan in
    let (f, g, live) = subscribed_facts w.session.next_id now (some tenant) plan in
    let whole : integrity (add_subscription s w.session) ≡ true =
      add_subscription-integrity w.session s h (rw f free) g in
    (ground (arith, whole), whole, live)

-- Where the tenant has a live subscription, `subscribe` never succeeds and stores nothing.
pub subscribe_refuses :
    (now : ℕ) (bus : Bus) (u : User) (plan_id : ℕ) (live : Subscription) (w : World)
    → get_live_for_tenant w.session u.tenant_id ≡ some live
    → (succeeded (subscribe now bus u plan_id w).0 ≡ false)
      × ((subscribe now bus u plan_id w).1 ≡ w)
unfolding subscribe
subscribe_refuses now bus u plan_id live w h = elim (Option-cases (get_plan w.session plan_id)) [
  | inl gone ↦ ground arith
  | inr (plan, found) ↦ ground arith
]
