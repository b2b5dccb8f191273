-- ===== src/Billing/Endpoints/Cancel.antt =====
-- `cancel_subscription` and `resume_subscription`.
use async_fastapi_template.Prelude.{ℕ, ◌≡◌, refl, ap, ◌∙◌, true, false, ◌&&◌, some, opt_eq, arith}
use async_fastapi_template.Billing.Model.{
  Status, Subscription, is_live, is_live_status, trialing, canceled, status_eq,
}
use async_fastapi_template.Billing.Status.{allowed}
use async_fastapi_template.Billing.Session.{
  Tables, World, Bus, User, err, bad_request, integrity, get_live_for_tenant, put_subscription,
}
use async_fastapi_template.Billing.Session.Rows.{
  HasDistinctIds, Has, find_last-Has, find_last-put, put-put, put_self, put_subscription-integrity,
  Has-Covers,
}
use async_fastapi_template.Billing.Endpoints.{
  cancel_subscription, resume_subscription, canceled_row,
}

abbrev with_row : Tables → Subscription → Tables
with_row t s = record t { subscriptions = put_subscription s t.subscriptions }

live_cancelable : (s : Status) → is_live_status s ≡ true → allowed s canceled ≡ true
unfolding allowed
live_cancelable s h = ground arith

resume_stores :
    (u : User) (s : Subscription) (bus : Bus) (w : World)
    → get_live_for_tenant w.session u.tenant_id ≡ some s
    → s.cancel_at_period_end ≡ true
    → integrity (with_row w.session (record s { cancel_at_period_end = false })) ≡ true
    → (resume_subscription bus u w).1.stored
      ≡ with_row w.session (record s { cancel_at_period_end = false })
unfolding resume_subscription
resume_stores u s bus w current f kept = ground arith

module _ (u : User) (s : Subscription) (w : World) (whole : integrity w.session ≡ true)
    (distinct : HasDistinctIds w.session.subscriptions)
    (current : get_live_for_tenant w.session u.tenant_id ≡ some s) where
  found : Has s w.session.subscriptions × ((opt_eq s.tenant_id u.tenant_id && is_live s) ≡ true)
  found = find_last-Has _ s w.session.subscriptions current

  -- In a session that satisfies the unique indexes and has distinct subscription ids, an
  -- immediate cancellation of the tenant's live subscription is stored: canceled now, with no
  -- scheduled cancellation or plan change, and the unique indexes still hold.
  pub cancel_immediate :
      (now : ℕ) (bus : Bus)
      → ((cancel_subscription now bus u true w).1.stored ≡ with_row w.session (canceled_row now s))
        × (integrity (with_row w.session (canceled_row now s)) ≡ true)
  unfolding cancel_subscription canceled_row
  cancel_immediate now bus =
      let s' = canceled_row now s in
      let covers =
        Has-Covers s s' w.session.subscriptions distinct found.0 refl refl refl
          (λ h. absurd (cc)) in
      let kept : integrity (with_row w.session s') ≡ true =
        put_subscription-integrity s' w.session covers whole in
      (ground (arith, kept, live_cancelable s.status, found.1), kept)

  -- In a session that satisfies the unique indexes and has distinct subscription ids, a scheduled
  -- cancellation is refused to a live subscription in its trial, and changes nothing.
  pub cancel_trial :
      (now : ℕ) (bus : Bus)
      → s.status ≡ trialing
      → cancel_subscription now bus u false w ≡ (err bad_request, w)
  unfolding cancel_subscription
  cancel_trial now bus h = ground (arith, current)

  scheduled : Subscription
  scheduled = record s { cancel_at_period_end = true }

  schedule_stores :
      (now : ℕ) (bus : Bus)
      → status_eq s.status trialing ≡ false
      → let w' = (cancel_subscription now bus u false w).1 in
        (w'.stored ≡ with_row w.session scheduled) × (w'.session ≡ with_row w.session scheduled)
  unfolding cancel_subscription scheduled
  schedule_stores now bus h =
      let covers =
        Has-Covers s scheduled w.session.subscriptions distinct found.0 refl refl refl (λ k. k) in
      let kept = put_subscription-integrity scheduled w.session covers whole in
      ground (arith, kept, current)

  still_live : get_live_for_tenant (with_row w.session scheduled) u.tenant_id ≡ some scheduled
  unfolding scheduled
  still_live = find_last-put _ s scheduled w.session.subscriptions distinct refl found.1 current

  restored :
      s.cancel_at_period_end ≡ false
      → with_row (with_row w.session scheduled) (record scheduled { cancel_at_period_end = false })
        ≡ w.session
  unfolding scheduled
  restored f =
      let same : record s { cancel_at_period_end = false } ≡ s = ground arith in
      let rows : put_subscription (record s { cancel_at_period_end = false })
            (put_subscription scheduled w.session.subscriptions)
          ≡ w.session.subscriptions =
        put-put (record s { cancel_at_period_end = false }) scheduled w.session.subscriptions refl
        ∙ ap (λ x. put_subscription x w.session.subscriptions) same
        ∙ put_self s w.session.subscriptions distinct found.0 in
      ground (arith, rows)

  -- In a session that satisfies the unique indexes and has distinct subscription ids, a
  -- cancellation that is scheduled on the tenant's live subscription, which is no trial and has
  -- none scheduled, is stored; resuming it then leaves the stored tables as they were.
  pub cancel_resume :
      (now : ℕ) (bus bus' : Bus)
      → status_eq s.status trialing ≡ false
      → s.cancel_at_period_end ≡ false
      → let w' = (cancel_subscription now bus u false w).1 in
        let w'' = (resume_subscription bus' u w').1 in
        (w'.stored ≡ with_row w.session (record s { cancel_at_period_end = true }))
        × (w''.stored ≡ w.session)
  unfolding scheduled
  cancel_resume now bus bus' h f =
      let w' = (cancel_subscription now bus u false w).1 in
      let (stored, session) = schedule_stores now bus h in
      let back = restored f in
      let live : get_live_for_tenant w'.session u.tenant_id ≡ some scheduled =
        ap (λ t. get_live_for_tenant t u.tenant_id) session ∙ still_live in
      let row : with_row w'.session (record scheduled { cancel_at_period_end = false })
          ≡ w.session =
        ap (λ t. with_row t (record scheduled { cancel_at_period_end = false })) session ∙ back in
      (stored, resume_stores u scheduled bus' w' live refl (ap integrity row ∙ whole) ∙ row)
