-- ===== src/Billing/Stripe/Sync.antt =====
-- The status that a Stripe event gives to a local subscription.
use async_fastapi_template.Prelude.{ℕ, ◌+◌, ◌≤◌, ◌≡◌, ◌≢◌, ◌⊎◌, true, false, none, some, arith}
use async_fastapi_template.Billing.Model.{
  Status, trialing, canceled, suspended, Subscription, is_live, is_live_status, status_eq,
}
use async_fastapi_template.Billing.Status.{allowed, ◌⟶◌, allowed-⟶, dead-⟶}
use async_fastapi_template.Billing.Session.{World, ok, err, conflict, integrity, put_subscription}
use async_fastapi_template.Billing.Json.{str, Fields, set_field, get-set_field, Python, to_text}
use async_fastapi_template.Billing.Stripe.{
  synced, period_from_stripe, status_from_stripe, sync_row, sync_known,
}

-- The period that is read from an event is never empty, whatever the event says.
pub period_from_stripe_nonempty :
    (now : ℕ) (fs : Fields)
    → (period_from_stripe now fs).0 + 60000000 ≤ (period_from_stripe now fs).1
unfolding period_from_stripe
period_from_stripe_nonempty now fs = ground arith

-- Stripe has no status that the map takes to `suspended`.
not_suspended : (py : Python) (now : ℕ) (fs : Fields) → status_from_stripe py now fs ≢ ok suspended
unfolding status_from_stripe
not_suspended py now fs = ground arith

sync_row-status :
    (now : ℕ) (target : Status) (p : ℕ × ℕ) (s : Subscription)
    → (sync_row now target p s).status ≡ target
unfolding sync_row
sync_row-status now target p s = ground arith

-- What a sync that reports `synced` has stored: the subscription with the new status and period.
-- Its status moved along the documented diagram, unless the event says `trialing`.
pub sync_known_synced :
    (py : Python) (now : ℕ) (fs : Fields) (s : Subscription) (w : World) (target : Status)
    → status_from_stripe py now fs ≡ ok target
    → (sync_known py now fs s w).0 ≡ ok synced
    → ((target ≡ trialing) ⊎ (s.status ⟶ target))
      × ((sync_known py now fs s w).1.stored.subscriptions
          ≡ put_subscription
              (sync_row now target (period_from_stripe now fs) s)
              w.session.subscriptions)
unfolding sync_known
sync_known_synced py now fs s w target t h = ground (
  arith,
  not_suspended py now fs,
  allowed-⟶ s.status target,
  sync_row-status now target (period_from_stripe now fs) s,
)

-- An event that says `trialing` overwrites also a terminal status: if the unique indexes admit
-- the new row, a canceled or suspended subscription is stored as trialing again, against the
-- documented diagram, which has no transition out of these states.
pub sync_known_revives :
    (py : Python) (now : ℕ) (fs : Fields) (s : Subscription) (w : World)
    → status_from_stripe py now fs ≡ ok trialing
    → is_live s ≡ false
    → integrity (record (w.session) {
      subscriptions =
          put_subscription
            (sync_row now trialing (period_from_stripe now fs) s)
            w.session.subscriptions;
    })
      ≡ true
    → let s' = sync_row now trialing (period_from_stripe now fs) s in
      let t = record (w.session) { subscriptions = put_subscription s' w.session.subscriptions } in
      (sync_known py now fs s w ≡ (ok synced, record w { stored = t; session = t }))
      × (s'.status ≡ trialing)
      × ¬ (s.status ⟶ s'.status)
unfolding sync_known
sync_known_revives py now fs s w t dead i = ground (
  arith,
  dead-⟶ {s = s.status} {t = trialing},
  sync_row-status now trialing (period_from_stripe now fs) s,
)

live_canceled :
    (s : Status)
    → is_live_status s ≡ true
    → (allowed s canceled ≡ true) × (status_eq canceled s ≡ false)
unfolding allowed
live_canceled s h = ground arith

-- The event of a deletion reads as canceled, whatever status the payload carries.
pub status-deleted :
    (py : Python) (now : ℕ) (fs : Fields)
    → status_from_stripe py now (set_field "status" (str "canceled") fs) ≡ ok canceled
unfolding status_from_stripe to_text
status-deleted py now fs = rw (get-set_field "status" (str "canceled") (str "") fs)

-- A deletion event for a live subscription cancels it: the row is stored as canceled now, with no
-- scheduled cancellation or plan change left, or the unique indexes refuse the write, which is
-- reported as a conflict and changes nothing that is stored.
pub sync_known_cancels :
    (py : Python) (now : ℕ) (fs : Fields) (s : Subscription) (w : World)
    → is_live s ≡ true
    → let deleted = set_field "status" (str "canceled") fs in
      let (start, stop) = period_from_stripe now deleted in
      let s' = record s {
        status = canceled;
        current_period_start = start;
        current_period_end = stop;
        canceled_at = some now;
        cancel_at_period_end = false;
        pending_plan_id = none;
      } in
      let (r, w') = sync_known py now deleted s w in
      ((r ≡ ok synced) × (w'.stored.subscriptions ≡ put_subscription s' w.session.subscriptions))
      ⊎ ((r ≡ err conflict) × (w'.stored ≡ w.stored))
unfolding sync_known sync_row
sync_known_cancels py now fs s w live =
    ground (arith, status-deleted py now fs, live_canceled s.status live)
