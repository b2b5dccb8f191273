-- ===== src/Webhooks/Delivery.antt =====
-- app/notifications/tasks/webhook.py and the backoff of app/notifications/services/webhook.py: one
-- delivery, its attempts and the queue's retries. The HTTP exchange is a parameter: what the
-- endpoint answers to an attempt. Times are in seconds.
-- The two backoff settings are floats, so both are whole numbers of some fixed fraction 1/scale of
-- a second; the products by powers of two are exact, and `int` rounds down.
pub mod Backoff
pub mod Attempts
use async_fastapi_template.Prelude.{
  ℕ, zero, suc, ◌+◌, ◌-◌, ◌*◌, ◌/◌, ◌^◌, min, Bool, true, false, ◌&&◌, Option, none, some, List, [],
  ◌∷◌, ltb, leb, if◌then◌else◌,
}

-- The `WEBHOOK_…` settings
pub record Settings : Type 0 where
  pub max_retries : ℕ
  pub scale : ℕ
  pub backoff_base : ℕ
  pub backoff_max : ℕ

-- `compute_backoff`. The exponent `attempt - 1` is -1 at 0, so both sides are doubled.
unfoldable pub compute_backoff : Settings → ℕ → ℕ
compute_backoff c attempt = min (c.backoff_base * 2 ^ attempt) (2 * c.backoff_max) / (2 * c.scale)

-- `WebhookDelivery.status`
pub data Status : Type 0 where
  pending retrying delivered failed : Status

-- What `response` or the exception of `client.post` tells the task: an httpx.HTTPError or another
-- one
pub data Reply : Type 0 where
  http_error other_error : Reply
  response : ℕ → Reply

-- The error column: a text of the exception, `HTTP <status>` or "webhook disabled"
pub data Fault : Type 0 where
  transport disabled : Fault
  http_status : ℕ → Fault

pub record Delivery : Type 0 where
  pub attempt : ℕ
  pub max_attempts : ℕ
  pub status : Status
  pub error : Option Fault
  pub response_status : Option ℕ
  pub next_retry_at : Option ℕ
  pub delivered_at : Option ℕ

pub record Webhook : Type 0 where
  pub is_active : Bool
  pub failure_count : ℕ
  pub last_delivery_at : Option ℕ
  pub last_status : Option Status

-- The dictionary `outcome`
pub record Outcome : Type 0 where
  pub status : Status
  pub error : Option Fault
  pub response_status : Option ℕ
  pub next_retry_at : Option ℕ

-- `CRUDWebhook.create_delivery`, with the `max_attempts` of `handle_event`
unfoldable pub create_delivery : Settings → Delivery
create_delivery c = record {
  attempt = 0;
  max_attempts = c.max_retries + 1;
  status = pending;
  error = none;
  response_status = none;
  next_retry_at = none;
  delivered_at = none;
}

-- `_record_delivery_outcome`
unfoldable pub record_delivery_outcome : ℕ → ℕ → Outcome → Delivery × Webhook → Delivery × Webhook
record_delivery_outcome now attempt o (d, h) = (
  record d {
    attempt = attempt;
    status = o.status;
    error = o.error;
    response_status = o.response_status;
    next_retry_at = o.next_retry_at;
    delivered_at = elim o.status [ delivered ↦ some now | _ ↦ none ];
  },
  record h {
    failure_count = elim o.status [
      | delivered ↦ 0
      | failed ↦ h.failure_count + 1
      | _ ↦ h.failure_count
    ];
    last_delivery_at = some now;
    last_status = some o.status;
  },
)

-- The labels that `_perform_delivery` and `deliver_webhook` return; an exception is label_raised,
-- and `retry` raises the queue's retry, with its countdown.
pub data Label : Type 0 where
  label_delivered label_failed label_disabled already_delivered not_found label_raised : Label
  retry : ℕ → Label

-- The outcome of an attempt that did not succeed
unfoldable pub failure_outcome : Settings → ℕ → ℕ → Delivery → Fault → Option ℕ → Outcome
unfolding compute_backoff
failure_outcome c now attempt d fault status = record {
  status = if ltb attempt d.max_attempts then retrying else failed;
  error = some fault;
  response_status = status;
  next_retry_at =
      if ltb attempt d.max_attempts then some (now + compute_backoff c attempt) else none;
}

unfoldable pub is_success : ℕ → Bool
is_success status = leb 200 status && ltb status 300

-- `_perform_delivery`: whether it asks for a retry, whether it delivered, and the recorded rows.
unfoldable pub perform_delivery :
    Settings → ℕ → Reply → Delivery × Webhook → Label × (Delivery × Webhook)
unfolding record_delivery_outcome failure_outcome is_success
perform_delivery c now http_error (d, h) =
    let attempt = d.attempt + 1 in
    (
      if ltb attempt d.max_attempts then retry (compute_backoff c attempt) else label_failed,
      record_delivery_outcome now attempt (failure_outcome c now attempt d transport none) (d, h),
    )
perform_delivery c now other_error (d, h) = (label_raised, (d, h))
perform_delivery c now (response status) (d, h) =
    let attempt = d.attempt + 1 in
    if is_success status
    then (
      label_delivered,
      record_delivery_outcome now attempt
          (record {
            status = delivered;
            error = none;
            response_status = some status;
            next_retry_at = none;
          })
          (d, h),
    )
    else (
      if ltb attempt d.max_attempts then retry (compute_backoff c attempt) else label_failed,
      record_delivery_outcome now attempt
          (failure_outcome c now attempt d (http_status status) (some status)) (d, h),
    )

abbrev pub is_delivered : Status → Bool
is_delivered delivered = true
is_delivered _ = false

-- `deliver_webhook`, from the row and the webhook that `get_delivery_with_webhook` finds. The retry
-- counts down from `compute_backoff(delivery.attempt + 1)`, of the row as it was loaded.
unfoldable pub deliver_webhook :
    Settings → ℕ → Reply → Option (Delivery × Webhook) → Label × Option (Delivery × Webhook)
unfolding perform_delivery record_delivery_outcome
deliver_webhook c now reply none = (not_found, none)
deliver_webhook c now reply (some (d, h)) =
    if is_delivered d.status
    then (already_delivered, some (d, h))
    else if h.is_active
    then (let (label, rows) = perform_delivery c now reply (d, h) in (label, some rows))
    else (
      label_disabled,
      some (
          record_delivery_outcome now d.attempt
            (record {
              status = failed;
              error = some disabled;
              response_status = none;
              next_retry_at = none;
            })
            (d, h)),
    )

-- The queue runs the task again as long as it asks for it and the retries so far are below the
-- `max_retries` that `self.retry` is given, beyond which it raises: each run at its time and with
-- the answer that the endpoint gives then. `none` for the label: the task waits for one more run.
unfoldable pub run_task :
    Settings
    → ℕ
    → List (ℕ × Reply)
    → Option (Delivery × Webhook)
    → Option Label × Option (Delivery × Webhook)
run_task c retries [] rows = (none, rows)
run_task c retries ((now, reply) ∷ runs) rows =
    let (label, rows') = deliver_webhook c now reply rows in
    let rest = run_task c (retries + 1) runs rows' in
    elim label [
      | retry delay ↦ if ltb retries c.max_retries then rest else (some label_raised, rows')
      | other ↦ (some other, rows')
    ]
