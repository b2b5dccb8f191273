-- ===== src/Webhooks/Delivery/Backoff.antt =====
-- The retry delays, and that what is recorded agrees with what the queue is told.
use async_fastapi_template.Prelude.{ℕ, suc, ◌+◌, ◌*◌, ◌/◌, ◌^◌, ◌≤◌, ◌≡◌, min, some, arith}
use native.Mathlib.Nat.{pow-suc, div-mul-le_self}
use async_fastapi_template.Webhooks.Delivery.{
  Settings, compute_backoff, retrying, Reply, http_error, other_error, response, Delivery, Webhook,
  retry, perform_delivery, deliver_webhook,
}

pow_step : (n : ℕ) → 2 ^ n ≤ 2 ^ suc n
pow_step n = rw pow-suc (omega arith)

scaled_step : (b n : ℕ) → b * 2 ^ n ≤ b * 2 ^ suc n
scaled_step b n = grind (arith, pow_step n)

div_mono : (a b c : ℕ) → 1 ≤ c → a ≤ b → a / c ≤ b / c
div_mono a b c h k = grind arith

-- With a positive scale, the delays never shrink from one attempt to the next and never pass the
-- configured maximum.
pub compute_backoff_bounds :
    (c : Settings) (n : ℕ)
    → 1 ≤ c.scale
    → (compute_backoff c n ≤ compute_backoff c (suc n))
      × (compute_backoff c n * c.scale ≤ c.backoff_max)
unfolding compute_backoff
compute_backoff_bounds c n h = (
  div_mono _ _ (2 * c.scale) (omega arith) (omega (arith, scaled_step c.backoff_base n)),
  omega (arith, div-mul-le_self (min (c.backoff_base * 2 ^ n) (2 * c.backoff_max)) (2 * c.scale)),
)

-- Whenever the task asks the queue for a retry, the recorded row says so too: it is retrying, one
-- more attempt is counted, and its next retry is exactly the countdown of the queue from now; the
-- failure count of the webhook stays.
pub retry_agrees :
    (c : Settings) (now : ℕ) (reply : Reply) (d : Delivery) (h : Webhook) (delay : ℕ)
    → (deliver_webhook c now reply (some (d, h))).0 ≡ retry delay
    → let (d', h') = (perform_delivery c now reply (d, h)).1 in
      ((deliver_webhook c now reply (some (d, h))).1 ≡ some (d', h'))
      × (d'.status ≡ retrying)
      × (d'.attempt ≡ d.attempt + 1)
      × (d'.next_retry_at ≡ some (now + delay))
      × (h'.failure_count ≡ h.failure_count)
unfolding deliver_webhook
retry_agrees c now http_error d h delay e = ground arith
retry_agrees c now other_error d h delay e = ground arith
retry_agrees c now (response status) d h delay e = ground arith
