-- ===== src/Billing/Dunning/Schedule.antt =====
-- The retry schedule: the length of its delays, and what each operation does to a subscription.
use async_fastapi_template.Prelude.{
  ℕ, zero, suc, ◌+◌, ◌-◌, ◌*◌, ◌^◌, ◌≤◌, min, ◌≡◌, refl, false, none, arith,
}
use native.Mathlib.Nat.{pow-suc}
use async_fastapi_template.Billing.Model.{Subscription, past_due, active}
use async_fastapi_template.Billing.Dunning.{
  Config, backoff_minutes, backoff_delay, fail_payment, remind_row, recovered_row, is_due,
  is_dunning,
}

pow_pos : (n : ℕ) → 1 ≤ 2 ^ n
pow_pos zero = omega arith
pow_pos (suc n) = rw pow-suc (omega (arith, pow_pos n))

scaled_pos : (base n : ℕ) → 1 ≤ base → 1 ≤ base * 2 ^ n
scaled_pos base n h = grind (arith, pow_pos n)

scaled-suc : (base n : ℕ) → base * 2 ^ suc n ≡ 2 * (base * 2 ^ n)
scaled-suc base n = rw pow-suc (omega arith)

-- The delay at a positive attempt, without the truncated subtraction.
backoff_at : (base m n : ℕ) → m ≡ suc n → backoff_minutes base m ≡ min (base * 2 ^ n) 10080
unfolding backoff_minutes
backoff_at base m n e = let k : m - 1 ≡ n = omega arith in rw k

backoff_zero : (base : ℕ) → backoff_minutes base 0 ≡ min (base * 2 ^ 0) 10080
unfolding backoff_minutes
backoff_zero base = refl

-- The delays grow with the attempts and never pass seven days; with a base of a minute or more
-- none of them is zero, and as long as the cap is not reached each is twice the one before.
pub backoff_minutes_bounds :
    (base attempt : ℕ)
    → 1 ≤ base
    → (1 ≤ backoff_minutes base attempt)
      × (backoff_minutes base attempt ≤ 10080)
      × (backoff_minutes base attempt ≤ backoff_minutes base (attempt + 1))
      × (backoff_minutes base (attempt + 2) ≡ min (2 * backoff_minutes base (attempt + 1)) 10080)
backoff_minutes_bounds base zero h = omega (
  arith,
  backoff_zero base,
  backoff_at base 1 0 refl,
  backoff_at base 2 1 refl,
  scaled-suc base 0,
  scaled_pos base 0 h,
)
backoff_minutes_bounds base (suc n) h = omega (
  arith,
  backoff_at base (suc n) n refl,
  backoff_at base (suc n + 1) (suc n) (omega arith),
  backoff_at base (suc n + 2) (suc (suc n)) (omega arith),
  scaled-suc base n,
  scaled-suc base (suc n),
  scaled_pos base n h,
)

-- With a base delay of a minute or more, neither a recorded failure nor a reminder leaves the
-- subscription due at the time of the operation: the next retry is strictly later.
pub rescheduled_not_due :
    (c : Config) (now : ℕ) (s : Subscription)
    → 1 ≤ c.base_delay_minutes
    → (is_due now (fail_payment c now s) ≡ false) × (is_due now (remind_row c now s) ≡ false)
unfolding is_due fail_payment remind_row backoff_delay
rescheduled_not_due c now s h =
    ground (arith, backoff_minutes_bounds c.base_delay_minutes (s.failed_payment_count + 1))

-- Recovery makes a past-due subscription active and leaves no trace of dunning.
pub recovered_row_clears :
    (s : Subscription)
    → s.status ≡ past_due
    → let r = (recovered_row s).0 in
      (r.status ≡ active)
      × (r.failed_payment_count ≡ 0)
      × (r.next_retry_at ≡ none)
      × (r.last_payment_failure_at ≡ none)
      × (is_dunning r ≡ false)
unfolding recovered_row is_dunning
recovered_row_clears s h = ground arith
