-- ===== src/Billing/Model.antt =====
-- The rows of `app/billing/models`, with the columns that the services read or write.
-- Row ids, tenant ids, currency codes and dimension names are only compared, so they are numbers.
-- A datetime is a number of microseconds since the epoch; money is in integer cents.
use async_fastapi_template.Prelude.{ℕ, String, Bool, true, false, Option, List}

-- `SubscriptionStatus`
pub data Status : Type 0 where
  trialing active past_due canceled suspended : Status

pub Status-discrete : Discrete Status
Status-discrete = hlevel

abbrev pub status_eq : Status → Status → Bool
status_eq trialing trialing = true
status_eq active active = true
status_eq past_due past_due = true
status_eq canceled canceled = true
status_eq suspended suspended = true
status_eq _ _ = false

-- `PlanInterval`
pub data Interval : Type 0 where
  monthly yearly : Interval

-- One dimension of `Plan.metering`, normalised.
pub record Metering : Type 0 where
  pub dimension : ℕ
  pub unit_amount_cents : ℕ
  pub included_quantity : ℕ

pub record Plan : Type 0 where
  pub id : ℕ
  pub price_cents : ℕ
  pub currency : ℕ
  pub interval : Interval
  pub trial_days : ℕ
  pub is_active : Bool
  pub metering : List Metering

pub record Subscription : Type 0 where
  pub id : ℕ
  pub tenant_id : Option ℕ
  pub plan_id : ℕ
  pub status : Status
  pub current_period_start : ℕ
  pub current_period_end : ℕ
  pub trial_end : Option ℕ
  pub cancel_at_period_end : Bool
  pub pending_plan_id : Option ℕ
  pub canceled_at : Option ℕ
  pub stripe_subscription_id : Option String
  pub failed_payment_count : ℕ
  pub last_payment_failure_at : Option ℕ
  pub next_retry_at : Option ℕ
  pub suspended_at : Option ℕ

-- `LIVE_STATUSES`, and `Subscription.is_live`
abbrev pub is_live_status : Status → Bool
is_live_status trialing = true
is_live_status active = true
is_live_status past_due = true
is_live_status canceled = false
is_live_status suspended = false

abbrev pub is_live : Subscription → Bool
is_live s = is_live_status s.status

-- `InvoiceStatus`
pub data InvoiceStatus : Type 0 where
  draft open_ paid void : InvoiceStatus

-- `BLOCKING_STATUSES`
abbrev pub is_blocking : InvoiceStatus → Bool
is_blocking draft = true
is_blocking open_ = true
is_blocking paid = true
is_blocking void = false

pub record InvoiceLine : Type 0 where
  pub quantity : ℕ
  pub unit_amount_cents : ℕ
  pub tax_rate_bps : ℕ
  pub amount_cents : ℕ

pub record Invoice : Type 0 where
  pub id : ℕ
  pub tenant_id : Option ℕ
  pub subscription_id : ℕ
  pub status : InvoiceStatus
  pub currency : ℕ
  pub subtotal_cents : ℕ
  pub tax_cents : ℕ
  pub total_cents : ℕ
  pub period_start : ℕ
  pub period_end : ℕ
  pub issued_at : Option ℕ
  pub paid_at : Option ℕ
  pub lines : List InvoiceLine

-- One row of the idempotency ledger, `StripeEvent`.
pub record StripeEvent : Type 0 where
  pub event_id : String
  pub event_type : String
  pub processed_at : Option ℕ
