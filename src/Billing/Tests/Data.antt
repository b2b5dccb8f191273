-- ===== src/Billing/Tests/Data.antt =====
-- Concrete plans, rows, worlds and an in-memory Redis.
use async_fastapi_template.Prelude.{
  ℕ, ◌+◌, ◌≡◌, refl, true, false, Option, none, some, List, [], ◌∷◌, if◌then◌else◌, arith,
}
use async_fastapi_template.Billing.Model.{
  Status, monthly, yearly, Plan, Subscription, InvoiceStatus, Invoice,
}
use async_fastapi_template.Billing.Session.{User, Tables, World, Bus}
use async_fastapi_template.Billing.Usage.{Key, key_eq, or_zero, Redis}
use async_fastapi_template.Billing.Dunning.{Config}

abbrev pub basic : Plan
basic = record {
  id = 1;
  price_cents = 1000;
  currency = 1;
  interval = monthly;
  trial_days = 14;
  is_active = true;
  metering = record { dimension = 1; unit_amount_cents = 2; included_quantity = 100 } ∷ [];
}

abbrev pub pro : Plan
pro = record basic { id = 2; price_cents = 3000; interval = yearly; trial_days = 0 }

-- The subscription of tenant 7 to the basic plan
abbrev pub member : Status → Subscription
member status = record {
  id = 5;
  tenant_id = some 7;
  plan_id = 1;
  status = status;
  current_period_start = 1000000;
  current_period_end = 61000000;
  trial_end = none;
  cancel_at_period_end = false;
  pending_plan_id = none;
  canceled_at = none;
  stripe_subscription_id = some "sub_1";
  failed_payment_count = 0;
  last_payment_failure_at = none;
  next_retry_at = none;
  suspended_at = none;
}

-- The same, one failed payment ago
abbrev pub owing : Subscription
owing = record (member Status.past_due) {
  failed_payment_count = 1;
  last_payment_failure_at = some 10;
  next_retry_at = some 900;
}

abbrev pub bill : InvoiceStatus → Invoice
bill status = record {
  id = 3;
  tenant_id = some 7;
  subscription_id = 5;
  status = status;
  currency = 1;
  subtotal_cents = 1000;
  tax_cents = 0;
  total_cents = 1000;
  period_start = 1000000;
  period_end = 61000000;
  issued_at = none;
  paid_at = none;
  lines = [];
}

abbrev pub owner : User
owner = record { id = 9; tenant_id = some 7; is_active = true; is_superuser = false }

abbrev pub world : List Subscription → List Invoice → World
world subs invoices =
    let t : Tables = record {
      plans = basic ∷ pro ∷ [];
      subscriptions = subs;
      invoices = invoices;
      stripe_events = [];
      users = owner ∷ [];
      next_id = 20;
    } in
    record { stored = t; session = t; outbox = [] }

abbrev pub bus : Bus
bus = record { accepts = λ e. true }

abbrev pub config : Config
config = record { max_attempts = 3; base_delay_minutes = 60; clock = 1000 }

abbrev pub lookup : Key → List (Key × ℕ) → Option ℕ
lookup k [] = none
lookup k ((j, n) ∷ rows) = if key_eq j k then some n else lookup k rows

abbrev pub add_to : Key → ℕ → List (Key × ℕ) → List (Key × ℕ)
add_to k n [] = (k, n) ∷ []
add_to k n ((j, m) ∷ rows) = if key_eq j k then (j, m + n) ∷ rows else (j, m) ∷ add_to k n rows

pub lookup-add_to :
    (k j : Key) (n : ℕ) (rows : List (Key × ℕ))
    → lookup j (add_to k n rows)
      ≡ (if key_eq k j then some (or_zero (lookup k rows) + n) else lookup j rows)
lookup-add_to k j n [] = ground arith
lookup-add_to k j n (row ∷ rows) = ground (arith, lookup-add_to k j n rows)

-- Redis as a list of counters
abbrev pub memory : List (Key × ℕ) → Redis
memory rows = record {
  Store = List (Key × ℕ);
  state = some rows;
  get = lookup;
  incrby = add_to;
  expire = λ k ttl s. s;
  get_incrby = lookup-add_to;
  get_expire = λ k j ttl s h. refl;
}

abbrev pub counted : Redis
counted = memory ((record { tenant_id = 7; dimension = 1; start_seconds = 1 }, 150) ∷ [])
