-- ===== src/Billing/Dunning.antt =====
-- app/billing/services/dunning.py: the retry schedule of failed payments.
-- `timedelta` is in microseconds. `min(base * 2 ** (n - 1), 10080.0)` compares an int with an
-- exact float and `int` truncates nothing, so the delay is a natural number of minutes.
pub mod Publish
pub mod Schedule
pub mod Sweep
pub mod Termination
use async_fastapi_template.Prelude.{
  ℕ, not, ◌+◌, ◌-◌, ◌*◌, ◌^◌, min, Bool, true, false, ◌&&◌, ◌||◌, Option, none, some, List, [], ◌∷◌,
  map, ltb, leb, ◌==◌, if◌then◌else◌, length, take, select, opt_eq, is_some,
}
use async_fastapi_template.Billing.Model.{
  Status, active, past_due, suspended, status_eq, Subscription,
}
use async_fastapi_template.Billing.Status.{allowed}
use async_fastapi_template.Billing.Session.{
  ⊤, User, Tables, World, Bus, Event, Subject, Suffix, payment_failed, payment_reminder, recovered,
  Result, ok, err, illegal_transition, M, pure, ◌>>=◌, ◌>>◌, raise_if, tables, save_subscription,
  publish,
}

-- `settings.DUNNING_MAX_ATTEMPTS`, `settings.DUNNING_BASE_DELAY_MINUTES`, and the clock.
pub record Config : Type 0 where
  pub max_attempts : ℕ
  pub base_delay_minutes : ℕ
  pub clock : ℕ

-- `MAX_DELAY.total_seconds() / 60`
abbrev pub max_delay_minutes : ℕ
max_delay_minutes = 10080

abbrev pub minute : ℕ
minute = 60000000

-- `backoff_delay`, in minutes
unfoldable pub backoff_minutes : ℕ → ℕ → ℕ
backoff_minutes base attempt = min (base * 2 ^ (attempt - 1)) max_delay_minutes

-- `backoff_delay`
unfoldable pub backoff_delay : Config → ℕ → ℕ
backoff_delay c attempt = minute * backoff_minutes c.base_delay_minutes attempt

-- `when or datetime.now(UTC)`: a datetime is never falsy.
abbrev pub now_or : Option ℕ → ℕ → ℕ
now_or none clock = clock
now_or (some t) clock = t

-- `is_dunning`
unfoldable pub is_dunning : Subscription → Bool
is_dunning s = ltb 0 s.failed_payment_count || status_eq s.status past_due

-- `reset_dunning`: the changed row, and whether something changed.
unfoldable pub reset_dunning : Subscription → Subscription × Bool
reset_dunning s =
    if s.failed_payment_count == 0 && not (is_some s.next_retry_at)
    then (record s { last_payment_failure_at = none }, false)
    else (
      record s { failed_payment_count = 0; last_payment_failure_at = none; next_retry_at = none },
      true,
    )

-- `assert_transition` of app/billing/services/billing.py
unfoldable pub assert_transition : Status → Status → M ⊤
unfolding allowed
assert_transition current target = raise_if (not (allowed current target)) illegal_transition

-- `resolve_recipients`
unfoldable pub resolve_recipients : Tables → Option ℕ → List ℕ
resolve_recipients t none = []
resolve_recipients t (some tenant) =
    map (λ (u : User). u.id)
      (select (λ (u : User). opt_eq u.tenant_id (some tenant) && u.is_active) t.users)

-- `dunning_event`
unfoldable pub dunning_event : Suffix → Subscription → ℕ → Event
dunning_event suffix s uid = record {
  subject = Subject.dunning;
  suffix = suffix;
  row_id = s.id;
  user_id = some uid;
}

-- The loop of `_publish_to_recipients`
unfoldable pub publish_each : Bus → Suffix → Subscription → List ℕ → M ⊤
unfolding dunning_event
publish_each bus suffix s [] = pure tt
publish_each bus suffix s (uid ∷ uids) =
    publish bus (dunning_event suffix s uid) >> publish_each bus suffix s uids

-- `_publish_to_recipients`
unfoldable pub publish_to_recipients : Option Bus → Suffix → Subscription → M ℕ
publish_to_recipients none suffix s = pure 0
publish_to_recipients (some bus) suffix s = do
  t ← tables
  publish_each bus suffix s (resolve_recipients t s.tenant_id)
  pure (length (resolve_recipients t s.tenant_id))

-- The attribute writes of `record_payment_failure`
unfoldable pub fail_payment : Config → ℕ → Subscription → Subscription
unfolding backoff_delay
fail_payment c now s = record s {
  status = past_due;
  failed_payment_count = s.failed_payment_count + 1;
  last_payment_failure_at = some now;
  next_retry_at = some (now + backoff_delay c (s.failed_payment_count + 1));
}

-- `record_payment_failure`
unfoldable pub record_payment_failure :
    Config → Option Bus → Option ℕ → Subscription → M Subscription
unfolding assert_transition fail_payment
record_payment_failure c bus when s = do
  let now = now_or when c.clock
  (if status_eq s.status past_due then pure tt else assert_transition s.status past_due)
  save_subscription (fail_payment c now s)
  publish_to_recipients bus payment_failed (fail_payment c now s)
  pure (fail_payment c now s)

-- `suspend_subscription`
unfoldable pub suspend_subscription : Config → Option Bus → Subscription → M Subscription
unfolding assert_transition
suspend_subscription c bus s = if status_eq s.status suspended then pure s else (do
  assert_transition s.status suspended
  let s' = record s { status = suspended; suspended_at = some c.clock; next_retry_at = none }
  save_subscription s'
  publish_to_recipients bus Suffix.suspended s'
  pure s')

-- The attribute writes of `recover_subscription`
unfoldable pub recovered_row : Subscription → Subscription × Bool
unfolding reset_dunning
recovered_row s =
    reset_dunning (if status_eq s.status past_due then record s { status = active } else s)

-- `recover_subscription`. From `past_due` to `active` is allowed, so its assertion never raises.
unfoldable pub recover_subscription : Option Bus → Subscription → M Subscription
unfolding assert_transition recovered_row
recover_subscription bus s = do
  (if status_eq s.status past_due then assert_transition s.status active else pure tt)
  let (s', had_dunning) = recovered_row s
  save_subscription s'
  (if had_dunning || status_eq s'.status active
      then publish_to_recipients bus recovered s'
      else pure 0)
  pure s'

-- The `WHERE` clause of `process_due_retries`
unfoldable pub is_due : ℕ → Subscription → Bool
is_due now s =
    status_eq s.status past_due && elim s.next_retry_at [ some t ↦ leb t now | none ↦ false ]

-- What a tick of the sweep did with one subscription.
pub data Tick : Type 0 where
  did_remind did_suspend : Tick

-- The attribute writes of a reminder tick
unfoldable pub remind_row : Config → ℕ → Subscription → Subscription
unfolding backoff_delay
remind_row c now s = record s {
  failed_payment_count = s.failed_payment_count + 1;
  next_retry_at = some (now + backoff_delay c (s.failed_payment_count + 1));
}

-- The `try` body of `process_due_retries`
unfoldable pub tick : Config → Option Bus → ℕ → Subscription → M Tick
unfolding suspend_subscription
tick c bus now s =
    if leb c.max_attempts s.failed_payment_count
    then suspend_subscription c bus s >> pure Tick.did_suspend
    else (do
      save_subscription (remind_row c now s)
      publish_to_recipients bus payment_reminder (remind_row c now s)
      pure Tick.did_remind)

-- The dictionary that `process_due_retries` returns
pub record Stats : Type 0 where
  pub due : ℕ
  pub reminded : ℕ
  pub suspended : ℕ
  pub failed : ℕ

abbrev pub tally : Result Tick → Stats → Stats
tally (ok Tick.did_remind) st = record st { reminded = st.reminded + 1 }
tally (ok Tick.did_suspend) st = record st { suspended = st.suspended + 1 }
tally (err e) st = record st { failed = st.failed + 1 }

-- The loop of `process_due_retries`, with its `except`
unfoldable pub tick_each :
    Config → Option Bus → ℕ → List Subscription → Stats → World → Stats × World
tick_each c bus now [] st w = (st, w)
tick_each c bus now (s ∷ subs) st w =
    let (r, w') = tick c bus now s w in tick_each c bus now subs (tally r st) w'

abbrev pub take_limit : {A : Type 0} → Option ℕ → List A → List A
take_limit none xs = xs
take_limit (some n) xs = take n xs

-- `process_due_retries`
unfoldable pub process_due_retries :
    Config → Option Bus → Option ℕ → Option ℕ → World → Stats × World
unfolding tick_each
process_due_retries c bus now limit w =
    let t = now_or now c.clock in
    let subs = take_limit limit (select (is_due t) w.session.subscriptions) in
    tick_each c bus t subs (record { due = length subs; reminded = 0; suspended = 0; failed = 0 }) w
