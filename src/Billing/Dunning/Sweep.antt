-- ===== src/Billing/Dunning/Sweep.antt =====
-- The dunning sweep over all subscriptions: `process_due_retries` advances each due row once.
use async_fastapi_template.Prelude.{
  ℕ, ◌+◌, ◌≤◌, ◌≡◌, refl, ap, ◌≢◌, ◌∙◌, inl, inr, Bool, true, false, Option, none, some, List, [],
  ◌∷◌, map, arith, if◌then◌else◌, leb, select, length, All, Bool-cases,
}
use async_fastapi_template.Billing.Model.{Subscription, suspended}
use async_fastapi_template.Billing.Session.{
  World, Bus, Suffix, put_subscription, save_subscription, payment_reminder,
}
use async_fastapi_template.Billing.Session.Rows.{HasDistinctIds, put-absent}
use async_fastapi_template.Billing.Dunning.{
  Config, is_due, remind_row, tick, Stats, tally, tick_each, process_due_retries, now_or,
  take_limit,
}
use async_fastapi_template.Billing.Dunning.Publish.{publish_to_recipients-tables}
use async_fastapi_template.Billing.Dunning.Schedule.{rescheduled_not_due}

-- What one tick makes of a due row, with no database or bus in sight.
unfoldable pub ticked : Config → ℕ → Subscription → Subscription
ticked c now s =
    if leb c.max_attempts s.failed_payment_count
    then record s { status = suspended; suspended_at = some c.clock; next_retry_at = none }
    else remind_row c now s

-- The sweep on one row: rows that are not due are left alone.
unfoldable pub swept : Config → ℕ → Subscription → Subscription
unfolding ticked
swept c now s = if is_due now s then ticked c now s else s

tick-rows :
    (c : Config) (bus : Option Bus) (now : ℕ) (s : Subscription) (w : World)
    → is_due now s ≡ true
    → (tick c bus now s w).1.session.subscriptions
      ≡ put_subscription (ticked c now s) w.session.subscriptions
unfolding tick ticked is_due
tick-rows c bus now s w h = ground (
  arith,
  publish_to_recipients-tables bus payment_reminder (remind_row c now s)
      (save_subscription (remind_row c now s) w).1,
  publish_to_recipients-tables bus Suffix.suspended (ticked c now s)
      (save_subscription (ticked c now s) w).1,
)

-- The writes of a sweep over the listed rows.
put_all : Config → ℕ → List Subscription → List Subscription → List Subscription
put_all c now [] rows = rows
put_all c now (s ∷ subs) rows = put_all c now subs (put_subscription (ticked c now s) rows)

ticked-id : (c : Config) (now : ℕ) (s : Subscription) → (ticked c now s).id ≡ s.id
unfolding ticked remind_row
ticked-id c now s = ground arith

put_all-cons :
    (c : Config) (now : ℕ) (subs : List Subscription) (d : Subscription) (rows : List Subscription)
    → All (λ (x : Subscription). x.id ≢ d.id) subs
    → put_all c now subs (d ∷ rows) ≡ d ∷ put_all c now subs rows
unfolding put_all
put_all-cons c now [] d rows h = refl
put_all-cons c now (s ∷ subs) d rows h = ground (
  arith,
  ticked-id c now s,
  put_all-cons c now subs d (put_subscription (ticked c now s) rows) h.1,
)

All-select :
    (n : ℕ) (p : Subscription → Bool) (rows : List Subscription)
    → All (λ (x : Subscription). x.id ≢ n) rows
    → All (λ (x : Subscription). x.id ≢ n) (select p rows)
All-select n p [] h = tt
All-select n p (r ∷ rows) h = elim (Bool-cases (p r)) [
  | inl e ↦ rw e (h.0, All-select n p rows h.1)
  | inr e ↦ rw e (All-select n p rows h.1)
]

put-head :
    (c : Config) (now : ℕ) (r : Subscription) (rows : List Subscription)
    → All (λ (x : Subscription). x.id ≢ r.id) rows
    → put_subscription (ticked c now r) (r ∷ rows) ≡ ticked c now r ∷ rows
put-head c now r rows h =
    let absent : put_subscription (ticked c now r) rows ≡ rows =
      put-absent (ticked c now r) rows (rw (ticked-id c now r) h) in
    ground (arith, ticked-id c now r, absent)

-- Over distinct ids, the writes of a whole sweep are the row-by-row sweep.
put_all-eq-map :
    (c : Config) (now : ℕ) (rows : List Subscription)
    → HasDistinctIds rows
    → put_all c now (select (is_due now) rows) rows ≡ map (swept c now) rows
unfolding put_all swept
put_all-eq-map c now [] h = refl
put_all-eq-map c now (r ∷ rows) h = elim (Bool-cases (is_due now r)) [
  | inl due ↦ rw due (
      ap (put_all c now (select (is_due now) rows)) (put-head c now r rows h.0)
      ∙ put_all-cons c now (select (is_due now) rows) (ticked c now r) rows
          (rw (ticked-id c now r) (All-select r.id (is_due now) rows h.0))
      ∙ ap (λ xs. ticked c now r ∷ xs) (put_all-eq-map c now rows h.1))
  | inr idle ↦ rw idle (
      put_all-cons c now (select (is_due now) rows) r rows (All-select r.id (is_due now) rows h.0)
      ∙ ap (λ xs. r ∷ xs) (put_all-eq-map c now rows h.1))
]

tick_each-rows :
    (c : Config) (bus : Option Bus) (now : ℕ) (subs : List Subscription) (st : Stats) (w : World)
    → All (λ (s : Subscription). is_due now s ≡ true) subs
    → (tick_each c bus now subs st w).1.session.subscriptions
      ≡ put_all c now subs w.session.subscriptions
unfolding tick_each put_all
tick_each-rows c bus now [] st w h = refl
tick_each-rows c bus now (s ∷ subs) st w h =
    tick_each-rows c bus now subs (tally (tick c bus now s w).0 st) (tick c bus now s w).1 h.1
    ∙ ap (put_all c now subs) (tick-rows c bus now s w h.0)

select-All :
    (p : Subscription → Bool) (rows : List Subscription)
    → All (λ (s : Subscription). p s ≡ true) (select p rows)
select-All p [] = tt
select-All p (r ∷ rows) = elim (Bool-cases (p r)) [
  | inl e ↦ rw e (e, select-All p rows)
  | inr e ↦ rw e (select-All p rows)
]

-- A sweep without a limit advances every due subscription by exactly one tick and leaves all
-- other rows alone, whatever the bus refuses: over rows with distinct ids it is `swept` row by
-- row.
pub process_due_retries_rows :
    (c : Config) (bus : Option Bus) (now : Option ℕ) (w : World)
    → HasDistinctIds w.session.subscriptions
    → (process_due_retries c bus now none w).1.session.subscriptions
      ≡ map (swept c (now_or now c.clock)) w.session.subscriptions
unfolding process_due_retries
process_due_retries_rows c bus now w h =
    let t = now_or now c.clock in
    let rows = w.session.subscriptions in
    let subs = select (is_due t) rows in
    tick_each-rows c bus t subs
      (record { due = length subs; reminded = 0; suspended = 0; failed = 0 }) w
      (select-All (is_due t) rows)
    ∙ put_all-eq-map c t rows h

swept_not_due :
    (c : Config) (now : ℕ) (s : Subscription)
    → 1 ≤ c.base_delay_minutes
    → is_due now (swept c now s) ≡ false
unfolding swept ticked is_due
swept_not_due c now s h = ground (arith, rescheduled_not_due c now s h)

select-swept :
    (c : Config) (now : ℕ) (rows : List Subscription)
    → 1 ≤ c.base_delay_minutes
    → select (is_due now) (map (swept c now) rows) ≡ []
select-swept c now [] h = refl
select-swept c now (r ∷ rows) h = rw (swept_not_due c now r h) (select-swept c now rows h)

nothing_due :
    (c : Config) (bus : Option Bus) (now : Option ℕ) (w : World)
    → select (is_due (now_or now c.clock)) w.session.subscriptions ≡ []
    → process_due_retries c bus now none w
      ≡ (record { due = 0; reminded = 0; suspended = 0; failed = 0 }, w)
unfolding process_due_retries
nothing_due c bus now w e = rw e

-- Over rows with distinct ids and with a base delay of a minute or more, a sweep without a limit
-- is idempotent at one instant: a second run at the same time finds nothing due, reports zeros
-- and changes nothing.
pub process_due_retries_idempotent :
    (c : Config) (bus : Option Bus) (now : Option ℕ) (w : World)
    → HasDistinctIds w.session.subscriptions
    → 1 ≤ c.base_delay_minutes
    → let w' = (process_due_retries c bus now none w).1 in
      process_due_retries c bus now none w'
      ≡ (record { due = 0; reminded = 0; suspended = 0; failed = 0 }, w')
process_due_retries_idempotent c bus now w h b =
    let w' = (process_due_retries c bus now none w).1 in
    let e : select (is_due (now_or now c.clock)) w'.session.subscriptions ≡ [] =
      ap (select (is_due (now_or now c.clock))) (process_due_retries_rows c bus now w h)
      ∙ select-swept c (now_or now c.clock) w.session.subscriptions b in
    nothing_due c bus now w' e

tick_each_stats :
    (c : Config) (bus : Option Bus) (now : ℕ) (subs : List Subscription) (st : Stats) (w : World)
    → let out = (tick_each c bus now subs st w).0 in
      (out.due ≡ st.due)
      × (out.reminded + out.suspended + out.failed
          ≡ st.reminded + st.suspended + st.failed + length subs)
unfolding tick_each
tick_each_stats c bus now [] st w = ground arith
tick_each_stats c bus now (s ∷ subs) st w =
    ground (
      arith,
      tick_each_stats c bus now subs (tally (tick c bus now s w).0 st) (tick c bus now s w).1,
    )

-- Every row that a sweep reports as due is counted exactly once: reminded, suspended or failed.
pub process_due_retries_stats :
    (c : Config) (bus : Option Bus) (now limit : Option ℕ) (w : World)
    → let st = (process_due_retries c bus now limit w).0 in
      st.due ≡ st.reminded + st.suspended + st.failed
unfolding process_due_retries
process_due_retries_stats c bus now limit w =
    let t = now_or now c.clock in
    let subs = take_limit limit (select (is_due t) w.session.subscriptions) in
    let h =
      tick_each_stats c bus t subs
        (record { due = length subs; reminded = 0; suspended = 0; failed = 0 }) w in
    omega arith
