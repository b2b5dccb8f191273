-- ===== src/Billing/Dunning/Termination.antt =====
-- The retry schedule ends: a subscription whose payments never succeed is suspended.
use mathlib.Core.Path.{subst}
use async_fastapi_template.Prelude.{
  ℕ, true, false, ◌≢◌, sym, ap, ◌∙◌, ◌==◌, All, map, find, some_injective, ◌+◌, ◌*◌, ◌≤◌, ◌<◌, ◌≡◌,
  Option, none, some, List, [], ◌∷◌, arith, ltb, length, inl, inr, Bool-cases,
}
use async_fastapi_template.Billing.Session.{World, Bus}
use async_fastapi_template.Billing.Session.Rows.{HasDistinctIds}
use async_fastapi_template.Billing.Model.{Subscription, past_due, suspended}
use async_fastapi_template.Billing.Dunning.{
  Config, minute, backoff_delay, is_due, remind_row, process_due_retries,
}
use async_fastapi_template.Billing.Dunning.Schedule.{backoff_minutes_bounds}
use async_fastapi_template.Billing.Dunning.Sweep.{ticked, swept, process_due_retries_rows}

-- Sweeps at the listed times, on one subscription.
sweeps : Config → List ℕ → Subscription → Subscription
sweeps c [] s = s
sweeps c (t ∷ ts) s = sweeps c ts (swept c t s)

-- The first sweep comes at `r` or later, and each next one at least seven days after.
abbrev pub IsSpaced : ℕ → List ℕ → Type 0
IsSpaced r [] = Unit
IsSpaced r (t ∷ ts) = (r ≤ t) × IsSpaced (t + 10080 * minute) ts

abbrev DueBy : ℕ → Option ℕ → Type 0
DueBy r none = ⊥
DueBy r (some t) = t ≤ r

-- A past-due row whose next retry is at `r` at the latest.
abbrev pub IsWaiting : ℕ → Subscription → Type 0
IsWaiting r s = (s.status ≡ past_due) × DueBy r s.next_retry_at

swept_suspends :
    (c : Config) (r t : ℕ) (s : Subscription)
    → IsWaiting r s
    → r ≤ t
    → c.max_attempts ≤ s.failed_payment_count
    → (swept c t s).status ≡ suspended
unfolding swept ticked is_due
swept_suspends c r t s w h m = ground arith

swept_reminds :
    (c : Config) (r t : ℕ) (s : Subscription)
    → 1 ≤ c.base_delay_minutes
    → IsWaiting r s
    → r ≤ t
    → s.failed_payment_count < c.max_attempts
    → IsWaiting (t + 10080 * minute) (swept c t s)
      × ((swept c t s).failed_payment_count ≡ s.failed_payment_count + 1)
unfolding swept ticked is_due remind_row backoff_delay
swept_reminds c r t s b w h m =
    ground (arith, backoff_minutes_bounds c.base_delay_minutes (s.failed_payment_count + 1))

stays_suspended :
    (c : Config) (ts : List ℕ) (s : Subscription)
    → s.status ≡ suspended
    → (sweeps c ts s).status ≡ suspended
unfolding sweeps swept is_due
stays_suspended c [] s h = h
stays_suspended c (t ∷ ts) s h = stays_suspended c ts (swept c t s) (ground arith)

row_suspended :
    (c : Config) (ts : List ℕ) (r : ℕ) (s : Subscription)
    → 1 ≤ c.base_delay_minutes
    → IsWaiting r s
    → IsSpaced r ts
    → c.max_attempts < s.failed_payment_count + length ts
    → s.failed_payment_count ≤ c.max_attempts
    → (sweeps c ts s).status ≡ suspended
unfolding sweeps
row_suspended c [] r s b w sp n m = absurd (omega arith)
row_suspended c (t ∷ ts) r s b w sp n m =
    elim (Bool-cases (ltb s.failed_payment_count c.max_attempts)) [
      | inl more ↦
          let (w', e) = swept_reminds c r t s b w sp.0 (ground arith) in
          row_suspended c ts (t + 10080 * minute) (swept c t s) b w' sp.1 (omega arith)
            (ground arith)
      | inr spent ↦
          stays_suspended c ts (swept c t s) (swept_suspends c r t s w sp.0 (ground arith))
    ]

-- Runs of `process_due_retries` without a limit, at the listed times
pub run_sweeps : Config → Option Bus → List ℕ → World → World
run_sweeps c bus [] w = w
run_sweeps c bus (t ∷ ts) w = run_sweeps c bus ts (process_due_retries c bus (some t) none w).1

swept-id : (c : Config) (t : ℕ) (s : Subscription) → (swept c t s).id ≡ s.id
unfolding swept ticked remind_row
swept-id c t s = ground arith

swept-absent :
    (c : Config) (t n : ℕ) (rows : List Subscription)
    → All (λ (x : Subscription). x.id ≢ n) rows
    → All (λ (x : Subscription). x.id ≢ n) (map (swept c t) rows)
swept-absent c t n [] h = tt
swept-absent c t n (r ∷ rows) h =
    ((λ e. h.0 (sym (swept-id c t r) ∙ e)), swept-absent c t n rows h.1)

swept-HasDistinctIds :
    (c : Config) (t : ℕ) (rows : List Subscription)
    → HasDistinctIds rows
    → HasDistinctIds (map (swept c t) rows)
swept-HasDistinctIds c t [] h = tt
swept-HasDistinctIds c t (r ∷ rows) h = (
  subst (λ n. All (λ (x : Subscription). x.id ≢ n) (map (swept c t) rows)) (sym (swept-id c t r))
      (swept-absent c t r.id rows h.0),
  swept-HasDistinctIds c t rows h.1,
)

find-swept :
    (c : Config) (t id : ℕ) (s : Subscription) (rows : List Subscription)
    → find (λ (r : Subscription). r.id == id) rows ≡ some s
    → find (λ (r : Subscription). r.id == id) (map (swept c t) rows) ≡ some (swept c t s)
find-swept c t id s [] f = absurd cc
find-swept c t id s (r ∷ rows) f = elim (Bool-cases (r.id == id)) [
  | inl e ↦
      let same = some_injective r s (rw e at f) in
      let k : ((swept c t r).id == id) ≡ true = ap (λ n. n == id) (swept-id c t r) ∙ e in
      rw k (ap (λ x. some (swept c t x)) same)
  | inr e ↦
      let k : ((swept c t r).id == id) ≡ false = ap (λ n. n == id) (swept-id c t r) ∙ e in
      rw k (find-swept c t id s rows (rw e at f))
]

run_sweeps-find :
    (c : Config) (bus : Option Bus) (ts : List ℕ) (id : ℕ) (s : Subscription) (w : World)
    → HasDistinctIds w.session.subscriptions
    → find (λ (r : Subscription). r.id == id) w.session.subscriptions ≡ some s
    → find (λ (r : Subscription). r.id == id) (run_sweeps c bus ts w).session.subscriptions
      ≡ some (sweeps c ts s)
unfolding run_sweeps sweeps
run_sweeps-find c bus [] id s w d f = f
run_sweeps-find c bus (t ∷ ts) id s w d f =
    let rows = process_due_retries_rows c bus (some t) w d in
    run_sweeps-find c bus ts id (swept c t s) (process_due_retries c bus (some t) none w).1
      (subst HasDistinctIds (sym rows) (swept-HasDistinctIds c t w.session.subscriptions d))
      (ap (find (λ (r : Subscription). r.id == id)) rows
        ∙ find-swept c t id s w.session.subscriptions f)

-- From a session with distinct subscription ids and with a base delay of a minute or more: a
-- past-due subscription whose next retry is due by the first run, and that `process_due_retries`
-- runs over at least seven days apart, with no payment in between and whatever the bus refuses,
-- is suspended once the runs outnumber the attempts left (its failure count is at most the
-- maximum).
pub sweeps_suspend :
    (c : Config) (bus : Option Bus) (ts : List ℕ) (r id : ℕ) (s : Subscription) (w : World)
    → HasDistinctIds w.session.subscriptions
    → find (λ (x : Subscription). x.id == id) w.session.subscriptions ≡ some s
    → 1 ≤ c.base_delay_minutes
    → IsWaiting r s
    → IsSpaced r ts
    → c.max_attempts < s.failed_payment_count + length ts
    → s.failed_payment_count ≤ c.max_attempts
    → (out : Subscription) × (find
          (λ (x : Subscription). x.id == id)
          (run_sweeps c bus ts w).session.subscriptions
        ≡ some out)
      × (out.status ≡ suspended)
sweeps_suspend c bus ts r id s w d f b waits spaced n m =
    (sweeps c ts s, run_sweeps-find c bus ts id s w d f, row_suspended c ts r s b waits spaced n m)
