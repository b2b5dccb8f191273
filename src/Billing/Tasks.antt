-- ===== src/Billing/Tasks.antt =====
-- The Celery sweeps of app/tasks/invoicing.py and app/tasks/dunning.py.
pub mod Sweeps
use async_fastapi_template.Prelude.{
  ℕ, ◌+◌, Bool, true, false, ◌&&◌, Option, none, some, List, [], ◌∷◌, leb, if◌then◌else◌, select,
  length, is_some,
}
use async_fastapi_template.Billing.Model.{Subscription, is_live, InvoiceStatus, draft, Invoice}
use async_fastapi_template.Billing.Session.{
  World, Bus, Result, ok, err, M, pure, ◌>>=◌, ◌>>◌, tables, commit, close, get_plan,
  find_blocking_for_period,
}
use async_fastapi_template.Billing.Usage.{Redis}
use async_fastapi_template.Billing.Invoicing.{generate_invoice, issue}
use async_fastapi_template.Billing.Dunning.{Config, Stats, process_due_retries}

-- What the sweep did for one subscription
pub data Swept : Type 0 where
  did_generate did_skip did_fail : Swept

abbrev pub is_draft : InvoiceStatus → Bool
is_draft draft = true
is_draft _ = false

-- The body of the loop of `_generate_due_invoices_async`
unfoldable pub sweep_one : Redis → ℕ → Subscription → M Swept
sweep_one redis now s = do
  t ← tables
  elim (get_plan t s.plan_id) [
    | none ↦ pure did_fail
    | some plan ↦
        if is_some (find_blocking_for_period t s.id s.current_period_start)
        then pure did_skip
        else (do
          i ← generate_invoice redis s plan none none
          (if is_draft i.status then issue now i.id >> pure did_generate else pure did_generate))
  ]

-- The dictionary that the task returns
pub record Counts : Type 0 where
  pub generated : ℕ
  pub skipped : ℕ
  pub failed : ℕ

unfoldable pub count : Result Swept → Counts → Counts
count (ok did_generate) n = record n { generated = n.generated + 1 }
count (ok did_skip) n = record n { skipped = n.skipped + 1 }
count (ok did_fail) n = record n { failed = n.failed + 1 }
count (err e) n = record n { failed = n.failed + 1 }

-- The loop with its `except Exception`
unfoldable pub sweep_each : Redis → ℕ → List Subscription → Counts → World → Counts × World
unfolding sweep_one count
sweep_each redis now [] n w = (n, w)
sweep_each redis now (s ∷ subs) n w =
    let (r, w') = sweep_one redis now s w in sweep_each redis now subs (count r n) w'

abbrev pub is_due : ℕ → Subscription → Bool
is_due now s = is_live s && leb s.current_period_end now

-- `_generate_due_invoices_async`, of a period that ends by now
unfoldable pub generate_due_invoices : Redis → ℕ → World → Counts × World
unfolding sweep_each
generate_due_invoices redis now w =
    let (n, w') =
      sweep_each redis now (select (is_due now) w.session.subscriptions)
        (record { generated = 0; skipped = 0; failed = 0 }) w in
    (n, record w' { session = w'.stored })

-- `process_dunning`: `none` if it is disabled. Its commit may raise, and then nothing is stored.
unfoldable pub process_dunning : Bool → Config → Option Bus → World → Option (Result Stats) × World
process_dunning false c bus w = (none, w)
process_dunning true c bus w =
    let (stats, w') = process_due_retries c bus none none w in
    let (r, w'') = (commit >> pure stats) w' in (some r, record w'' { session = w''.stored })
