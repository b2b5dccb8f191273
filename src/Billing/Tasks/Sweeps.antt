-- ===== src/Billing/Tasks/Sweeps.antt =====
-- What the sweeps of app/tasks/invoicing.py and app/tasks/dunning.py report and leave behind.
use async_fastapi_template.Prelude.{ℕ, ◌+◌, ◌≡◌, refl, List, [], ◌∷◌, select, length, arith}
use async_fastapi_template.Billing.Model.{Subscription}
use async_fastapi_template.Billing.Session.{World, Result, ok, err}
use async_fastapi_template.Billing.Usage.{Redis}
use async_fastapi_template.Billing.Tasks.{
  Swept, did_generate, did_skip, did_fail, sweep_one, Counts, count, sweep_each, is_due,
  generate_due_invoices,
}

abbrev pub total : Counts → ℕ
total n = n.generated + n.skipped + n.failed

total-count : (r : Result Swept) (n : Counts) → total (count r n) ≡ total n + 1
unfolding count
total-count (ok did_generate) n = omega arith
total-count (ok did_skip) n = omega arith
total-count (ok did_fail) n = omega arith
total-count (err e) n = omega arith

total-sweep_each :
    (redis : Redis) (now : ℕ) (subs : List Subscription) (n : Counts) (w : World)
    → total (sweep_each redis now subs n w).0 ≡ total n + length subs
unfolding sweep_each
total-sweep_each redis now [] n w = omega arith
total-sweep_each redis now (s ∷ subs) n w =
    let (r, w') = sweep_one redis now s w in
    omega (arith, total-sweep_each redis now subs (count r n) w', total-count r n)

-- The invoice sweep accounts for every live subscription whose period has ended exactly once, as
-- generated, skipped or failed, and leaves nothing uncommitted in its session.
pub generate_due_invoices_counts :
    (redis : Redis) (now : ℕ) (w : World)
    → let (n, w') = generate_due_invoices redis now w in
      (total n ≡ length (select (is_due now) w.session.subscriptions)) × (w'.session ≡ w'.stored)
unfolding generate_due_invoices
generate_due_invoices_counts redis now w = (
  omega (
    arith,
    total-sweep_each redis now (select (is_due now) w.session.subscriptions)
        (record { generated = 0; skipped = 0; failed = 0 }) w,
  ),
  refl,
)
