-- ===== src/Billing/Tests/Schedules.antt =====
-- The status diagram, the retry schedule, the counters and the sweeps on concrete rows.
use async_fastapi_template.Prelude.{
  ℕ, List, ◌≡◌, ◌↔◌, refl, true, none, some, [], ◌∷◌, map, find, ◌==◌, arith,
}
use async_fastapi_template.Billing.Model.{Subscription, active, canceled, suspended}
use async_fastapi_template.Billing.Status.{allowed, ◌⟶◌, allowed_iff}
use async_fastapi_template.Billing.Dunning.{process_due_retries}
use async_fastapi_template.Billing.Dunning.Sweep.{swept, process_due_retries_rows}
use async_fastapi_template.Billing.Dunning.Termination.{run_sweeps, sweeps_suspend}
use async_fastapi_template.Billing.Tests.Data.{owing, world, bus, config}

allowed_iff_example : (allowed canceled active ≡ true) ↔ (canceled ⟶ active)
allowed_iff_example = allowed_iff canceled active

process_due_retries_rows_example :
    (process_due_retries config
      (some bus)
      none
      none
      (world (owing ∷ []) [])).1.session.subscriptions
    ≡ map (swept config 1000) (owing ∷ [])
process_due_retries_rows_example =
    process_due_retries_rows config (some bus) none (world (owing ∷ []) []) (tt, tt)

sweeps_suspend_example :
    let times : List ℕ = 1000 ∷ 700000000000 ∷ 1400000000000 ∷ [] in
    let w = run_sweeps config (some bus) times (world (owing ∷ []) []) in
    (out : Subscription) × (find (λ (x : Subscription). x.id == owing.id) w.session.subscriptions
      ≡ some out)
    × (out.status ≡ suspended)
sweeps_suspend_example =
    sweeps_suspend config (some bus) (1000 ∷ 700000000000 ∷ 1400000000000 ∷ []) 1000 owing.id owing
      (world (owing ∷ []) []) (tt, tt) refl (omega arith) (refl, omega arith)
      (omega arith, (omega arith, (omega arith, tt))) (omega arith) (omega arith)
