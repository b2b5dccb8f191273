-- ===== src/Webhooks/Delivery/Attempts.antt =====
-- The retries of a delivery end, and how.
use mathlib.Core.Path.{subst}
use async_fastapi_template.Prelude.{
  ℕ, zero, suc, ◌+◌, ◌≤◌, ◌<◌, ◌≡◌, refl, ◌∙◌, inl, inr, Bool, true, false, Option, none, some,
  List, [], ◌∷◌, arith, All, if◌then◌else◌, ltb, length, take, any, Bool-cases, lt→ltb,
}
use async_fastapi_template.Webhooks.Delivery.{
  Settings, Status, retrying, delivered, failed, Reply, http_error, other_error, response,
  is_success, Delivery, Webhook, retry, label_delivered, label_failed, compute_backoff,
  perform_delivery, deliver_webhook, is_delivered, run_task,
}

-- The endpoint took the run's attempt.
abbrev pub succeeds : ℕ × Reply → Bool
succeeds (now, http_error) = false
succeeds (now, other_error) = false
succeeds (now, response status) = is_success status

-- The endpoint answered, or httpx failed.
abbrev pub answered : ℕ × Reply → Bool
answered (now, http_error) = true
answered (now, other_error) = false
answered (now, response status) = true

-- A run on a delivery that still has an attempt left.
abbrev pub IsOpen : Delivery → Webhook → Type 0
IsOpen d h = (is_delivered d.status ≡ false) × (h.is_active ≡ true) × (d.attempt < d.max_attempts)

run_success :
    (c : Settings) (run : ℕ × Reply) (d : Delivery) (h : Webhook)
    → IsOpen d h
    → succeeds run ≡ true
    → ((deliver_webhook c run.0 run.1 (some (d, h))).0 ≡ label_delivered)
      × ((deliver_webhook c run.0 run.1 (some (d, h))).1
          ≡ some (perform_delivery c run.0 run.1 (d, h)).1)
      × ((perform_delivery c run.0 run.1 (d, h)).1.0.status ≡ delivered)
      × ((perform_delivery c run.0 run.1 (d, h)).1.0.attempt ≡ d.attempt + 1)
      × ((perform_delivery c run.0 run.1 (d, h)).1.1.failure_count ≡ 0)
unfolding deliver_webhook
run_success c (now, http_error) d h o s = absurd cc
run_success c (now, other_error) d h o s = absurd cc
run_success c (now, response status) d h o s = ground arith

run_failure :
    (c : Settings) (run : ℕ × Reply) (d : Delivery) (h : Webhook)
    → IsOpen d h
    → answered run ≡ true
    → succeeds run ≡ false
    → let (d', h') = (perform_delivery c run.0 run.1 (d, h)).1 in
      ((deliver_webhook c run.0 run.1 (some (d, h))).0 ≡ (
        if ltb (d.attempt + 1) d.max_attempts
        then retry (compute_backoff c (d.attempt + 1))
        else label_failed))
      × ((deliver_webhook c run.0 run.1 (some (d, h))).1 ≡ some (d', h'))
      × (d'.status ≡ (if ltb (d.attempt + 1) d.max_attempts then retrying else failed))
      × (d'.attempt ≡ d.attempt + 1)
      × (d'.max_attempts ≡ d.max_attempts)
      × (h'.is_active ≡ true)
unfolding deliver_webhook
run_failure c (now, http_error) d h o a s = ground arith
run_failure c (now, other_error) d h o a s = absurd cc
run_failure c (now, response status) d h o a s = ground arith

module _ (c : Settings) (now : ℕ) (reply : Reply) (runs : List (ℕ × Reply)) (n : ℕ)
    (rows : Option (Delivery × Webhook)) where
  after_delivered :
      (deliver_webhook c now reply rows).0 ≡ label_delivered
      → run_task c n ((now, reply) ∷ runs) rows
        ≡ (some label_delivered, (deliver_webhook c now reply rows).1)
  unfolding run_task
  after_delivered e = rw (run_task, e) refl

  after_failed :
      (deliver_webhook c now reply rows).0 ≡ label_failed
      → run_task c n ((now, reply) ∷ runs) rows
        ≡ (some label_failed, (deliver_webhook c now reply rows).1)
  unfolding run_task
  after_failed e = rw (run_task, e) refl

  after_retry :
      (delay : ℕ)
      → (deliver_webhook c now reply rows).0 ≡ retry delay
      → ltb n c.max_retries ≡ true
      → run_task c n ((now, reply) ∷ runs) rows
        ≡ run_task c (n + 1) runs (deliver_webhook c now reply rows).1
  unfolding run_task
  after_retry delay e l = rw (run_task, e, l) refl

-- The delivery has the status, and at most so many attempts were counted.
abbrev pub Ends : Option (Delivery × Webhook) → Status → ℕ → Type 0
Ends none s n = ⊥
Ends (some (d, h)) s n = (d.status ≡ s) × (d.attempt ≤ n)

-- A delivery with `k + 1` attempts left, not delivered yet and on an active webhook, for which
-- the queue still allows `k` retries and whose posts raise nothing but errors of httpx, ends
-- within `k + 1` runs of the task: as delivered if one of the next `k + 1` attempts is answered
-- with a success status, and as failed if none is. It never counts more than its maximum of
-- attempts.
pub run_task_finishes :
    (c : Settings) (k n : ℕ) (runs : List (ℕ × Reply)) (d : Delivery) (h : Webhook)
    → IsOpen d h
    → d.attempt + suc k ≡ d.max_attempts
    → suc k ≤ length runs
    → n + k ≤ c.max_retries
    → All (λ run. answered run ≡ true) runs
    → let out = run_task c n runs (some (d, h)) in
      let good = any succeeds (take (suc k) runs) in
      (out.0 ≡ some (if good then label_delivered else label_failed))
      × Ends out.1 (if good then delivered else failed) d.max_attempts
run_task_finishes c k n [] d h o e l b a = absurd (omega arith)
run_task_finishes c zero n ((now, reply) ∷ runs) d h o e l b a =
    elim (Bool-cases (succeeds (now, reply))) [
      | inl s ↦
          let (label, rows, status, count, _) = run_success c (now, reply) d h o s in
          rw (s, after_delivered c now reply runs n (some (d, h)) label, rows)
            (refl, (status, omega arith))
      | inr s ↦
          let (label, rows, status, count, _, _) = run_failure c (now, reply) d h o a.0 s in
          let last : ltb (d.attempt + 1) d.max_attempts ≡ false = ground arith in
          rw (s, after_failed c now reply runs n (some (d, h)) (label ∙ rw last refl), rows)
            (refl, (status ∙ rw last refl, omega arith))
    ]
run_task_finishes c (suc k) n ((now, reply) ∷ runs) d h o e l b a =
    elim (Bool-cases (succeeds (now, reply))) [
      | inl s ↦
          let (label, rows, status, count, _) = run_success c (now, reply) d h o s in
          rw (s, after_delivered c now reply runs n (some (d, h)) label, rows)
            (refl, (status, omega arith))
      | inr s ↦
          let (label, rows, status, count, same, active) = run_failure c (now, reply) d h o a.0 s in
          let more = lt→ltb (d.attempt + 1) d.max_attempts (omega arith) in
          rw
            (
              s,
              after_retry c now reply runs n (some (d, h)) (compute_backoff c (d.attempt + 1))
                  (label ∙ rw more refl) (lt→ltb n c.max_retries (omega (arith, b))),
              rows,
            )
            (let (l', e') =
                run_task_finishes c k (n + 1) runs _ _ (rw (status, more) refl, active, omega arith)
                  (omega arith) (omega arith) (omega (arith, b)) a.1 in
              (
                l',
                subst
                    (λ m.
                      Ends
                        (run_task c (n + 1) runs (some (perform_delivery c now reply (d, h)).1)).1
                        (if any succeeds (take (suc k) runs) then delivered else failed) m)
                    same e',
              ))
    ]
