-- ===== src/Billing/Tests/Calls.antt =====
-- The subscription endpoints on concrete rows, with prices as fixed-point numbers.
use native.Mathlib.Nat.{mul-le-mul_left, mul_comm}
use async_fastapi_template.Prelude.{
  ℕ, ◌-◌, ◌*◌, ◌/◌, ◌≤◌, ◌≡◌, refl, true, false, none, some, [], ◌∷◌, ltb, pos, arith,
}
use async_fastapi_template.Billing.Model.{active, canceled, is_live}
use async_fastapi_template.Billing.Session.{World, ok, integrity}
use async_fastapi_template.Billing.Stripe.{add_subscription}
use async_fastapi_template.Billing.Proration.{Float, upgrade_preview, decide_plan_change}
use async_fastapi_template.Billing.Proration.Bounds.{decide_plan_change_upgrade}
use async_fastapi_template.Billing.Endpoints.{
  subscribed, subscribe, cancel_subscription, resume_subscription,
}
use async_fastapi_template.Billing.Endpoints.Subscribe.{subscribe_stores}
use async_fastapi_template.Billing.Endpoints.Cancel.{cancel_resume}
use async_fastapi_template.Billing.Tests.Data.{basic, pro, member, owner, world, bus}

scaled : (n : ℕ) → n * 1000000 / 1000000 ≡ n
scaled n = omega arith

scaled_mono : (m n : ℕ) → m ≤ n → ltb (n / 1000000) (m / 1000000) ≡ false
scaled_mono m n h = ground arith

product_mono : (n f g : ℕ) → ltb g f ≡ false → ltb (n * g / 1000000) (n * f / 1000000) ≡ false
product_mono n f g h = scaled_mono (n * f) (n * g) (mul-le-mul_left n (ground arith))

factor_mono :
    (a b f : ℕ)
    → ltb b a ≡ false
    → ltb f 0 ≡ false
    → ltb (b * f / 1000000) (a * f / 1000000) ≡ false
factor_mono a b f h k = rw (mul_comm b f, mul_comm a f) (product_mono f a b h)

asym : (a b : ℕ) → ltb a b ≡ true → ltb b a ≡ false
asym a b h = ground arith

of_int_mono : (n m : ℕ) → n ≤ m → ltb (m * 1000000) (n * 1000000) ≡ false
of_int_mono n m h = ground arith

round_mono : (a b : ℕ) → ltb b a ≡ false → a / 1000000 ≤ b / 1000000
round_mono a b h = ground arith

-- Fixed-point numbers with six decimals
abbrev fixed : Float
fixed = record {
  F = ℕ;
  zero_f = 0;
  one_f = 1000000;
  lt_f = ltb;
  div_f = λ a b. a * 1000000 / b;
  mul_f = λ a b. a * b / 1000000;
  of_int = λ n. n * 1000000;
  round_f = λ a. a / 1000000;
  seconds_between = λ a b. a - b;
  zero_lt_one = refl;
  lt_asym = asym;
  mul_mono_left = factor_mono;
  mul_mono_right = λ n f g h. product_mono (n * 1000000) f g h;
  mul_one_f = scaled;
  of_int_mono = of_int_mono;
  round_mono = round_mono;
  round-of_int = λ n h. scaled n;
}

decide_plan_change_upgrade_example :
    let p = upgrade_preview fixed basic pro (member active) 31000000 in
    (decide_plan_change fixed basic pro (member active) 31000000
      ≡ ok (record { is_immediate = true; preview = some p; pending_plan_id = none }))
    × (p.credit_cents ≤ 1000)
    × (p.charge_cents ≤ 3000)
    × (p.credit_cents ≤ p.charge_cents)
    × (p.net_cents ≡ pos (p.charge_cents - p.credit_cents))
decide_plan_change_upgrade_example =
    decide_plan_change_upgrade fixed basic pro (member active) 31000000 refl (omega arith)
      (omega arith)

abbrev fresh : World
fresh = world (member canceled ∷ []) []

subscribe_stores_example :
    let s = subscribed 20 1000 (some 7) basic in
    ((subscribe 1000 bus owner 1 fresh).1.stored ≡ add_subscription s fresh.session)
    × (integrity (add_subscription s fresh.session) ≡ true)
    × (is_live s ≡ true)
unfolding integrity
subscribe_stores_example = subscribe_stores 1000 bus owner 1 7 basic fresh refl refl refl refl refl

cancel_resume_example :
    let w = world (member active ∷ []) [] in
    let w' = (cancel_subscription 1000 bus owner false w).1 in
    let w'' = (resume_subscription bus owner w').1 in
    (w'.stored ≡ record (w.session) {
      subscriptions = record (member active) { cancel_at_period_end = true } ∷ [];
    })
    × (w''.stored ≡ w.session)
unfolding integrity
cancel_resume_example =
    cancel_resume owner (member active) (world (member active ∷ []) []) refl (tt, tt) refl 1000 bus
      bus refl refl
