-- ===== src/Billing/Proration/Bounds.antt =====
-- What proration can charge and credit.
use async_fastapi_template.Prelude.{
  ℕ, ◌-◌, ◌^◌, ◌≤◌, ◌<◌, ◌≡◌, ap, ◌∙◌, none, sub_ℕ-le, true, false, some, pos, arith,
}
use async_fastapi_template.Billing.Model.{Plan, Subscription}
use async_fastapi_template.Billing.Session.{ok}
use async_fastapi_template.Billing.Proration.{
  Float, clamp, fraction_remaining, upgrade_preview, decide_plan_change,
}

module _ (fl : Float) where
  open fl use {
    F, zero_f, one_f, lt_f, div_f, mul_f, of_int, round_f, zero_lt_one, lt_asym, mul_mono_left,
    mul_mono_right, mul_one_f, of_int_mono, round_mono, round-of_int,
  }

  clamp_bounds : (x : F) → (lt_f (clamp fl x) zero_f ≡ false) × (lt_f one_f (clamp fl x) ≡ false)
  unfolding clamp
  clamp_bounds x = ground (
    arith,
    zero_lt_one,
    lt_asym x one_f,
    lt_asym zero_f one_f,
    lt_asym zero_f x,
    lt_asym one_f one_f,
    lt_asym zero_f zero_f,
  )

  fraction_bounds :
      (start end now : ℕ)
      → (lt_f (fraction_remaining fl start end now) zero_f ≡ false)
        × (lt_f one_f (fraction_remaining fl start end now) ≡ false)
  unfolding fraction_remaining clamp
  fraction_bounds start end now = ground (
    arith,
    zero_lt_one,
    lt_asym zero_f zero_f,
    clamp_bounds (div_f (fl.seconds_between end now) (fl.seconds_between end start)),
  )

  -- A part of an amount is at most the amount.
  part-le : (n : ℕ) (f : F) → n ≤ 2 ^ 53 → lt_f one_f f ≡ false → round_f (mul_f (of_int n) f) ≤ n
  part-le n f small h =
      let e : round_f (mul_f (of_int n) one_f) ≡ n =
        ap round_f (mul_one_f (of_int n)) ∙ round-of_int n small in
      omega (arith, e, round_mono _ _ (mul_mono_right n f one_f h))

  -- Between plans of one currency, a higher price that a float holds exactly (at most 2^53) makes
  -- the change immediate. It credits at most the old price, charges at most the new one, and
  -- charges at least what it credits, so that the net amount is never negative.
  pub decide_plan_change_upgrade :
      (current new : Plan) (s : Subscription) (now : ℕ)
      → new.currency ≡ current.currency
      → current.price_cents < new.price_cents
      → new.price_cents ≤ 2 ^ 53
      → let p = upgrade_preview fl current new s now in
        (decide_plan_change fl current new s now
          ≡ ok (record { is_immediate = true; preview = some p; pending_plan_id = none }))
        × (p.credit_cents ≤ current.price_cents)
        × (p.charge_cents ≤ new.price_cents)
        × (p.credit_cents ≤ p.charge_cents)
        × (p.net_cents ≡ pos (p.charge_cents - p.credit_cents))
  unfolding decide_plan_change upgrade_preview
  decide_plan_change_upgrade current new s now same up small =
      let f = fraction_remaining fl s.current_period_start s.current_period_end now in
      let (low, high) = fraction_bounds s.current_period_start s.current_period_end now in
      let more : round_f (mul_f (of_int current.price_cents) f)
          ≤ round_f (mul_f (of_int new.price_cents) f) =
        round_mono _ _ (
          mul_mono_left (of_int current.price_cents) (of_int new.price_cents) f
            (of_int_mono current.price_cents new.price_cents (omega arith)) low) in
      (
        ground arith,
        part-le current.price_cents f (omega arith) high,
        part-le new.price_cents f small high,
        more,
        sub_ℕ-le _ _ more,
      )

  -- Between plans of one currency, a change to a lower or equal price moves no money: it is
  -- scheduled for the period's end.
  pub decide_plan_change_downgrade :
      (current new : Plan) (s : Subscription) (now : ℕ)
      → new.currency ≡ current.currency
      → new.price_cents ≤ current.price_cents
      → decide_plan_change fl current new s now
        ≡ ok (record { is_immediate = false; preview = none; pending_plan_id = some new.id })
  unfolding decide_plan_change
  decide_plan_change_downgrade current new s now same down = ground arith
