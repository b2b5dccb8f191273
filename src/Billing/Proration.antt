-- ===== src/Billing/Proration.antt =====
-- Period math and hybrid proration of app/billing/services/billing.py. Python's floats are a
-- parameter: the operations that the code uses, with the laws of IEEE 754 that the proofs rest on.
pub mod Bounds
use async_fastapi_template.Prelude.{
  ℕ, ◌+◌, ◌*◌, ◌^◌, ◌≤◌, ◌≡◌, Bool, true, false, not, Option, none, some, ltb, ◌==◌, if◌then◌else◌,
  ℤ, sub_ℕ,
}
use async_fastapi_template.Billing.Model.{Interval, monthly, yearly, Plan, Subscription}
use async_fastapi_template.Billing.Session.{Result, ok, err, value_error}

pub record Float : Type 1 where
  pub F : Type 0
  pub zero_f : F
  pub one_f : F
  pub lt_f : F → F → Bool
  pub div_f : F → F → F
  pub mul_f : F → F → F
  -- `float(n)`
  pub of_int : ℕ → F
  -- `round(x)` of a float that is not negative
  pub round_f : F → ℕ
  -- `(a - b).total_seconds()` of two datetimes
  pub seconds_between : ℕ → ℕ → F
  pub zero_lt_one : lt_f one_f zero_f ≡ false
  pub lt_asym : (a b : F) → lt_f a b ≡ true → lt_f b a ≡ false
  pub mul_mono_left :
      (a b f : F) → lt_f b a ≡ false → lt_f f zero_f ≡ false → lt_f (mul_f b f) (mul_f a f) ≡ false
  pub mul_mono_right :
      (n : ℕ) (f g : F) → lt_f g f ≡ false → lt_f (mul_f (of_int n) g) (mul_f (of_int n) f) ≡ false
  pub mul_one_f : (a : F) → mul_f a one_f ≡ a
  pub of_int_mono : (n m : ℕ) → n ≤ m → lt_f (of_int m) (of_int n) ≡ false
  pub round_mono : (a b : F) → lt_f b a ≡ false → round_f a ≤ round_f b
  pub round-of_int : (n : ℕ) → n ≤ 2 ^ 53 → round_f (of_int n) ≡ n

abbrev pub day : ℕ
day = 86400000000

-- `INTERVAL_DELTA`
unfoldable pub interval_delta : Interval → ℕ
interval_delta monthly = 30 * day
interval_delta yearly = 365 * day

-- `next_period_end`
unfoldable pub next_period_end : Plan → ℕ → ℕ
unfolding interval_delta
next_period_end plan start = start + interval_delta plan.interval

-- `PlanChangePreview`
pub record Preview : Type 0 where
  pub credit_cents : ℕ
  pub charge_cents : ℕ
  pub net_cents : ℤ

-- `PlanChangeDecision`; its `effective` is "immediate" or "scheduled".
pub record Decision : Type 0 where
  pub is_immediate : Bool
  pub preview : Option Preview
  pub pending_plan_id : Option ℕ

module _ (fl : Float) where
  open fl use {F, zero_f, one_f, lt_f, div_f, mul_f, of_int, round_f, seconds_between}

  -- Python's `min(1.0, x)` and `max(0.0, x)`
  unfoldable pub clamp : F → F
  clamp x = let y = if lt_f x one_f then x else one_f in if lt_f zero_f y then y else zero_f

  -- `fraction_remaining`
  unfoldable pub fraction_remaining : ℕ → ℕ → ℕ → F
  unfolding clamp
  fraction_remaining start end now =
      if not (lt_f zero_f (seconds_between end start))
      then zero_f
      else clamp (div_f (seconds_between end now) (seconds_between end start))

  -- `compute_unused_credit`
  unfoldable pub compute_unused_credit : Plan → Subscription → ℕ → ℕ
  compute_unused_credit plan s now = round_f (
      mul_f (of_int plan.price_cents)
        (fraction_remaining s.current_period_start s.current_period_end now))

  -- `compute_prorated_charge`
  unfoldable pub compute_prorated_charge : Plan → ℕ → ℕ → ℕ → ℕ
  compute_prorated_charge plan start end now =
      round_f (mul_f (of_int plan.price_cents) (fraction_remaining start end now))

  -- The preview of an upgrade
  unfoldable pub upgrade_preview : Plan → Plan → Subscription → ℕ → Preview
  unfolding compute_unused_credit compute_prorated_charge
  upgrade_preview current new s now =
      let credit = compute_unused_credit current s now in
      let charge = compute_prorated_charge new s.current_period_start s.current_period_end now in
      record { credit_cents = credit; charge_cents = charge; net_cents = sub_ℕ charge credit }

  -- `decide_plan_change`
  unfoldable pub decide_plan_change : Plan → Plan → Subscription → ℕ → Result Decision
  decide_plan_change current new s now =
      if not (new.currency == current.currency)
      then err value_error
      else if ltb current.price_cents new.price_cents
      then ok (record {
        is_immediate = true;
        preview = some (upgrade_preview current new s now);
        pending_plan_id = none;
      })
      else ok (record { is_immediate = false; preview = none; pending_plan_id = some new.id })
