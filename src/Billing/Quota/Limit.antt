-- ===== src/Billing/Quota/Limit.antt =====
-- What `enforce_api_quota` of app/billing/api/deps.py blocks.
use async_fastapi_template.Prelude.{
  ℕ, ◌+◌, ◌≡◌, refl, ◌∙◌, Bool, true, false, Option, none, some, ltb, ◌==◌, if◌then◌else◌, find,
  arith,
}
use async_fastapi_template.Billing.Model.{Metering}
use async_fastapi_template.Billing.Session.{Tables, ok, err, rate_limited}
use async_fastapi_template.Billing.Usage.{Redis, get_usage, increment, counter_key}
use async_fastapi_template.Billing.Usage.Laws.{key_eq_refl, increment-get_usage}
use async_fastapi_template.Billing.Quota.{
  default_dimension, Entitlements, Cache, resolve_entitlements, count_request, enforce_api_quota,
}

-- A request with a metered period is the increment of its counter.
count_request-increment :
    (redis : Redis) (now tenant start end : ℕ) (e : Entitlements) (cfg : Metering)
    → find (λ (m : Metering). m.dimension == default_dimension) e.config ≡ some cfg
    → e.period_start ≡ some start
    → e.period_end ≡ some end
    → let (used, after) = increment redis tenant default_dimension start end 1 now in
      count_request redis now tenant (some e)
      ≡ (elim used [ none ↦ false | some n ↦ ltb cfg.included_quantity n ], after)
unfolding count_request increment
count_request-increment redis now tenant start end e cfg metered s t =
    rw (count_request, metered, s, t) refl

-- With Redis up and entitlements that meter requests: a request is counted once, and it is
-- refused exactly if the count after it is above the included quantity.
pub enforce_api_quota-get_usage :
    (redis : Redis) (cs : redis.Store) (ticks now tenant start end : ℕ) (db : Option Tables)
    (cache : Cache) (e : Entitlements) (cfg : Metering)
    → redis.state ≡ some cs
    → (resolve_entitlements ticks tenant db cache).0 ≡ some (some e)
    → find (λ (m : Metering). m.dimension == default_dimension) e.config ≡ some cfg
    → e.period_start ≡ some start
    → e.period_end ≡ some end
    → let used = get_usage redis tenant default_dimension start in
      let (r, (redis', cache')) = enforce_api_quota redis true ticks now (some tenant) db cache in
      (r ≡ (if ltb cfg.included_quantity (used + 1) then err rate_limited else ok tt))
      × (get_usage redis' tenant default_dimension start ≡ used + 1)
unfolding enforce_api_quota
enforce_api_quota-get_usage redis cs ticks now tenant start end db cache e cfg up found metered s
      t =
    let (value, after) = increment-get_usage redis cs tenant 0 start tenant 0 start end 1 now up in
    let same = key_eq_refl (counter_key tenant 0 start) in
    rw (found, count_request-increment redis now tenant start end e cfg metered s t, value)
      (refl, after ∙ rw same refl)

-- The quota fails open: without Redis no request is refused, whatever is cached or stored.
pub enforce_api_quota_open :
    (redis : Redis) (enabled : Bool) (ticks now : ℕ) (tenant : Option ℕ) (db : Option Tables)
    (cache : Cache)
    → redis.state ≡ none
    → (enforce_api_quota redis enabled ticks now tenant db cache).0 ≡ ok tt
unfolding enforce_api_quota count_request increment
enforce_api_quota_open redis enabled ticks now none db cache down = refl
enforce_api_quota_open redis enabled ticks now (some tenant) db cache down = ground (arith, down)
