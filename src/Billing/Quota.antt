-- ===== src/Billing/Quota.antt =====
-- app/billing/api/deps.py: the request quota of a tenant's plan and its cache of entitlements. The
-- tables are `none` where the query raises. The monotonic clock counts whole seconds.
pub mod Limit
use async_fastapi_template.Prelude.{
  ℕ, ◌+◌, Bool, true, false, Option, none, some, List, [], ◌∷◌, ltb, ◌==◌, if◌then◌else◌, find,
  is_some,
}
use async_fastapi_template.Billing.Model.{Metering, Plan, Subscription}
use async_fastapi_template.Billing.Session.{
  ⊤, User, Tables, Result, ok, err, rate_limited, get_plan, get_live_for_tenant,
}
use async_fastapi_template.Billing.Usage.{Redis, increment}

-- `DEFAULT_DIMENSION`, the name "api_requests"
abbrev pub default_dimension : ℕ
default_dimension = 0

-- `_Entitlements`
pub record Entitlements : Type 0 where
  pub config : List Metering
  pub period_start : Option ℕ
  pub period_end : Option ℕ
  pub expires_at : ℕ

-- `_Entitlements.fresh`
abbrev pub is_fresh : ℕ → Entitlements → Bool
is_fresh ticks e = ltb ticks e.expires_at

-- `_entitlements_cache`, the newest entry of a tenant first
abbrev pub Cache : Type 0
Cache = List (ℕ × Entitlements)

unfoldable pub cached_for : ℕ → Cache → Option Entitlements
cached_for tenant [] = none
cached_for tenant ((t, e) ∷ rows) =
    let rest = cached_for tenant rows in if t == tenant then some e else rest

-- The entitlements of a subscription, or the sentinel of a tenant without one
unfoldable pub entitlements_of : ℕ → Tables → Option Subscription → Entitlements
entitlements_of ticks t none = record {
  config = [];
  period_start = none;
  period_end = none;
  expires_at = ticks + 60;
}
entitlements_of ticks t (some s) = record {
  config = elim (get_plan t s.plan_id) [ some plan ↦ plan.metering | none ↦ [] ];
  period_start = some s.current_period_start;
  period_end = some s.current_period_end;
  expires_at = ticks + 60;
}

-- `cached if cached.period_start is not None else None`
abbrev pub unless_sentinel : Entitlements → Option Entitlements
unless_sentinel e = if is_some e.period_start then some e else none

-- The part of `resolve_entitlements` behind the cache; `none` where it raises
unfoldable pub look_up : ℕ → ℕ → Option Tables → Cache → Option (Option Entitlements) × Cache
unfolding entitlements_of
look_up ticks tenant none cache = (none, cache)
look_up ticks tenant (some t) cache =
    let e = entitlements_of ticks t (get_live_for_tenant t (some tenant)) in
    (some (unless_sentinel e), (tenant, e) ∷ cache)

-- `resolve_entitlements`
unfoldable pub resolve_entitlements :
    ℕ → ℕ → Option Tables → Cache → Option (Option Entitlements) × Cache
unfolding cached_for look_up
resolve_entitlements ticks tenant db cache = elim (cached_for tenant cache) [
  | none ↦ look_up ticks tenant db cache
  | some e ↦
      if is_fresh ticks e then (some (unless_sentinel e), cache) else look_up ticks tenant db cache
]

-- The counting of `enforce_api_quota`: whether the request is over the quota
unfoldable pub count_request : Redis → ℕ → ℕ → Option Entitlements → Bool × Redis
count_request redis now tenant none = (false, redis)
count_request redis now tenant (some e) =
    elim (find (λ (m : Metering). m.dimension == default_dimension) e.config) [
      | none ↦ (false, redis)
      | some cfg ↦ elim e.period_start [
        | none ↦ (false, redis)
        | some start ↦ elim e.period_end [
          | none ↦ (false, redis)
          | some end ↦
              let (used, redis') = increment redis tenant default_dimension start end 1 now in
              (elim used [ none ↦ false | some n ↦ ltb cfg.included_quantity n ], redis')
        ]
      ]
    ]

-- `enforce_api_quota` for the tenant of the user, if there is one
unfoldable pub enforce_api_quota :
    Redis → Bool → ℕ → ℕ → Option ℕ → Option Tables → Cache → Result ⊤ × (Redis × Cache)
unfolding resolve_entitlements count_request
enforce_api_quota redis enabled ticks now none db cache = (ok tt, (redis, cache))
enforce_api_quota redis enabled ticks now (some tenant) db cache =
    if enabled
    then (let (found, cache') = resolve_entitlements ticks tenant db cache in
        elim found [
          | none ↦ (ok tt, (redis, cache'))
          | some ent ↦
              let (over, redis') = count_request redis now tenant ent in
              (if over then err rate_limited else ok tt, (redis', cache'))
        ])
    else (ok tt, (redis, cache))
