-- ===== src/Billing/Usage.antt =====
-- app/billing/services/usage.py: period-scoped usage counters in Redis, and overage.
-- `none` for the store is a Redis that cannot be reached: the service logs and fails open.
pub mod Laws
use async_fastapi_template.Prelude.{
  ℕ, ◌+◌, ◌-◌, ◌*◌, ◌/◌, max, Bool, true, false, ◌&&◌, Option, none, some, List, [], ◌∷◌, ◌==◌, leb,
  ◌≤◌, ◌≡◌, if◌then◌else◌,
}

-- What `counter_key` is built from; the period start in whole seconds.
pub record Key : Type 0 where
  pub tenant_id : ℕ
  pub dimension : ℕ
  pub start_seconds : ℕ

abbrev pub key_eq : Key → Key → Bool
key_eq a b =
    a.tenant_id == b.tenant_id && (a.dimension == b.dimension && a.start_seconds == b.start_seconds)

abbrev pub microseconds : ℕ
microseconds = 1000000

-- `counter_key`
unfoldable pub counter_key : ℕ → ℕ → ℕ → Key
counter_key tenant dimension period_start = record {
  tenant_id = tenant;
  dimension = dimension;
  start_seconds = period_start / microseconds;
}

abbrev pub or_zero : Option ℕ → ℕ
or_zero none = 0
or_zero (some v) = v

-- The Redis client and its state, `none` when the server cannot be reached. `INCRBY` starts a
-- missing key at 0, `EXPIRE` with a positive time keeps the value, and no other key is touched.
pub record Redis : Type 1 where
  pub Store : Type 0
  pub state : Option Store
  pub get : Key → Store → Option ℕ
  pub incrby : Key → ℕ → Store → Store
  pub expire : Key → ℕ → Store → Store
  pub get_incrby :
      (k j : Key) (amount : ℕ) (s : Store)
      → get j (incrby k amount s)
        ≡ (if key_eq k j then some (or_zero (get k s) + amount) else get j s)
  pub get_expire : (k j : Key) (ttl : ℕ) (s : Store) → 1 ≤ ttl → get j (expire k ttl s) ≡ get j s

-- `ttl_for`; a period end in the past counts as a negative number of seconds, which the grace of
-- an hour absorbs up to an hour: `int` truncates towards zero.
unfoldable pub ttl_for : ℕ → ℕ → ℕ
ttl_for period_end now = max 60 (
    if leb now period_end
    then (period_end - now) / microseconds + 3600
    else 3600 - (now - period_end) / microseconds)

-- `get_usage`
unfoldable pub get_usage : Redis → ℕ → ℕ → ℕ → ℕ
get_usage redis tenant dimension start = elim redis.state [
  | none ↦ 0
  | some s ↦ or_zero (redis.get (counter_key tenant dimension start) s)
]

-- `increment`: the new value, or `none` on failure, and Redis after the pipeline.
unfoldable pub increment : Redis → ℕ → ℕ → ℕ → ℕ → ℕ → ℕ → Option ℕ × Redis
increment redis tenant dimension start end amount now = elim redis.state [
  | none ↦ (none, redis)
  | some s ↦
      let k = counter_key tenant dimension start in
      let s' = redis.incrby k amount s in
      (redis.get k s', record redis { state = some (redis.expire k (ttl_for end now) s') })
]

-- `compute_overage`
unfoldable pub compute_overage : ℕ → ℕ → ℕ → ℕ
compute_overage used included unit = (used - included) * unit
