-- ===== src/Billing/Usage/Laws.antt =====
-- The counters of app/billing/services/usage.py behave as sums per tenant, dimension and period.
use async_fastapi_template.Prelude.{ℕ, ◌+◌, ◌≤◌, ◌≡◌, true, some, if◌then◌else◌, arith}
use async_fastapi_template.Billing.Usage.{
  Key, key_eq, counter_key, Redis, get_usage, increment, ttl_for,
}

pub key_eq_refl : (k : Key) → key_eq k k ≡ true
key_eq_refl k = ground arith

ttl_for-positive : (end now : ℕ) → 1 ≤ ttl_for end now
unfolding ttl_for
ttl_for-positive end now = ground arith

-- With Redis up, `increment` returns the usage after the addition, a later `get_usage` of the
-- same counter reads that value, and a counter with another key (tenant, dimension or the second
-- of the period start) reads as before.
pub increment-get_usage :
    (redis : Redis) (cs : redis.Store) (t d s t' d' s' end amount now : ℕ)
    → redis.state ≡ some cs
    → let (v, after) = increment redis t d s end amount now in
      (v ≡ some (get_usage redis t d s + amount))
      × (get_usage after t' d' s' ≡ (
          if key_eq (counter_key t d s) (counter_key t' d' s')
          then get_usage redis t d s + amount
          else get_usage redis t' d' s'))
unfolding increment get_usage
increment-get_usage redis cs t d s t' d' s' end amount now up =
    let k = counter_key t d s in
    let j = counter_key t' d' s' in
    rw up (
      ground (arith, key_eq_refl k, redis.get_incrby k k amount cs),
      ground (
        arith,
        redis.get_incrby k j amount cs,
        redis.get_expire k j (ttl_for end now) (redis.incrby k amount cs)
            (ttl_for-positive end now),
      ),
    )
