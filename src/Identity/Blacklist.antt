-- ===== src/Identity/Blacklist.antt =====
-- The revocation list of app/core/jwt_blacklist.py, for one user. Times are in whole seconds. A
-- member `{jti}:{exp}` is the pair that `split(":", 1)` reads back: a jti holds no colon.
pub mod Lasting
use text.Mathlib.Text.{◌==◌ as str_eq}
use async_fastapi_template.Prelude.{
  ℕ, String, ◌+◌, ◌-◌, ◌≤◌, ◌<◌, ◌≡◌, min, max, Bool, true, false, not, ◌&&◌, ◌||◌, Option, none,
  some, List, [], ◌∷◌, ltb, if◌then◌else◌, any,
}

pub record Settings : Type 0 where
  pub enabled : Bool
  pub blacklist_ttl : ℕ

pub record Member : Type 0 where
  pub jti : String
  pub exp : ℕ

-- The Redis set `jwt:blacklist:{user_id}`: what `SMEMBERS` returns at a time, `SADD`, and `EXPIRE`,
-- which replaces the time at which the whole key goes.
pub record RedisSet : Type 1 where
  pub Store : Type 0
  pub smembers : ℕ → Store → List Member
  pub sadd : ℕ → Member → Store → Store
  pub expire : ℕ → ℕ → Store → Store
  pub smembers_sadd :
      (p : Member → Bool) (now : ℕ) (m : Member) (s : Store)
      → any p (smembers now (sadd now m s)) ≡ (p m || any p (smembers now s))
  pub smembers_expire :
      (now ttl t : ℕ) (s : Store)
      → now ≤ t
      → t < now + ttl
      → smembers t (expire now ttl s) ≡ smembers now s
  pub smembers_expired :
      (now ttl t : ℕ) (s : Store) → now + ttl ≤ t → smembers t (expire now ttl s) ≡ []

-- The `ttl` of `blacklist_token`
unfoldable pub blacklist_ttl_for : Settings → ℕ → ℕ → ℕ
blacklist_ttl_for c now exp = min c.blacklist_ttl (max 1 (exp - now))

-- `blacklist_token`
unfoldable pub blacklist_token :
    (redis : RedisSet) → Settings → ℕ → Member → redis.Store → redis.Store
unfolding blacklist_ttl_for
blacklist_token redis c now m s =
    if c.enabled then redis.expire now (blacklist_ttl_for c now m.exp) (redis.sadd now m s) else s

-- The test of the loop of `is_token_blacklisted`
unfoldable pub blocks : ℕ → String → Member → Bool
blocks now jti m = not (ltb m.exp now) && str_eq m.jti jti

-- `is_token_blacklisted`
unfoldable pub is_token_blacklisted :
    (redis : RedisSet) → Settings → ℕ → String → redis.Store → Bool
unfolding blocks
is_token_blacklisted redis c now jti s =
    if c.enabled then any (blocks now jti) (redis.smembers now s) else false
