-- ===== src/Identity/Blacklist/Lasting.antt =====
-- How long a revocation of app/core/jwt_blacklist.py lasts.
use text.Mathlib.Text.{◌==◌ as str_eq}
use text.Mathlib.TextPositions.{eq_refl}
use async_fastapi_template.Prelude.{
  ℕ, String, ◌+◌, ◌-◌, ◌≤◌, ◌<◌, ◌≡◌, refl, min, max, true, ◌&&◌, ◌||◌, ltb, leb, Bool, List, [],
  ◌∷◌, any, arith, inl, inr, Bool-cases,
}
use async_fastapi_template.Identity.Blacklist.{
  Settings, Member, RedisSet, blacklist_ttl_for, blacklist_token, blocks, is_token_blacklisted,
}

-- The entry is of the token and has not passed its own expiry.
abbrev pub lasts : ℕ → String → Member → Bool
lasts t jti m = leb t m.exp && str_eq m.jti jti

blocks-lasts : (t : ℕ) (jti : String) (m : Member) → blocks t jti m ≡ lasts t jti m
unfolding blocks
blocks-lasts t jti m = ground arith

any-lasts : (t : ℕ) (jti : String) (ms : List Member) → any (blocks t jti) ms ≡ any (lasts t jti) ms
any-lasts t jti [] = refl
any-lasts t jti (m ∷ ms) = rw (blocks-lasts t jti m, any-lasts t jti ms) refl

module _ (redis : RedisSet) (c : Settings) (on : c.enabled ≡ true) where
  -- With the blacklist enabled, a revoked token is refused from then on, through its last second,
  -- as long as the configured time to live has not run out and no other token of the user is
  -- revoked in the meantime.
  pub blacklist_token_refuses :
      (now t : ℕ) (m : Member) (s : redis.Store)
      → now ≤ t
      → t < now + min c.blacklist_ttl (max 1 (m.exp - now))
      → t ≤ m.exp
      → is_token_blacklisted redis c t m.jti (blacklist_token redis c now m s) ≡ true
  unfolding is_token_blacklisted blacklist_token blacklist_ttl_for blocks
  blacklist_token_refuses now t m s le lt e =
      rw
        (
          on,
          redis.smembers_expire now (min c.blacklist_ttl (max 1 (m.exp - now))) t
              (redis.sadd now m s) le lt,
          redis.smembers_sadd (blocks t m.jti) now m s,
        )
        (ground (arith, eq_refl m.jti, e))

  -- With the blacklist enabled: from the revocation of a token on, a token of the user is refused
  -- exactly as long as the time to live of the token revoked last runs, if it is that token or
  -- one of the list at that time, and not past its own expiry. So a later revocation with a short
  -- time to live ends the earlier ones.
  pub is_token_blacklisted-blacklist_token :
      (now t : ℕ) (m : Member) (s : redis.Store) (jti : String)
      → now ≤ t
      → is_token_blacklisted redis c t jti (blacklist_token redis c now m s) ≡ (
          ltb t (now + min c.blacklist_ttl (max 1 (m.exp - now)))
          && (lasts t jti m || any (lasts t jti) (redis.smembers now s)))
  unfolding is_token_blacklisted blacklist_token blacklist_ttl_for
  is_token_blacklisted-blacklist_token now t m s jti le =
      let ttl = min c.blacklist_ttl (max 1 (m.exp - now)) in
      let s' = redis.sadd now m s in
      elim (Bool-cases (ltb t (now + ttl))) [
        | inl lt ↦
            rw
              (
                on,
                lt,
                redis.smembers_expire now ttl t s' le (ground (arith, lt)),
                redis.smembers_sadd (blocks t jti) now m s,
                blocks-lasts t jti m,
                any-lasts t jti (redis.smembers now s),
              )
              refl
        | inr ge ↦ rw (on, ge, redis.smembers_expired now ttl t s' (ground (arith, ge))) refl
      ]
