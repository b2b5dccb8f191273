-- ===== src/Identity/Tests.antt =====
-- A revocation list in memory, whose expiry is kept beside it.
pub mod Fixtures
mod Tokens
mod SignIn
mod Rows
mod Factor
use async_fastapi_template.Prelude.{
  ℕ, min, max, ◌-◌, ◌+◌, ◌≤◌, ◌<◌, ◌≡◌, refl, Bool, true, ◌&&◌, ◌||◌, List, [], ◌∷◌, ltb, any,
  if◌then◌else◌, arith,
}
use async_fastapi_template.Identity.Blacklist.{
  Settings, Member, RedisSet, blacklist_ttl_for, blacklist_token, blocks, is_token_blacklisted,
}
use async_fastapi_template.Identity.Blacklist.Lasting.{
  lasts, blacklist_token_refuses, is_token_blacklisted-blacklist_token,
}

abbrev pub Kept : Type 0
Kept = ℕ × List Member

abbrev pub members : ℕ → Kept → List Member
members now (until, ms) = if ltb now until then ms else []

abbrev pub add : ℕ → Member → Kept → Kept
add now m (until, ms) = if ltb now until then (until, m ∷ ms) else (now + 1, m ∷ [])

pub any-add :
    (p : Member → Bool) (now : ℕ) (m : Member) (s : Kept)
    → any p (members now (add now m s)) ≡ (p m || any p (members now s))
any-add p now m (until, ms) = ground arith

abbrev pub expire_at : ℕ → ℕ → Kept → Kept
expire_at now ttl s = (now + ttl, members now s)

pub expire-kept :
    (now ttl t : ℕ) (s : Kept)
    → now ≤ t
    → t < now + ttl
    → members t (expire_at now ttl s) ≡ members now s
expire-kept now ttl t (until, ms) le lt = ground arith

pub expire-gone : (now ttl t : ℕ) (s : Kept) → now + ttl ≤ t → members t (expire_at now ttl s) ≡ []
expire-gone now ttl t (until, ms) le = ground arith

abbrev pub memory : RedisSet
memory = record {
  Store = Kept;
  smembers = members;
  sadd = add;
  expire = expire_at;
  smembers_sadd = any-add;
  smembers_expire = expire-kept;
  smembers_expired = expire-gone;
}

abbrev pub settings : Settings
settings = record { enabled = true; blacklist_ttl = 3600 }

abbrev token : Member
token = record { jti = "a"; exp = 500 }

abbrev short : Member
short = record { jti = "b"; exp = 110 }

-- The token "a" expires at 500, but after the revocation of "b" at 101 it is refused only until
-- 110.
is_token_blacklisted-blacklist_token_example :
    let s = blacklist_token memory settings 100 token (0, []) in
    is_token_blacklisted memory settings 200 "a" (blacklist_token memory settings 101 short s) ≡ (
      ltb 200 (101 + min 3600 (max 1 (110 - 101)))
      && (lasts 200 "a" short || any (lasts 200 "a") (memory.smembers 101 s)))
is_token_blacklisted-blacklist_token_example =
    is_token_blacklisted-blacklist_token memory settings refl 101 200 short
      (blacklist_token memory settings 100 token (0, [])) "a" (omega arith)
