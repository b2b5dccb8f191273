-- ===== src/Identity/Sessions.antt =====
-- The sessions of app/core/jwt_blacklist.py, for one user: a sorted set of jtis, a hash of metadata
-- for each, the revocation list, and the time of the last revocation of everything.
pub mod Revoked
use text.Mathlib.Text.{◌==◌ as str_eq}
use async_fastapi_template.Prelude.{
  ℕ, String, ◌+◌, ◌≤◌, ◌≡◌, Bool, true, false, Option, none, some, List, [], ◌∷◌, ltb, length,
  if◌then◌else◌,
}
use async_fastapi_template.Identity.Blacklist.{
  Settings, RedisSet, blacklist_ttl_for, blacklist_token,
}

pub data TokenType : Type 0 where
  access refresh : TokenType

-- `SessionCreatePayload`, and the hash that `store_session` makes of it
pub record Session : Type 0 where
  pub jti : String
  pub token_type : TokenType
  pub ip : Option String
  pub user_agent : Option String
  pub created_at : ℕ
  pub expires_at : ℕ

-- The Redis types behind the four kinds of key. Each operation takes the time; `expire` replaces
-- the time to live of its key.
pub record RedisSessions : Type 1 where
  pub set : RedisSet
  pub Zset : Type 0
  pub zadd : ℕ → String → ℕ → Zset → Zset
  pub zrem : ℕ → String → Zset → Zset
  pub zexpire : ℕ → ℕ → Zset → Zset
  pub zdelete : Zset → Zset
  pub zrevrange : ℕ → Zset → List String
  pub Hash : Type 0
  pub hset : ℕ → Session → Hash → Hash
  pub hexpire : ℕ → ℕ → Hash → Hash
  pub hdelete : Hash → Hash
  pub hgetall : ℕ → Hash → Option Session
  pub Cell : Type 0
  pub setex : ℕ → ℕ → ℕ → Cell → Cell
  pub get_cell : ℕ → Cell → Option ℕ
  pub delete_set : set.Store → set.Store
  pub zrevrange_deleted : (t : ℕ) (z : Zset) → zrevrange t (zdelete z) ≡ []
  pub hgetall_deleted : (t : ℕ) (h : Hash) → hgetall t (hdelete h) ≡ none
  pub hgetall_hset :
      (now ttl t : ℕ) (s : Session) (h : Hash)
      → now ≤ t
      → hgetall t (hexpire now ttl (hset now s h)) ≡ (if ltb t (now + ttl) then some s else none)

-- `int(meta.get("expires_at", 0)) if meta else 0`
abbrev pub expiry_of : Option Session → ℕ
expiry_of none = 0
expiry_of (some s) = s.expires_at

module _ (redis : RedisSessions) where
  open redis use {Zset, Hash, Cell}

  -- The keys of one user
  pub record Keys : Type 0 where
    pub blacklist : redis.set.Store
    pub revoked_all : Cell
    pub sessions : Zset
    pub meta : String → Hash

  -- A write to the hash of one jti
  abbrev pub put_meta : String → (Hash → Hash) → Keys → Keys
  put_meta jti f k = record k { meta = λ j. if str_eq j jti then f (k.meta j) else k.meta j }

module _ (redis : RedisSessions) (c : Settings) where
  open redis use {
    zadd, zrem, zexpire, zdelete, zrevrange, hset, hexpire, hdelete, hgetall, setex, get_cell,
    delete_set,
  }

  -- `store_session`
  unfoldable pub store_session : ℕ → Session → Keys redis → Keys redis
  store_session now s k =
      if c.enabled
      then (let ttl = blacklist_ttl_for c now s.expires_at in
          put_meta redis s.jti (λ h. hexpire now ttl (hset now s h))
            (record k { sessions = zexpire now ttl (zadd now s.jti s.created_at k.sessions) }))
      else k

  -- `get_session`
  unfoldable pub get_session : ℕ → String → Keys redis → Option Session
  get_session now jti k = hgetall now (k.meta jti)

  -- The loop of `list_active_sessions`: a session that has expired is cleared away.
  unfoldable pub list_each : ℕ → List String → Keys redis → List Session × Keys redis
  list_each now [] k = ([], k)
  list_each now (jti ∷ jtis) k = elim (hgetall now (k.meta jti)) [
    | none ↦ list_each now jtis k
    | some s ↦
        if ltb s.expires_at now
        then list_each now jtis
            (put_meta redis jti hdelete (record k { sessions = zrem now jti k.sessions }))
        else (let (rest, k') = list_each now jtis k in (s ∷ rest, k'))
  ]

  -- `list_active_sessions`
  unfoldable pub list_active_sessions : ℕ → Keys redis → List Session × Keys redis
  unfolding list_each
  list_active_sessions now k =
      if c.enabled then list_each now (zrevrange now k.sessions) k else ([], k)

  -- `blacklist_token` on the keys of the user
  abbrev pub blacklist : ℕ → String → ℕ → Keys redis → Keys redis
  blacklist now jti exp k = record k {
    blacklist = blacklist_token redis.set c now (record { jti = jti; exp = exp }) k.blacklist;
  }

  -- `revoke_session`
  unfoldable pub revoke_session : ℕ → String → ℕ → Keys redis → Keys redis
  revoke_session now jti exp k =
      if c.enabled
      then blacklist now jti exp
          (put_meta redis jti hdelete (record k { sessions = zrem now jti k.sessions }))
      else k

  -- The loop of `revoke_all_user_sessions`
  unfoldable pub revoke_each : ℕ → List String → Keys redis → Keys redis
  revoke_each now [] k = k
  revoke_each now (jti ∷ jtis) k =
      revoke_each now jtis
        (put_meta redis jti hdelete (blacklist now jti (expiry_of (hgetall now (k.meta jti))) k))

  -- `revoke_all_user_sessions`
  unfoldable pub revoke_all_user_sessions : ℕ → Keys redis → ℕ × Keys redis
  unfolding revoke_each
  revoke_all_user_sessions now k =
      if c.enabled
      then (let jtis = zrevrange now k.sessions in
          let k' = revoke_each now jtis k in
          (
            length jtis,
            record k' {
              sessions = zdelete k'.sessions;
              revoked_all = setex now c.blacklist_ttl now k'.revoked_all;
            },
          ))
      else (0, k)

  -- `revoke_all_user_tokens`, which forgets the list of revoked tokens
  unfoldable pub revoke_all_user_tokens : ℕ → Keys redis → ℕ × Keys redis
  revoke_all_user_tokens now k =
      if c.enabled
      then (
        length (redis.set.smembers now k.blacklist),
        record k {
          blacklist = delete_set k.blacklist;
          revoked_all = setex now c.blacklist_ttl now k.revoked_all;
        },
      )
      else (0, k)

  -- `get_blacklisted_at`
  unfoldable pub get_blacklisted_at : ℕ → Keys redis → Option ℕ
  get_blacklisted_at now k = get_cell now k.revoked_all
