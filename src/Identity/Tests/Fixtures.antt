-- ===== src/Identity/Tests/Fixtures.antt =====
-- Tokens that carry their key and their claims, a Redis in memory, and a user.
use text.Mathlib.Text.{◌==◌ as str_eq}
use async_fastapi_template.Prelude.{
  ℕ, String, ◌+◌, ◌≤◌, ◌≡◌, refl, Bool, true, false, not, ◌&&◌, Option, none, some, List, [], ◌∷◌,
  Text, ltb, leb, select, arith, if◌then◌else◌,
}
use async_fastapi_template.Crud.Pages.{Codec}
use async_fastapi_template.Identity.Model.{User, ApiKey, Directory}
use async_fastapi_template.Identity.Security.{
  Settings, Claims, Key, generated, secret_with, Crypto, is_usable,
}
use async_fastapi_template.Identity.Sessions.{RedisSessions, Session, Keys}
use async_fastapi_template.Identity.Call.{World}
use async_fastapi_template.Identity.Tests.{memory}

abbrev same_key : Key → Key → Bool
same_key generated generated = true
same_key (secret_with true) (secret_with true) = true
same_key (secret_with false) (secret_with false) = true
same_key _ _ = false

abbrev open_token : Key → ℕ → Key × Claims → Option Claims
open_token k now (k', c) = if same_key k k' && leb now c.exp then some c else none

pub open_made :
    (k : Key) (now : ℕ) (c : Claims)
    → is_usable k ≡ true
    → now ≤ c.exp
    → open_token k now (k, c) ≡ some c
open_made generated now c h le = ground (arith, le)
open_made (secret_with false) now c h le = ground (arith, le)
open_made (secret_with true) now c h le = absurd cc

pub open_unexpired :
    (k : Key) (now : ℕ) (t : Key × Claims) (c : Claims) → open_token k now t ≡ some c → now ≤ c.exp
open_unexpired k now (k', c') c e = ground (arith, e)

pub open_same :
    (k : Key) (now now' : ℕ) (t : Key × Claims) (c c' : Claims)
    → open_token k now t ≡ some c
    → open_token k now' t ≡ some c'
    → c ≡ c'
open_same k now now' (k', d) c c' e e' = ground (arith, e, e')

abbrev pub crypto : Crypto
crypto = record {
  Token = Key × Claims;
  encode = λ k c. (k, c);
  decode = open_token;
  verify_password = λ p h. str_eq p h;
  get_password_hash = λ p. p;
  decode_encode = open_made;
  decode_unexpired = open_unexpired;
  decode_same = open_same;
}

abbrev Kept : Type 0
Kept = ℕ × Option Session

abbrev kept_at : ℕ → Kept → Option Session
kept_at t (until, s) = if ltb t until then s else none

abbrev keep : Session → Kept → Kept
keep s (until, old) = (until, some s)

abbrev keep_until : ℕ → ℕ → Kept → Kept
keep_until now ttl (until, s) = (now + ttl, s)

pub kept_set :
    (now ttl t : ℕ) (s : Session) (h : Kept)
    → now ≤ t
    → kept_at t (keep_until now ttl (keep s h)) ≡ (if ltb t (now + ttl) then some s else none)
kept_set now ttl t s (until, old) le = refl

pub kept_gone : (t : ℕ) (h : Kept) → kept_at t (0, none) ≡ none
kept_gone t h = ground arith

abbrev pub redis : RedisSessions
redis = record {
  set = memory;
  Zset = List String;
  zadd = λ now jti score z. jti ∷ z;
  zrem = λ now jti z. select (λ j. not (str_eq j jti)) z;
  zexpire = λ now ttl z. z;
  zdelete = λ z. [];
  zrevrange = λ now z. z;
  Hash = Kept;
  hset = λ now s h. keep s h;
  hexpire = keep_until;
  hdelete = λ h. (0, none);
  hgetall = kept_at;
  Cell = Option ℕ;
  setex = λ now ttl v cell. some v;
  get_cell = λ now cell. cell;
  delete_set = λ s. (0, []);
  zrevrange_deleted = λ t z. refl;
  hgetall_deleted = kept_gone;
  hgetall_hset = kept_set;
}

abbrev pub config : Settings
config = record {
  rs256 = false;
  access_token_expire_minutes = 30;
  refresh_token_expire_days = 7;
  magic_link_expire_minutes = 15;
  totp_challenge_expire_seconds = 300;
  max_login_attempts = 3;
  login_lockout_minutes = 15;
  magic_link_allow_registration = true;
}

-- A user with a second factor
abbrev pub ada : User
ada = record {
  id = 7;
  tenant_id = none;
  email = "ada@a";
  username = "ada";
  hashed_password = "pw";
  deleted_at = none;
  is_active = true;
  is_superuser = false;
  is_verified = true;
  failed_login_attempts = 1;
  locked_until = none;
  last_login_at = none;
  email_verified_at = none;
  oauth_provider = none;
  oauth_provider_id = none;
  totp_secret = some "s";
  totp_enabled = true;
  totp_verified_at = some 50;
  backup_codes = none;
  roles = [];
}

-- A key of another user
abbrev pub key : ApiKey
key = record {
  id = 3;
  user_id = 7;
  deleted_at = none;
  key_prefix = 97 ∷ 107 ∷ [];
  hashed_key = "hash";
  scopes = none;
  is_active = true;
  expires_at = none;
  last_used_at = none;
}

abbrev pub directory : Directory
directory = record { users = ada ∷ []; api_keys = key ∷ []; audit = []; next_id = 9; tenant = none }

abbrev pub no_keys : Keys redis
no_keys = record { blacklist = (0, []); revoked_all = none; sessions = []; meta = λ jti. (0, none) }

abbrev pub world : World redis
world = record { directory = directory; keys = λ id. no_keys }

abbrev read : Text → Option ℕ
read [] = none
read (n ∷ ns) = some n

-- A cursor as the text that is its id
abbrev pub codec : Codec
codec = record {
  dumps = λ n. n ∷ [];
  loads = read;
  urlsafe_b64encode = λ t. t;
  urlsafe_b64decode = λ t. t;
  loads_dumps = λ n. refl;
  dumps_solid = λ n. refl;
  decode_encode = λ t. refl;
}
