-- ===== src/Identity/Access.antt =====
-- The dependencies of app/api/deps.py that find the user of a request, the API keys of
-- app/identity/crud/api_key.py, and the checks of app/identity/auth/permissions.py. An empty key or
-- token header counts as absent.
pub mod Admitted
use text.Mathlib.Text.{◌==◌ as str_eq}
use async_fastapi_template.Prelude.{
  Text, same_text, ℕ, String, ◌==◌, Bool, true, false, not, ◌&&◌, ◌||◌, Option, none, some, List,
  [], ◌∷◌, ◌++◌, map, any, find, take, ltb, is_some, if◌then◌else◌,
}
use async_fastapi_template.Identity.Model.{Role, User, ApiKey, Directory, get_with_roles}
use async_fastapi_template.Identity.Blacklist.{is_token_blacklisted}
use async_fastapi_template.Identity.Blacklist
use async_fastapi_template.Identity.Sessions.{RedisSessions}
use async_fastapi_template.Identity.Security.{
  Settings, Crypto, Reply, ok, fail, unauthorized, bad_request, not_found, forbidden, server_error,
  Claims, int_of, decode_access_token,
}
use async_fastapi_template.Identity.Call.{
  World, M, pure, raise, lift, or_raise, raise_if, get_world, modify, write, ◌>>=◌, ◌>>◌,
}

-- `all(p in granted for p in required)`
abbrev pub all_in : List String → List String → Bool
all_in [] granted = true
all_in (p ∷ ps) granted = any (str_eq p) granted && all_in ps granted

abbrev pub permissions_of : List Role → List String
permissions_of [] = []
permissions_of (r ∷ roles) = r.permissions ++ permissions_of roles

-- `has_permission`
unfoldable pub has_permission : User → List String → Bool
has_permission u required =
    if u.is_superuser
    then true
    else elim u.roles [ [] ↦ false | ◌∷◌ r rs ↦ all_in required (permissions_of (r ∷ rs)) ]

-- `check_api_key_scope`
unfoldable pub check_api_key_scope : List String → List String → Bool
check_api_key_scope scopes required = all_in required scopes

-- `PermissionChecker.__call__`, with the scopes that the request carries if it came with a key
unfoldable pub check_permission : List String → Option (List String) → User → Reply User
unfolding has_permission check_api_key_scope
check_permission required scopes u =
    if not (has_permission u required) then fail forbidden else elim scopes [
      | none ↦ ok u
      | some granted ↦ if check_api_key_scope granted required then ok u else fail forbidden
    ]

-- `require_2fa`
unfoldable pub require_2fa : User → Reply User
require_2fa u = if u.totp_enabled then ok u else fail forbidden

-- `get_by_prefix`
abbrev pub get_by_prefix : Directory → Text → Option ApiKey
get_by_prefix d prefix =
    find (λ (k : ApiKey). same_text k.key_prefix prefix && k.is_active) d.api_keys

abbrev pub put_key : ApiKey → List ApiKey → List ApiKey
put_key k [] = []
put_key k (r ∷ rows) = (if r.id == k.id then k else r) ∷ put_key k rows

-- `CRUDApiKey.verify`, over SHA-256
unfoldable pub verify_key : (Text → String) → ℕ → Text → Directory → Option ApiKey × Directory
verify_key sha now raw d = elim (get_by_prefix d (take 10 raw)) [
  | none ↦ (none, d)
  | some k ↦
      if not (str_eq (sha raw) k.hashed_key)
      then (none, d)
      else if not k.is_active
      then (none, d)
      else if elim k.expires_at [ none ↦ false | some t ↦ ltb t now ]
      then (none, d)
      else (
        some k,
        record d { api_keys = put_key (record k { last_used_at = some now }) d.api_keys },
      )
]

module _ (crypto : Crypto) (redis : RedisSessions) (c : Settings) (b : Blacklist.Settings) where
  -- `jti and await is_token_blacklisted(int(user_id), jti)`
  unfoldable pub is_revoked : ℕ → Claims → ℕ → World redis → Bool
  is_revoked now claims id w = elim claims.jti [
    | none ↦ false
    | some jti ↦
        not (str_eq jti "") && is_token_blacklisted redis.set b now jti (w.keys id).blacklist
  ]

  -- `get_current_user`. The claim `sub` of a magic link is no number, and `int` raises on it.
  unfoldable pub get_current_user : ℕ → crypto.Token → M redis User
  unfolding is_revoked
  get_current_user now token = do
    claims ← lift redis (decode_access_token crypto c now token)
    id ← or_raise redis (int_of claims.sub) server_error
    w ← get_world redis
    raise_if redis (is_revoked now claims id w) unauthorized
    user ← or_raise redis (get_with_roles w.directory id) not_found
    raise_if redis (not user.is_active) bad_request
    pure redis user

  -- The user of a key that verifies, if it is active
  abbrev pub key_user : Directory → Option ApiKey → Option (User × ApiKey)
  key_user d none = none
  key_user d (some k) = elim (get_with_roles d k.user_id) [
    | none ↦ none
    | some u ↦ if u.is_active then some (u, k) else none
  ]

  -- `get_api_key_user`
  unfoldable pub get_api_key_user : (Text → String) → ℕ → Option Text → M redis User
  unfolding verify_key
  get_api_key_user sha now key = do
    raw ← or_raise redis key unauthorized
    w ← get_world redis
    let (found, d) = verify_key sha now raw w.directory
    modify redis (λ w. record w { directory = d })
    pair ← or_raise redis (key_user d found) unauthorized
    pure redis pair.0

  abbrev pub scopes_of : ApiKey → List String
  scopes_of k = elim k.scopes [ none ↦ [] | some s ↦ s ]

  -- The fallback of `get_current_user_or_api_key`
  unfoldable pub from_token : ℕ → Option crypto.Token → M redis (User × Option (List String))
  unfolding get_current_user
  from_token now none = raise redis unauthorized
  from_token now (some t) = do u ← get_current_user now t; pure redis (u, none)

  -- `get_current_user_or_api_key`: the user, and the scopes that are noted on the request.
  unfoldable pub get_current_user_or_api_key :
      (Text → String)
      → ℕ
      → Option crypto.Token
      → Option Text
      → M redis (User × Option (List String))
  unfolding verify_key from_token
  get_current_user_or_api_key sha now token none = from_token now token
  get_current_user_or_api_key sha now token (some raw) = do
    w ← get_world redis
    let (found, d) = verify_key sha now raw w.directory
    modify redis (λ w. record w { directory = d })
    elim (key_user d found) [
      | none ↦ from_token now token
      | some pair ↦ pure redis (pair.0, some (scopes_of pair.1))
    ]
