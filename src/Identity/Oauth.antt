-- ===== src/Identity/Oauth.antt =====
-- Social sign-in: `oauth_login` and `oauth_callback` of app/identity/api/endpoints/auth.py, the
-- state store of app/identity/services/oauth2.py and the OAuth rows of app/identity/crud/user.py.
-- The keys of Redis, the providers and Python's texts are parameters. The tokens of the provider,
-- which the row keeps too, are left out.
pub mod Stored
pub mod Linked
use Prim.Native.String.{◌++◌ as str_append}
use text.Mathlib.Text.{◌==◌ as str_eq}
use async_fastapi_template.Prelude.{
  ℕ, String, ◌+◌, ◌==◌, Bool, true, false, not, ◌&&◌, ◌||◌, Option, none, some, List, [], ◌∷◌, ◌≡◌,
  find, select, Text, if◌then◌else◌,
}
use async_fastapi_template.Identity.Model.{
  User, Directory, get_by_email, put_user, username_taken, add_user, magic_user,
}
use async_fastapi_template.Identity.Blacklist
use async_fastapi_template.Identity.Sessions.{RedisSessions}
use async_fastapi_template.Identity.Security.{
  Settings, Crypto, Reply, ok, fail, bad_request, conflict, server_error,
}
use async_fastapi_template.Identity.Call.{
  World, M, raise_if, or_raise, pure, ◌>>=◌, ◌>>◌, on_directory,
}
use async_fastapi_template.Identity.Login.{Request, SignIn, issue_tokens}

-- The keys of Redis, whose values are texts: `get` and `setex` take the time.
pub record RedisKeys : Type 1 where
  pub Store : Type 0
  pub get : ℕ → String → Store → Option String
  pub setex : ℕ → String → ℕ → String → Store → Store
  pub delete : String → Store → Store
  pub get_delete : (now : ℕ) (key : String) (s : Store) → get now key (delete key s) ≡ none

-- What `parse_user_info` takes out of an answer; a missing address is the empty text.
pub record Profile : Type 0 where
  pub email : String
  pub provider_id : String

-- What is asked of the providers: `get_authorize_url`, which needs a known provider that is
-- configured, `exchange_code` and `get_user_info`; `none` where they raise.
pub record Providers : Type 0 where
  pub get_authorize_url : String → String → Option String
  pub exchange_code : String → String → Option String
  pub get_user_info : String → String → Option Profile

-- `str.isalnum` of a character, and the conversion of texts to characters and back
pub record Strings : Type 0 where
  pub isalnum : ℕ → Bool
  pub codes : String → Text
  pub text : Text → String

-- `f"{OAUTH_STATE_KEY_PREFIX}{state}"`
unfoldable pub state_key : String → String
state_key state = str_append "oauth_state:" state

module _ (r : RedisKeys) where
  -- `store_oauth_state`, with `OAUTH_STATE_EXPIRE_SECONDS`
  unfoldable pub store_oauth_state : ℕ → ℕ → String → String → r.Store → r.Store
  unfolding state_key
  store_oauth_state now seconds state value s = r.setex now (state_key state) seconds value s

  -- `consume_oauth_state`
  unfoldable pub consume_oauth_state : ℕ → String → r.Store → Option String × r.Store
  unfolding state_key
  consume_oauth_state now state s = elim (r.get now (state_key state) s) [
    | none ↦ (none, s)
    | some value ↦ (some value, r.delete (state_key state) s)
  ]

-- `CRUDUser.get_by_oauth`
abbrev pub column_is : String → Option String → Bool
column_is x none = false
column_is x (some y) = str_eq y x

unfoldable pub get_by_oauth : String → String → Directory → Option User
get_by_oauth provider provider_id d =
    find
      (λ (u : User).
        column_is provider u.oauth_provider && column_is provider_id u.oauth_provider_id)
      d.users

-- `not user.oauth_provider_id`
abbrev pub is_unset : Option String → Bool
is_unset none = true
is_unset (some x) = str_eq x ""

-- `c.isalnum() or c in "._-"`
abbrev pub is_kept : Strings → ℕ → Bool
is_kept py n = py.isalnum n || (n == 46 || (n == 95 || n == 45))

-- `s.split(c)[0]`
abbrev pub up_to : ℕ → Text → Text
up_to c [] = []
up_to c (x ∷ xs) = let rest = up_to c xs in if x == c then [] else x ∷ rest

-- The name of a new user: what is kept of the address up to its `@`, and `_oauth`
unfoldable pub oauth_username : Strings → String → String
oauth_username py email =
    str_append (py.text (select (is_kept py) (up_to 64 (py.codes email)))) "_oauth"

-- The row of `create_oauth_user`, of the drawn password's hash
unfoldable pub oauth_row : ℕ → ℕ → String → String → String → String → String → User
oauth_row now id email username password provider provider_id =
    record (magic_user id email username password) {
      email_verified_at = some now;
      oauth_provider = some provider;
      oauth_provider_id = some provider_id;
    }

-- The user of a profile: found by the provider's id, or else by the address
unfoldable pub oauth_existing : String → Profile → Directory → Option User
unfolding get_by_oauth
oauth_existing provider p d = elim (get_by_oauth provider p.provider_id d) [
  | some u ↦ some u
  | none ↦ get_by_email d p.email
]

-- `link_oauth_account`, if no account is linked; a different one is a conflict.
unfoldable pub link_oauth : String → Profile → User → Directory → Reply User × Directory
link_oauth provider p u d =
    if is_unset u.oauth_provider_id
    then (let u' = record u {
      oauth_provider = some provider;
      oauth_provider_id = some p.provider_id;
    } in
        (ok u', put_user u' d))
    else if not (column_is provider u.oauth_provider && column_is p.provider_id u.oauth_provider_id)
    then (fail conflict, d)
    else (ok u, d)

-- `create_oauth_user`, whose commit raises on a name that is taken
unfoldable pub create_oauth :
    Strings → ℕ → String → String → Profile → Directory → Reply User × Directory
unfolding oauth_username oauth_row
create_oauth py now password provider p d =
    let name = oauth_username py p.email in
    if username_taken name d
    then (fail server_error, d)
    else (let u = oauth_row now d.next_id p.email name password provider p.provider_id in
        (ok u, add_user u d))

-- The middle of `oauth_callback`
unfoldable pub oauth_user :
    Strings → ℕ → String → String → Profile → Directory → Reply User × Directory
unfolding oauth_existing link_oauth create_oauth
oauth_user py now password provider p d = elim (oauth_existing provider p d) [
  | some u ↦ link_oauth provider p u d
  | none ↦ create_oauth py now password provider p d
]

-- The settings of the state: `OAUTH_STATE_EXPIRE_SECONDS` is not read, since `oauth_login` stores
-- nothing.
module _ (crypto : Crypto) (redis : RedisSessions) (c : Settings) (b : Blacklist.Settings)
    (r : RedisKeys) (net : Providers) (py : Strings) where
  -- A call's state and the keys of the OAuth states
  pub record OauthWorld : Type 0 where
    pub world : World redis
    pub states : r.Store

  -- `oauth_login`, with the drawn state: the state and the address of the provider
  unfoldable pub oauth_login : String → String → OauthWorld → Reply (String × String) × OauthWorld
  oauth_login provider state w = elim (net.get_authorize_url provider state) [
    | none ↦ (fail bad_request, w)
    | some url ↦ (ok (url, state), w)
  ]

  -- `oauth_callback` after the state: the code is exchanged, the profile read, the user found
  unfoldable pub oauth_exchange : Request → String → String → String → M redis (SignIn crypto.Token)
  unfolding oauth_user issue_tokens
  oauth_exchange q password provider code = do
    token ← or_raise redis (net.exchange_code provider code) bad_request
    p ← or_raise redis (net.get_user_info provider token) bad_request
    raise_if redis (str_eq p.email "") bad_request
    u ← on_directory redis (oauth_user py q.now password provider p)
    raise_if redis (not u.is_active) bad_request
    issue_tokens crypto redis c b q u.id

  -- `oauth_callback`
  unfoldable pub oauth_callback :
      Request
      → String
      → String
      → String
      → String
      → OauthWorld
      → Reply (SignIn crypto.Token) × OauthWorld
  unfolding consume_oauth_state oauth_exchange
  oauth_callback q password provider code state w =
      let (stored, states) = consume_oauth_state r q.now state w.states in
      elim stored [
        | none ↦ (fail bad_request, record w { states = states })
        | some value ↦
            (let (reply, world) = oauth_exchange q password provider code w.world in
              (reply, record { world = world; states = states }))
      ]
