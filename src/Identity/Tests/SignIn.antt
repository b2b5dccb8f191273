-- ===== src/Identity/Tests/SignIn.antt =====
-- Passwords, backup codes and the social sign-in of one user.
use text.Mathlib.Text.{◌==◌ as str_eq}
use async_fastapi_template.Prelude.{
  ℕ, String, ◌≡◌, refl, true, Option, none, some, List, [], ◌∷◌, arith, Text, Bool-cases, inl, inr,
  if◌then◌else◌, split_comma, rstrip, lstrip, is_space,
}
use async_fastapi_template.Identity.Model.{User}
use async_fastapi_template.Identity.Security.{
  ok, fail, locked, bad_request, authenticate_user, create_totp_challenge_token,
}
use async_fastapi_template.Identity.Security.Lockout.{attempts, attempts_lock}
use async_fastapi_template.Identity.Totp.{verify_backup_code, remove_used_backup_code}
use async_fastapi_template.Identity.Totp.Once.{remove_used_backup_code-verify}
use async_fastapi_template.Identity.Login.{Request, challenge, login_for_access_token}
use async_fastapi_template.Identity.Oauth.{
  RedisKeys, Providers, Strings, Profile, OauthWorld, oauth_user, oauth_callback, oauth_login,
}
use async_fastapi_template.Identity.Oauth.Stored.{Steps, login, stop, step, oauth_callback_fails}
use async_fastapi_template.Identity.Tests.{settings}
use async_fastapi_template.Identity.Tests.Fixtures.{crypto, redis, config, ada, directory, world}

abbrev tries : List (ℕ × String)
tries = (100, "x") ∷ (110, "y") ∷ []

attempts_lock_example :
    let d' = attempts crypto config "ada@a" tries directory in
    ((authenticate_user crypto config 900 "ada@a" "pw" d').0 ≡ fail locked)
    × ((authenticate_user crypto config 900 "ada@a" "pw" d').1.users ≡ d'.users)
attempts_lock_example =
    attempts_lock crypto config "ada@a" tries 900 "pw" ada directory refl refl (refl, (refl, tt))
      (omega arith) refl (omega arith)

abbrev plain : Text → Text
plain t = t

abbrev codes : Option Text
codes = some (65 ∷ 44 ∷ 66 ∷ [])

remove_used_backup_code-verify_example :
    let left = remove_used_backup_code (65 ∷ []) codes in
    (verify_backup_code plain (65 ∷ []) left ≡ none)
    × (verify_backup_code plain (66 ∷ []) left ≡ verify_backup_code plain (66 ∷ []) codes)
unfolding verify_backup_code split_comma rstrip lstrip is_space
remove_used_backup_code-verify_example =
    remove_used_backup_code-verify plain (65 ∷ []) (66 ∷ []) codes refl

abbrev request : Request
request = record { now = 200; ip = none; user_agent = none; access_jti = "a2"; refresh_jti = "r2" }

logged_in :
    (login_for_access_token crypto redis config settings request "ada@a" "pw" "c" world).0
    ≡ ok (challenge (create_totp_challenge_token crypto config 200 "c" 7))
unfolding login_for_access_token authenticate_user
logged_in = refl

-- Keys of Redis, as a list of pairs
abbrev Pairs : Type 0
Pairs = List (String × String)

abbrev look : String → Pairs → Option String
look k [] = none
look k ((j, v) ∷ s) = let rest = look k s in if str_eq j k then some v else rest

abbrev without : String → Pairs → Pairs
without k [] = []
without k ((j, v) ∷ s) = let rest = without k s in if str_eq j k then rest else (j, v) ∷ rest

pub look-without : (now : ℕ) (k : String) (s : Pairs) → look k (without k s) ≡ none
look-without now k [] = refl
look-without now k ((j, v) ∷ s) = elim (Bool-cases (str_eq j k)) [
  | inl e ↦ rw e (look-without now k s)
  | inr e ↦ rw (e, e) (look-without now k s)
]

abbrev pairs : RedisKeys
pairs = record {
  Store = Pairs;
  get = λ now k s. look k s;
  setex = λ now k ttl v s. (k, v) ∷ s;
  delete = without;
  get_delete = look-without;
}

abbrev python : Strings
python = record { isalnum = λ n. true; codes = λ s. []; text = λ t. "ada" }

abbrev profile : Profile
profile = record { email = "ada@a"; provider_id = "42" }

abbrev linked : User
linked = record ada { oauth_provider = some "github"; oauth_provider_id = some "42" }

links : (oauth_user python 100 "pw" "github" profile directory).0 ≡ ok linked
unfolding oauth_user
links = refl

abbrev providers : Providers
providers = record {
  get_authorize_url = λ p s. some "url";
  exchange_code = λ p c. some "token";
  get_user_info = λ p t. some profile;
}

abbrev start : OauthWorld crypto redis config settings pairs providers python
start = record { world = world; states = [] }

sign_ins : Steps crypto redis config settings pairs providers python start start
unfolding oauth_login
sign_ins = step start start start (login "github" "x" start) (stop start)

oauth_callback_fails_example :
    ((oauth_callback crypto redis config settings pairs providers python request "pw" "github"
        "code" "x" start).0
      ≡ fail bad_request)
    × ((oauth_callback crypto redis config settings pairs providers python request "pw" "github"
          "code" "x" start).1.world
        ≡ world)
oauth_callback_fails_example =
    oauth_callback_fails crypto redis config settings pairs providers python start start request
      "pw" "github" "code" "x" (λ now state. refl) sign_ins
