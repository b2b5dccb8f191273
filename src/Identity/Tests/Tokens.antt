-- ===== src/Identity/Tests/Tokens.antt =====
-- The checks of tokens and sessions on one user.
use async_fastapi_template.Prelude.{◌≡◌, refl, false, Option, none, some, arith}
use async_fastapi_template.Identity.Security.{
  Claims, Purpose, secret_with, by_id, ok, create_totp_challenge_token, decode_access_token,
}
use async_fastapi_template.Identity.Blacklist.{is_token_blacklisted}
use async_fastapi_template.Identity.Access.{get_current_user}
use async_fastapi_template.Identity.Access.Admitted.{challenge-get_current_user}
use async_fastapi_template.Identity.Login.{Request, revoke_token}
use async_fastapi_template.Identity.Login.Revocation.{revoke_token_lasts}
use async_fastapi_template.Identity.Tests.{settings}
use async_fastapi_template.Identity.Tests.Fixtures.{crypto, redis, config, ada, world}

challenge-get_current_user_example :
    get_current_user crypto redis config settings 200
      (create_totp_challenge_token crypto config 100 "j" 7)
      world
    ≡ (ok ada, world)
unfolding is_token_blacklisted
challenge-get_current_user_example =
    challenge-get_current_user crypto redis config settings 100 200 7 "j" ada world refl
      (omega arith) refl refl refl

abbrev request : Request
request = record { now = 200; ip = none; user_agent = none; access_jti = "a2"; refresh_jti = "r2" }

abbrev claims : Option Purpose → Claims
claims p = record { jti = some "j"; sub = by_id 7; iat = 100; exp = 500; purpose = p }

signed_in :
    get_current_user crypto redis config settings 200 (secret_with false, claims none) world
    ≡ (ok ada, world)
unfolding get_current_user is_token_blacklisted decode_access_token
signed_in = refl

revoke_token_lasts_example :
    let (answer, w') =
      revoke_token crypto redis config settings request (secret_with false, claims none) world in
    (answer ≡ ok tt)
    × ¬ (
        (get_current_user crypto redis config settings 300 (secret_with false, claims none) w').0
        ≡ ok ada)
revoke_token_lasts_example =
    revoke_token_lasts crypto redis config settings request 300 (secret_with false, claims none)
      (claims none) "j" ada ada world refl (omega arith) refl refl refl refl signed_in (omega arith)
      (omega arith)
