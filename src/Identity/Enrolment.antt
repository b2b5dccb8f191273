-- ===== src/Identity/Enrolment.antt =====
-- app/identity/api/endpoints/totp.py: setting up the second factor, and giving it up. The drawn
-- secret and the drawn backup codes are parameters, and so are `pyotp` and the password hash. The
-- caller is the row that authentication loaded.
pub mod Refused
use Prim.Native.String.{count}
use text.Mathlib.Text.{◌==◌ as str_eq}
use async_fastapi_template.Prelude.{
  Text, join_comma, ℕ, String, Bool, true, false, not, Option, none, some, List, map, leb,
  if◌then◌else◌,
}
use async_fastapi_template.Identity.Model.{
  User, Directory, put_user, log_auth_event, mfa_enroll, mfa_disable,
}
use async_fastapi_template.Identity.Security.{Crypto, Reply, ok, fail, bad_request, server_error}
use async_fastapi_template.Identity.Totp.{Sha}
use async_fastapi_template.Identity.Login.{Totp}

-- `get_totp_status`
unfoldable pub get_totp_status : User → Bool × Option ℕ
get_totp_status u = (u.totp_enabled, u.totp_verified_at)

-- `User.totp_secret`, a String(32): PostgreSQL refuses a longer text.
abbrev pub fits : String → Bool
fits secret = leb (count secret) 32

-- `enable_totp`: the answer shows the secret and the codes. The commit raises if the secret does
-- not fit its column.
unfoldable pub enable_totp :
    Sha → String → List Text → User → Directory → Reply (String × List Text) × Directory
enable_totp sha secret raw_codes u d =
    if u.totp_enabled
    then (fail bad_request, d)
    else if not (fits secret)
    then (fail server_error, d)
    else (
      ok (secret, raw_codes),
      put_user
          (record u {
            totp_secret = some secret;
            backup_codes = some (join_comma (map sha raw_codes));
            totp_enabled = false;
          })
          d,
    )

-- `verify_enable_totp`, for a pending secret
unfoldable pub verify_pending :
    Totp → ℕ → Text → String → User → Directory → Reply (Unit {0}) × Directory
verify_pending totp now code secret u d =
    if str_eq secret ""
    then (fail bad_request, d)
    else if not (totp secret now code)
    then (fail bad_request, d)
    else (
      ok tt,
      log_auth_event mfa_enroll (some u.id)
          (put_user (record u { totp_enabled = true; totp_verified_at = some now }) d),
    )

-- `verify_enable_totp`
unfoldable pub verify_enable_totp :
    Totp → ℕ → Text → User → Directory → Reply (Unit {0}) × Directory
unfolding verify_pending
verify_enable_totp totp now code u d =
    if u.totp_enabled then (fail bad_request, d) else elim u.totp_secret [
      | none ↦ (fail bad_request, d)
      | some secret ↦ verify_pending totp now code secret u d
    ]

-- `disable_totp`
unfoldable pub disable_totp : Crypto → String → User → Directory → Reply (Unit {0}) × Directory
disable_totp crypto password u d =
    if not u.totp_enabled
    then (fail bad_request, d)
    else if not (crypto.verify_password password u.hashed_password)
    then (fail bad_request, d)
    else (
      ok tt,
      log_auth_event mfa_disable (some u.id) (
          put_user
            (record u {
              totp_secret = none;
              totp_enabled = false;
              totp_verified_at = none;
              backup_codes = none;
            })
            d),
    )
