-- ===== src/Identity/Security.antt =====
-- app/core/security.py and the challenge tokens of app/identity/auth/totp.py: JSON web tokens and
-- the sign-in with a password. The JWT library and bcrypt are parameters. Times are in whole
-- seconds.
pub mod Lockout
use async_fastapi_template.Prelude.{
  ℕ, String, ◌+◌, ◌*◌, ◌≤◌, ◌≡◌, Bool, true, false, not, Option, none, some, leb, ltb,
  if◌then◌else◌,
}
use async_fastapi_template.Identity.Model.{
  User, login_success, login_failure, account_locked, Directory, get_by_email, put_user,
  log_auth_event,
}

-- The settings that sign-in reads; `rs256` stands for `ALGORITHM == "RS256"`.
pub record Settings : Type 0 where
  pub rs256 : Bool
  pub access_token_expire_minutes : ℕ
  pub refresh_token_expire_days : ℕ
  pub magic_link_expire_minutes : ℕ
  pub totp_challenge_expire_seconds : ℕ
  pub max_login_attempts : ℕ
  pub login_lockout_minutes : ℕ
  pub magic_link_allow_registration : Bool

pub data Purpose : Type 0 where
  refresh magic_link email_verify totp_challenge : Purpose

abbrev pub has_purpose : Purpose → Option Purpose → Bool
has_purpose refresh (some refresh) = true
has_purpose magic_link (some magic_link) = true
has_purpose email_verify (some email_verify) = true
has_purpose totp_challenge (some totp_challenge) = true
has_purpose _ _ = false

-- The claim `sub`: `str(user.id)`, or the address of a magic link
pub data Sub : Type 0 where
  by_id : ℕ → Sub
  by_email : String → Sub

-- `int(sub)`, which raises on an address
abbrev pub int_of : Sub → Option ℕ
int_of (by_id n) = some n
int_of (by_email e) = none

-- A payload; `iat` is left out of the verification tokens.
pub record Claims : Type 0 where
  pub jti : Option String
  pub sub : Sub
  pub iat : ℕ
  pub exp : ℕ
  pub purpose : Option Purpose

-- The key and algorithm of a call: the RSA pair of the process, or `SECRET_KEY` with the algorithm
-- of the settings.
pub data Key : Type 0 where
  generated : Key
  secret_with : Bool → Key

-- `SECRET_KEY` is a text, which is no RSA key.
abbrev pub is_usable : Key → Bool
is_usable generated = true
is_usable (secret_with rs256) = not rs256

-- `jose.jwt` and `bcrypt`. `decode` at a time checks the signature and the expiry; `none` is a
-- `JWTError`. With a key that is not usable `encode` raises in the code, and nothing is said of it.
pub record Crypto : Type 1 where
  pub Token : Type 0
  pub encode : Key → Claims → Token
  pub decode : Key → ℕ → Token → Option Claims
  pub verify_password : String → String → Bool
  pub get_password_hash : String → String
  pub decode_encode :
      (k : Key) (now : ℕ) (c : Claims)
      → is_usable k ≡ true
      → now ≤ c.exp
      → decode k now (encode k c) ≡ some c
  pub decode_unexpired :
      (k : Key) (now : ℕ) (t : Token) (c : Claims) → decode k now t ≡ some c → now ≤ c.exp
  -- The payload is part of the token.
  pub decode_same :
      (k : Key) (now now' : ℕ) (t : Token) (c c' : Claims)
      → decode k now t ≡ some c
      → decode k now' t ≡ some c'
      → c ≡ c'

-- The status codes of the errors
pub data Fault : Type 0 where
  unauthorized bad_request not_found forbidden locked conflict server_error : Fault

pub data Reply (A : Type 0) : Type 0 where
  ok : A → Reply A
  fail : Fault → Reply A

-- What `settings.ALGORITHM == "RS256"` chooses for access, refresh and magic link tokens
abbrev pub signing_key : Settings → Key
signing_key c = if c.rs256 then generated else secret_with false

-- What `jwt.encode(payload, settings.SECRET_KEY, algorithm=settings.ALGORITHM)` uses
abbrev pub secret_key : Settings → Key
secret_key c = secret_with c.rs256

-- `_make_jwt_payload`, of the drawn jti and a lifetime in seconds
unfoldable pub make_jwt_payload : ℕ → String → Sub → ℕ → Option Purpose → Claims
make_jwt_payload now jti subject lifetime purpose = record {
  jti = some jti;
  sub = subject;
  iat = now;
  exp = now + lifetime;
  purpose = purpose;
}

abbrev pub minute : ℕ
minute = 60

abbrev pub day : ℕ
day = 86400

module _ (crypto : Crypto) (c : Settings) where
  -- `create_access_token`
  unfoldable pub create_access_token : ℕ → String → Sub → crypto.Token
  unfolding make_jwt_payload
  create_access_token now jti subject =
      crypto.encode (signing_key c)
        (make_jwt_payload now jti subject (c.access_token_expire_minutes * minute) none)

  -- `create_refresh_token`
  unfoldable pub create_refresh_token : ℕ → String → Sub → crypto.Token
  unfolding make_jwt_payload
  create_refresh_token now jti subject =
      crypto.encode (signing_key c)
        (make_jwt_payload now jti subject (c.refresh_token_expire_days * day) (some refresh))

  -- `create_magic_link_token`
  unfoldable pub create_magic_link_token : ℕ → String → String → crypto.Token
  unfolding make_jwt_payload
  create_magic_link_token now jti email = crypto.encode (signing_key c) (
      make_jwt_payload now jti (by_email email) (c.magic_link_expire_minutes * minute)
        (some magic_link))

  -- `create_verification_token`
  unfoldable pub create_verification_token : ℕ → ℕ → crypto.Token
  create_verification_token now user_id = crypto.encode (secret_key c) (record {
    jti = none;
    sub = by_id user_id;
    iat = now;
    exp = now + day;
    purpose = some email_verify;
  })

  -- `create_totp_challenge_token`
  unfoldable pub create_totp_challenge_token : ℕ → String → ℕ → crypto.Token
  create_totp_challenge_token now jti user_id = crypto.encode (secret_key c) (record {
    jti = some jti;
    sub = by_id user_id;
    iat = now;
    exp = now + c.totp_challenge_expire_seconds;
    purpose = some totp_challenge;
  })

  -- The end of the decoders: the payload if it has the purpose
  unfoldable pub check_purpose : Purpose → Fault → Claims → Reply Claims
  check_purpose p e claims = if has_purpose p claims.purpose then ok claims else fail e

  -- `decode_access_token`
  unfoldable pub decode_access_token : ℕ → crypto.Token → Reply Claims
  decode_access_token now token = elim (crypto.decode (signing_key c) now token) [
    | some claims ↦ ok claims
    | none ↦ fail unauthorized
  ]

  -- `decode_refresh_token`: under RS256 the purpose is not looked at.
  unfoldable pub decode_refresh_token : ℕ → crypto.Token → Reply Claims
  unfolding check_purpose
  decode_refresh_token now token = elim (crypto.decode (signing_key c) now token) [
    | some claims ↦ if c.rs256 then ok claims else check_purpose refresh unauthorized claims
    | none ↦ fail unauthorized
  ]

  -- `decode_magic_link_token`: under RS256 the purpose is not looked at.
  unfoldable pub decode_magic_link_token : ℕ → crypto.Token → Reply Claims
  unfolding check_purpose
  decode_magic_link_token now token = elim (crypto.decode (signing_key c) now token) [
    | some claims ↦ if c.rs256 then ok claims else check_purpose magic_link bad_request claims
    | none ↦ fail bad_request
  ]

  -- `decode_verification_token`
  unfoldable pub decode_verification_token : ℕ → crypto.Token → Reply Claims
  unfolding check_purpose
  decode_verification_token now token = elim (crypto.decode (secret_key c) now token) [
    | some claims ↦ check_purpose email_verify bad_request claims
    | none ↦ fail bad_request
  ]

  -- `decode_totp_challenge_token`
  unfoldable pub decode_totp_challenge_token : ℕ → crypto.Token → Reply Claims
  unfolding check_purpose
  decode_totp_challenge_token now token = elim (crypto.decode (secret_key c) now token) [
    | some claims ↦ check_purpose totp_challenge bad_request claims
    | none ↦ fail bad_request
  ]

  -- `user.locked_until and user.locked_until > now`
  unfoldable pub is_locked : ℕ → User → Bool
  is_locked now u = elim u.locked_until [ none ↦ false | some t ↦ ltb now t ]

  -- The attribute writes of a wrong password
  unfoldable pub failed_row : ℕ → User → User
  failed_row now u = record u {
    failed_login_attempts = u.failed_login_attempts + 1;
    locked_until =
        if leb c.max_login_attempts (u.failed_login_attempts + 1)
        then some (now + c.login_lockout_minutes * minute)
        else u.locked_until;
  }

  -- The attribute writes of a right password
  unfoldable pub admitted_row : ℕ → User → User
  admitted_row now u = record u {
    failed_login_attempts = 0;
    locked_until = none;
    last_login_at = some now;
  }

  -- `authenticate_user` for a user that is found
  unfoldable pub authenticate_found :
      ℕ → String → User → Directory → Reply (Option User) × Directory
  unfolding is_locked failed_row admitted_row
  authenticate_found now password u d =
      if is_locked now u
      then (fail locked, log_auth_event account_locked (some u.id) d)
      else if not (crypto.verify_password password u.hashed_password)
      then (
        ok none,
        log_auth_event
            (if leb c.max_login_attempts (u.failed_login_attempts + 1)
              then account_locked
              else login_failure)
            (some u.id) (put_user (failed_row now u) d),
      )
      else (
        ok (some (admitted_row now u)),
        log_auth_event login_success (some u.id) (put_user (admitted_row now u) d),
      )

  -- `authenticate_user`
  unfoldable pub authenticate_user :
      ℕ → String → String → Directory → Reply (Option User) × Directory
  unfolding authenticate_found
  authenticate_user now email password d = elim (get_by_email d email) [
    | none ↦ (ok none, log_auth_event login_failure none d)
    | some u ↦ authenticate_found now password u d
  ]
