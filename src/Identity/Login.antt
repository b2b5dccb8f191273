-- ===== src/Identity/Login.antt =====
-- The sign-in endpoints of app/identity/api/endpoints/auth.py. Where a call draws jtis, tokens or
-- a name, or talks to an identity provider, the draw and the answer are parameters. The address
-- and the browser of a request only go into the stored session.
pub mod Guarded
pub mod Revocation
use text.Mathlib.Text.{◌==◌ as str_eq}
use async_fastapi_template.Prelude.{
  Text, ℕ, String, ◌+◌, Bool, true, false, not, ◌&&◌, ◌||◌, Option, none, some, List, [], ◌∷◌, ◌++◌,
  find, is_some, if◌then◌else◌,
}
use async_fastapi_template.Identity.Model.{
  User, Directory, token_refresh, token_revoke, magic_link_login, get_user, get_by_email, put_user,
  log_auth_event, magic_user, username_taken, add_user,
}
use async_fastapi_template.Identity.Blacklist
use async_fastapi_template.Identity.Sessions.{
  RedisSessions, Session, TokenType, access, store_session, get_session, revoke_session,
  revoke_all_user_sessions,
}
use async_fastapi_template.Identity.Security.{
  Settings, Crypto, Reply, ok, fail, unauthorized, bad_request, not_found, conflict, server_error,
  Claims, Sub, by_id, by_email, int_of, create_access_token, create_refresh_token,
  create_totp_challenge_token, decode_access_token, decode_refresh_token, decode_magic_link_token,
  decode_verification_token, decode_totp_challenge_token, authenticate_user,
}
use async_fastapi_template.Identity.Totp.{Sha, verify_backup_code, remove_used_backup_code}
use async_fastapi_template.Identity.Call.{
  World, M, pure, raise, lift, or_raise, raise_if, get_world, modify, write, put_keys, on_directory,
  ◌>>=◌, ◌>>◌,
}
use async_fastapi_template.Identity.Access.{get_current_user}

-- The client of a request, and the two jtis that the call draws
pub record Request : Type 0 where
  pub now : ℕ
  pub ip : Option String
  pub user_agent : Option String
  pub access_jti : String
  pub refresh_jti : String

-- The answers of a sign-in
pub data SignIn (T : Type 0) : Type 0 where
  challenge : T → SignIn T
  tokens : T → T → SignIn T

-- `pyotp`: whether a code is valid for a secret at a time
abbrev pub Totp : Type 0
Totp = String → ℕ → Text → Bool

module _ (crypto : Crypto) (redis : RedisSessions) (c : Settings) (b : Blacklist.Settings) where
  -- `SessionCreatePayload(jti=payload["jti"], …)`, which raises without a jti
  abbrev pub session_of : Request → TokenType → Claims → Option Session
  session_of r kind claims = elim claims.jti [
    | none ↦ none
    | some jti ↦ some (record {
      jti = jti;
      token_type = kind;
      ip = r.ip;
      user_agent = r.user_agent;
      created_at = claims.iat;
      expires_at = claims.exp;
    })
  ]

  -- `store_session(user.id, …)`
  unfoldable pub remember : Request → ℕ → TokenType → Claims → M redis (Unit {0})
  remember r id kind claims = do
    s ← or_raise redis (session_of r kind claims) server_error
    modify redis (put_keys redis id (store_session redis b r.now s))

  -- `_issue_tokens`
  unfoldable pub issue_tokens : Request → ℕ → M redis (SignIn crypto.Token)
  unfolding remember
  issue_tokens r id = do
    let access_token = create_access_token crypto c r.now r.access_jti (by_id id)
    let refresh_token = create_refresh_token crypto c r.now r.refresh_jti (by_id id)
    a ← lift redis (decode_access_token crypto c r.now access_token)
    f ← lift redis (decode_refresh_token crypto c r.now refresh_token)
    remember r id access a
    remember r id TokenType.refresh f
    pure redis (tokens access_token refresh_token)

  -- `login_for_access_token`, with the jti that a challenge would draw
  unfoldable pub login_for_access_token :
      Request → String → String → String → M redis (SignIn crypto.Token)
  unfolding issue_tokens
  login_for_access_token r email password challenge_jti = do
    found ← on_directory redis (authenticate_user crypto c r.now email password)
    u ← or_raise redis found unauthorized
    (if u.totp_enabled
        then pure redis (challenge (create_totp_challenge_token crypto c r.now challenge_jti u.id))
        else issue_tokens r u.id)

  -- The backup codes in `login_with_totp`: a code that is accepted is removed.
  unfoldable pub use_backup_code : Sha → Text → User → M redis Bool
  use_backup_code sha code u w = elim (verify_backup_code sha code u.backup_codes) [
    | none ↦ (ok false, w)
    | some used ↦ (
      ok true,
      write redis
          (put_user (record u { backup_codes = remove_used_backup_code used u.backup_codes })) w,
    )
  ]

  -- `login_with_totp`
  unfoldable pub login_with_totp :
      Totp → Sha → Request → crypto.Token → Text → M redis (SignIn crypto.Token)
  unfolding use_backup_code issue_tokens
  login_with_totp totp sha r token code = do
    claims ← lift redis (decode_totp_challenge_token crypto c r.now token)
    id ← or_raise redis (int_of claims.sub) server_error
    w ← get_world redis
    u ← or_raise redis (get_user w.directory id) bad_request
    raise_if redis (not u.is_active) bad_request
    secret ← or_raise redis u.totp_secret bad_request
    raise_if redis (not u.totp_enabled || str_eq secret "") bad_request
    valid ← (if totp secret r.now code then pure redis true else use_backup_code sha code u)
    raise_if redis (not valid) bad_request
    issue_tokens r u.id

  -- `revoke_session(user.id, old_jti, old_exp)` if there is a jti
  unfoldable pub revoke_claims : Request → ℕ → Claims → M redis (Unit {0})
  revoke_claims r id claims = elim claims.jti [
    | none ↦ pure redis tt
    | some jti ↦
        if str_eq jti ""
        then pure redis tt
        else modify redis (put_keys redis id (revoke_session redis b r.now jti claims.exp))
  ]

  -- `refresh_access_token`
  unfoldable pub refresh_access_token : Request → crypto.Token → M redis (SignIn crypto.Token)
  unfolding revoke_claims issue_tokens
  refresh_access_token r token = do
    claims ← lift redis (decode_refresh_token crypto c r.now token)
    id ← or_raise redis (int_of claims.sub) server_error
    w ← get_world redis
    u ← or_raise redis (get_user w.directory id) unauthorized
    raise_if redis (not u.is_active) unauthorized
    revoke_claims r u.id claims
    issued ← issue_tokens r u.id
    modify redis (write redis (log_auth_event token_refresh (some u.id)))
    pure redis issued

  -- The user of a magic link: found and verified, or created if that is allowed. A commit with a
  -- name that is taken raises.
  unfoldable pub magic_link_user : Request → String → String → String → M redis User
  magic_link_user r email username password w = elim (get_by_email w.directory email) [
    | some u ↦
        if u.is_verified
        then (ok u, w)
        else (let u' = record u { is_verified = true; email_verified_at = some r.now } in
            (ok u', write redis (put_user u') w))
    | none ↦
        if not c.magic_link_allow_registration
        then (fail bad_request, w)
        else if username_taken username w.directory
        then (fail server_error, w)
        else (let u = magic_user w.directory.next_id email username password in
            (ok u, write redis (add_user u) w))
  ]

  -- `payload["sub"]` as a text, where `str` writes a number
  abbrev pub text_of : (ℕ → String) → Sub → String
  text_of str (by_email e) = e
  text_of str (by_id n) = str n

  -- `verify_magic_link`
  unfoldable pub verify_magic_link :
      (ℕ → String) → Request → crypto.Token → String → String → M redis (SignIn crypto.Token)
  unfolding magic_link_user issue_tokens
  verify_magic_link str r token username password = do
    claims ← lift redis (decode_magic_link_token crypto c r.now token)
    u ← magic_link_user r (text_of str claims.sub) username password
    issued ← issue_tokens r u.id
    modify redis (write redis (log_auth_event magic_link_login (some u.id)))
    pure redis issued

  -- `revoke_token`
  unfoldable pub revoke_token : Request → crypto.Token → M redis (Unit {0})
  unfolding get_current_user revoke_claims
  revoke_token r token = do
    u ← get_current_user crypto redis c b r.now token
    claims ← lift redis (decode_access_token crypto c r.now token)
    revoke_claims r u.id claims
    modify redis (write redis (log_auth_event token_revoke (some u.id)))

  -- `revoke_all_tokens`: the number of sessions
  unfoldable pub revoke_all_tokens : Request → crypto.Token → M redis ℕ
  unfolding get_current_user
  revoke_all_tokens r token = do
    u ← get_current_user crypto redis c b r.now token
    w ← get_world redis
    let (count, k) = revoke_all_user_sessions redis b r.now (w.keys u.id)
    modify redis (put_keys redis u.id (λ old. k))
    modify redis (write redis (log_auth_event token_revoke (some u.id)))
    pure redis count

  -- `revoke_session_endpoint`
  unfoldable pub revoke_session_endpoint : Request → crypto.Token → String → M redis (Unit {0})
  unfolding get_current_user
  revoke_session_endpoint r token jti = do
    u ← get_current_user crypto redis c b r.now token
    raise_if redis (str_eq jti "") bad_request
    w ← get_world redis
    s ← or_raise redis (get_session redis b r.now jti (w.keys u.id)) not_found
    modify redis (put_keys redis u.id (revoke_session redis b r.now jti s.expires_at))
    modify redis (write redis (log_auth_event token_revoke (some u.id)))

  -- `verify_email`
  unfoldable pub verify_email : ℕ → crypto.Token → M redis (Unit {0})
  verify_email now token = do
    claims ← lift redis (decode_verification_token crypto c now token)
    id ← or_raise redis (int_of claims.sub) server_error
    w ← get_world redis
    u ← or_raise redis (get_user w.directory id) not_found
    raise_if redis u.is_verified bad_request
    modify redis
        (write redis (put_user (record u { is_verified = true; email_verified_at = some now })))
