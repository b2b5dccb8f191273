-- ===== src/Identity/Login/Guarded.antt =====
-- What the sign-in endpoints hand out.
use async_fastapi_template.Prelude.{
  ℕ, String, ◌*◌, ◌≤◌, ◌≡◌, refl, true, false, none, some, arith, Option-cases, Bool-cases, inl,
  inr,
}
use async_fastapi_template.Identity.Model.{User, get_user, get_by_email}
use async_fastapi_template.Identity.Blacklist.{is_token_blacklisted}
use async_fastapi_template.Identity.Blacklist
use async_fastapi_template.Identity.Sessions.{RedisSessions}
use async_fastapi_template.Identity.Security.{
  Settings, Crypto, ok, Claims, by_id, int_of, refresh, create_access_token, create_refresh_token,
  create_totp_challenge_token, decode_access_token, decode_refresh_token, check_purpose,
  signing_key, secret_with, generated, make_jwt_payload, authenticate_user, authenticate_found,
  admitted_row, minute, day,
}
use async_fastapi_template.Identity.Call.{World}
use async_fastapi_template.Identity.Login.{
  Request, SignIn, challenge, tokens, remember, issue_tokens, login_for_access_token, revoke_claims,
  refresh_access_token,
}

module _ (crypto : Crypto) (redis : RedisSessions) (c : Settings) (b : Blacklist.Settings) where
  -- An access or refresh token is accepted when it is made.
  decode_made :
      (now lifetime : ℕ) (claims : Claims)
      → now ≤ claims.exp
      → crypto.decode (signing_key c) now (crypto.encode (signing_key c) claims) ≡ some claims
  decode_made now lifetime claims le = elim (Bool-cases c.rs256) [
    | inl e ↦ rw e (crypto.decode_encode generated now claims refl le)
    | inr e ↦ rw e (crypto.decode_encode (secret_with false) now claims refl le)
  ]

  made : Request → ℕ → SignIn crypto.Token
  made r id =
      tokens (create_access_token crypto c r.now r.access_jti (by_id id))
        (create_refresh_token crypto c r.now r.refresh_jti (by_id id))

  issued :
      (r : Request) (id : ℕ) (w : World redis)
      → ((issue_tokens crypto redis c b r id w).0 ≡ ok (made r id))
        × ((issue_tokens crypto redis c b r id w).1.directory ≡ w.directory)
  unfolding issue_tokens made decode_access_token decode_refresh_token check_purpose
      create_access_token create_refresh_token make_jwt_payload remember
  issued r id w =
      let a =
        decode_made r.now 0
          (make_jwt_payload r.now r.access_jti (by_id id) (c.access_token_expire_minutes * minute)
            none)
          (omega arith) in
      let f =
        decode_made r.now 0
          (make_jwt_payload r.now r.refresh_jti (by_id id) (c.refresh_token_expire_days * day)
            (some refresh))
          (omega arith) in
      ground (arith, a, f)

  refresh_decodes :
      (now : ℕ) (token : crypto.Token) (claims : Claims)
      → crypto.decode (signing_key c) now token ≡ some claims
      → claims.purpose ≡ some refresh
      → decode_refresh_token crypto c now token ≡ ok claims
  unfolding decode_refresh_token check_purpose
  refresh_decodes now token claims d p = ground (arith, d, p)

  revoke_claims_ok :
      (r : Request) (id : ℕ) (claims : Claims) (w : World redis)
      → ((revoke_claims crypto redis c b r id claims w).0 ≡ ok tt)
        × ((revoke_claims crypto redis c b r id claims w).1.directory ≡ w.directory)
  unfolding revoke_claims
  revoke_claims_ok r id claims w = elim (Option-cases claims.jti) [
    | inl e ↦ ground (arith, e)
    | inr (jti, e) ↦ ground (arith, e)
  ]

  -- A refresh token that decodes, for a user that is found and active, is exchanged for new
  -- tokens whatever has been revoked: also after it was revoked, or exchanged before.
  pub refresh_access_token_replays :
      (r : Request) (token : crypto.Token) (claims : Claims) (id : ℕ) (u : User) (w : World redis)
      → crypto.decode (signing_key c) r.now token ≡ some claims
      → claims.purpose ≡ some refresh
      → int_of claims.sub ≡ some id
      → get_user w.directory id ≡ some u
      → u.is_active ≡ true
      → (refresh_access_token crypto redis c b r token w).0
        ≡ ok (
            tokens
              (create_access_token crypto c r.now r.access_jti (by_id u.id))
              (create_refresh_token crypto c r.now r.refresh_jti (by_id u.id)))
  unfolding refresh_access_token made
  refresh_access_token_replays r token claims id u w d p i f a =
      let k = refresh_decodes r.now token claims d p in
      let v = revoke_claims_ok r u.id claims w in
      let n = issued r u.id (revoke_claims crypto redis c b r u.id claims w).1 in
      ground (arith, k, i, f, a, v.0, n.0)

  -- A user with a second factor gets no tokens for the password: only a challenge.
  pub login_for_access_token-totp_enabled :
      (r : Request) (email password jti : String) (u : User) (w : World redis)
      {s : SignIn crypto.Token}
      → get_by_email w.directory email ≡ some u
      → u.totp_enabled ≡ true
      → (login_for_access_token crypto redis c b r email password jti w).0 ≡ ok s
      → (s ≡ challenge (create_totp_challenge_token crypto c r.now jti u.id))
        × (crypto.verify_password password u.hashed_password ≡ true)
  unfolding login_for_access_token authenticate_user authenticate_found admitted_row
  login_for_access_token-totp_enabled r email password jti u w f t e = ground (arith, f, t, e)
