-- ===== src/Identity/Access/Admitted.antt =====
-- Whom `get_current_user` admits.
use async_fastapi_template.Prelude.{
  ℕ, String, ◌+◌, ◌≤◌, ◌≡◌, refl, true, false, some, arith, Bool-cases, Option-cases, inl, inr,
}
use async_fastapi_template.Identity.Model.{User, get_with_roles}
use async_fastapi_template.Identity.Blacklist.{is_token_blacklisted}
use async_fastapi_template.Identity.Blacklist
use async_fastapi_template.Identity.Sessions.{RedisSessions}
use async_fastapi_template.Identity.Security.{
  Settings, Crypto, ok, Claims, int_of, by_id, decode_access_token, signing_key,
  create_totp_challenge_token, totp_challenge, secret_with,
}
use async_fastapi_template.Identity.Call.{World}
use async_fastapi_template.Identity.Access.{is_revoked, get_current_user}

module _ (crypto : Crypto) (redis : RedisSessions) (c : Settings) (b : Blacklist.Settings) where
  -- The token is signed and not expired, its subject is the user, who is active, and it is not
  -- revoked. Neither its purpose nor a soft deletion of the user counts.
  abbrev pub Admits : ℕ → crypto.Token → World redis → User → Type 0
  Admits now token w u =
      (claims : Claims) × (id : ℕ) × (crypto.decode (signing_key c) now token ≡ some claims)
      × (int_of claims.sub ≡ some id)
      × (is_revoked crypto redis c b now claims id w ≡ false)
      × (get_with_roles w.directory id ≡ some u)
      × (u.is_active ≡ true)

  pub admitted :
      (now : ℕ) (token : crypto.Token) (w : World redis) (u : User)
      → (get_current_user crypto redis c b now token w).0 ≡ ok u
      → Admits now token w u
  unfolding get_current_user decode_access_token
  admitted now token w u e = elim (Option-cases (crypto.decode (signing_key c) now token)) [
    | inl d ↦ absurd (ground (arith, e, d))
    | inr (claims, d) ↦ elim (Option-cases (int_of claims.sub)) [
      | inl i ↦ absurd (ground (arith, e, d, i))
      | inr (id, i) ↦ elim (Bool-cases (is_revoked crypto redis c b now claims id w)) [
        | inl r ↦ absurd (ground (arith, e, d, i, r))
        | inr r ↦ elim (Option-cases (get_with_roles w.directory id)) [
          | inl f ↦ absurd (ground (arith, e, d, i, r, f))
          | inr (v, f) ↦ elim (Bool-cases v.is_active) [
            | inl a ↦ (
              claims,
              id,
              d,
              i,
              r,
              ground (arith, e, d, i, r, f, a),
              ground (arith, e, d, i, r, f, a),
            )
            | inr a ↦ absurd (ground (arith, e, d, i, r, f, a))
          ]
        ]
      ]
    ]
  ]

  pub admits :
      (now : ℕ) (token : crypto.Token) (w : World redis) (u : User)
      → Admits now token w u
      → get_current_user crypto redis c b now token w ≡ (ok u, w)
  unfolding get_current_user decode_access_token
  admits now token w u (claims, id, d, i, r, f, a) = ground (arith, d, i, r, f, a)

  -- A challenge token, which the login hands out after the password and before the second factor,
  -- is accepted as an access token of the user until it expires, unless RS256 is configured.
  pub challenge-get_current_user :
      (now t id : ℕ) (jti : String) (u : User) (w : World redis)
      → c.rs256 ≡ false
      → t ≤ now + c.totp_challenge_expire_seconds
      → get_with_roles w.directory id ≡ some u
      → u.is_active ≡ true
      → is_token_blacklisted redis.set b t jti (w.keys id).blacklist ≡ false
      → (get_current_user crypto redis c b t (create_totp_challenge_token crypto c now jti id) w)
        ≡ (ok u, w)
  unfolding get_current_user decode_access_token create_totp_challenge_token is_revoked
  challenge-get_current_user now t id jti u w h le f a k =
      let claims : Claims = record {
        jti = some jti;
        sub = by_id id;
        iat = now;
        exp = now + c.totp_challenge_expire_seconds;
        purpose = some totp_challenge;
      } in
      admits t (create_totp_challenge_token crypto c now jti id) w u (
        claims,
        id,
        rw h (crypto.decode_encode (secret_with false) t claims refl le),
        refl,
        ground (arith, k),
        f,
        a,
      )
