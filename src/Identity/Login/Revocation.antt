-- ===== src/Identity/Login/Revocation.antt =====
-- A token that its user revokes is refused from then on.
use text.Mathlib.Text.{◌==◌ as str_eq}
use async_fastapi_template.Prelude.{
  ℕ, String, ◌-◌, ◌≤◌, ◌<◌, ◌≡◌, ◌≢◌, true, false, some, arith, ==_self,
}
use async_fastapi_template.Identity.Model.{User}
use async_fastapi_template.Identity.Blacklist.{is_token_blacklisted, blacklist_token}
use async_fastapi_template.Identity.Blacklist
use async_fastapi_template.Identity.Blacklist.Lasting.{blacklist_token_refuses}
use async_fastapi_template.Identity.Sessions.{RedisSessions, Keys, revoke_session}
use async_fastapi_template.Identity.Security.{
  Settings, Crypto, ok, Claims, int_of, signing_key, decode_access_token,
}
use async_fastapi_template.Identity.Call.{World}
use async_fastapi_template.Identity.Access.{get_current_user, is_revoked}
use async_fastapi_template.Identity.Access.Admitted.{admitted}
use async_fastapi_template.Identity.Login.{Request, revoke_claims, revoke_token}

module _ (crypto : Crypto) (redis : RedisSessions) (c : Settings) (b : Blacklist.Settings) where
  -- The keys of the user after the revocation
  revoked_keys :
      (r : Request) (token : crypto.Token) (claims : Claims) (jti : String) (id : ℕ) (u : User)
      (w : World redis)
      → crypto.decode (signing_key c) r.now token ≡ some claims
      → claims.jti ≡ some jti
      → str_eq jti "" ≡ false
      → get_current_user crypto redis c b r.now token w ≡ (ok u, w)
      → ((revoke_token crypto redis c b r token w).0 ≡ ok tt)
        × ((revoke_token crypto redis c b r token w).1.keys u.id
            ≡ revoke_session redis b r.now jti claims.exp (w.keys u.id))
  unfolding revoke_token revoke_claims decode_access_token
  revoked_keys r token claims jti id u w d j n g = ground (arith, d, j, n, g, ==_self u.id)

  revoked_now :
      (now t : ℕ) (claims : Claims) (jti : String) (id : ℕ) (k : Keys redis) (w : World redis)
      → b.enabled ≡ true
      → claims.exp - now ≤ b.blacklist_ttl
      → claims.jti ≡ some jti
      → str_eq jti "" ≡ false
      → w.keys id ≡ revoke_session redis b now jti claims.exp k
      → now ≤ t
      → t < claims.exp
      → is_revoked crypto redis c b t claims id w ≡ true
  unfolding is_revoked revoke_session
  revoked_now now t claims jti id k w on le j n keys past lt =
      let m : Blacklist.Member = record { jti = jti; exp = claims.exp } in
      let refused =
        blacklist_token_refuses redis.set b on now t m k.blacklist past (ground arith)
          (omega arith) in
      rw (j, n, keys) (simp on refused)

  -- With the blacklist enabled and its time to live not below what is left of the token: a user
  -- that is signed in can revoke its token, if that has a jti, and the token is refused from then
  -- on, at every time but the very second of its expiry, until another token is revoked.
  pub revoke_token_lasts :
      (r : Request) (t : ℕ) (token : crypto.Token) (claims : Claims) (jti : String) (u v : User)
      (w : World redis)
      → b.enabled ≡ true
      → claims.exp - r.now ≤ b.blacklist_ttl
      → crypto.decode (signing_key c) r.now token ≡ some claims
      → claims.jti ≡ some jti
      → str_eq jti "" ≡ false
      → int_of claims.sub ≡ some u.id
      → get_current_user crypto redis c b r.now token w ≡ (ok u, w)
      → r.now ≤ t
      → t ≢ claims.exp
      → let (answer, w') = revoke_token crypto redis c b r token w in
        (answer ≡ ok tt) × ¬ ((get_current_user crypto redis c b t token w').0 ≡ ok v)
  revoke_token_lasts r t token claims jti u v w on le d j n i g now ne =
      let (answer, keys) = revoked_keys r token claims jti u.id u w d j n g in
      (
        answer,
        λ e.
            let (claims', id, d', i', r', f', a') =
              admitted crypto redis c b t token (revoke_token crypto redis c b r token w).1 v e in
            let same = crypto.decode_same (signing_key c) r.now t token claims claims' d d' in
            let unexpired = crypto.decode_unexpired (signing_key c) t token claims' d' in
            let mine : id ≡ u.id = ground (arith, i, i', same) in
            let refused =
              revoked_now r.now t claims jti u.id (w.keys u.id)
                (revoke_token crypto redis c b r token w).1 on le j n keys now
                (ground (arith, ne, unexpired, same)) in
            ground (arith, refused, r', mine, same),
      )
