-- ===== src/Identity/Sessions/Revoked.antt =====
-- Storing, revoking and listing sessions.
use text.Mathlib.Text.{◌==◌ as str_eq}
use async_fastapi_template.Prelude.{
  ℕ, String, ◌+◌, ◌≤◌, ◌≡◌, refl, true, none, some, List, [], ◌∷◌, ltb, if◌then◌else◌, arith, any,
  Bool-cases, inl, inr,
}
use async_fastapi_template.Identity.Blacklist.{Settings, blacklist_ttl_for}
use async_fastapi_template.Identity.Sessions.{
  Session, RedisSessions, Keys, store_session, get_session, list_active_sessions, list_each,
  revoke_each, revoke_all_user_sessions, put_meta, blacklist, expiry_of,
}

module _ (redis : RedisSessions) (c : Settings) (on : c.enabled ≡ true) where
  -- With the blacklist enabled, a stored session is read back as it was until its time to live has
  -- passed, and a session of another jti is read as before.
  pub get_session-store_session :
      (now t : ℕ) (s : Session) (jti : String) (k : Keys redis)
      → now ≤ t
      → get_session redis c t jti (store_session redis c now s k) ≡ (
          if str_eq jti s.jti
          then if ltb t (now + blacklist_ttl_for c now s.expires_at) then some s else none
          else get_session redis c t jti k)
  unfolding get_session store_session blacklist_ttl_for
  get_session-store_session now t s jti k le = elim (Bool-cases (str_eq jti s.jti)) [
    | inl e ↦
        rw (on, get_session, e)
          (redis.hgetall_hset now (blacklist_ttl_for c now s.expires_at) t s (k.meta jti) le)
    | inr e ↦ rw (on, get_session, e) refl
  ]

  deleted_each :
      (now t : ℕ) (jtis : List String) (jti : String) (k : Keys redis)
      → (get_session redis c t jti k ≡ none)
      → get_session redis c t jti (revoke_each redis c now jtis k) ≡ none
  unfolding get_session revoke_each
  deleted_each now t [] jti k h = h
  deleted_each now t (j ∷ jtis) jti k h =
      deleted_each now t jtis jti
        (put_meta redis j redis.hdelete
          (blacklist redis c now j (expiry_of (redis.hgetall now (k.meta j))) k))
        (elim (Bool-cases (str_eq jti j)) [
          | inl e ↦ rw (get_session, e) (redis.hgetall_deleted t (k.meta jti))
          | inr e ↦ rw (get_session, e) h
        ])

  revoked_each :
      (now t : ℕ) (jtis : List String) (jti : String) (k : Keys redis)
      → any (str_eq jti) jtis ≡ true
      → get_session redis c t jti (revoke_each redis c now jtis k) ≡ none
  unfolding get_session revoke_each
  revoked_each now t [] jti k h = absurd cc
  revoked_each now t (j ∷ jtis) jti k h =
      let k' =
        put_meta redis j redis.hdelete
          (blacklist redis c now j (expiry_of (redis.hgetall now (k.meta j))) k) in
      elim (Bool-cases (str_eq jti j)) [
        | inl e ↦
            deleted_each now t jtis jti k'
              (rw (get_session, e) (redis.hgetall_deleted t (k.meta jti)))
        | inr e ↦ revoked_each now t jtis jti k' (ground (arith, h, e))
      ]

  -- With the blacklist enabled, after all sessions of a user are revoked none is listed, at any
  -- time, and none of those that were listed can be read.
  pub revoke_all_user_sessions-list :
      (now t : ℕ) (jti : String) (k : Keys redis)
      → any (str_eq jti) (redis.zrevrange now k.sessions) ≡ true
      → let (count, k') = revoke_all_user_sessions redis c now k in
        (list_active_sessions redis c t k' ≡ ([], k')) × (get_session redis c t jti k' ≡ none)
  unfolding list_active_sessions list_each revoke_all_user_sessions get_session
  revoke_all_user_sessions-list now t jti k h =
      let k' = revoke_each redis c now (redis.zrevrange now k.sessions) k in
      (
        simp (on, redis.zrevrange_deleted t k'.sessions) refl,
        simp on (revoked_each now t (redis.zrevrange now k.sessions) jti k h),
      )
