-- ===== src/Identity/Oauth/Stored.antt =====
-- The states of the social sign-in: what is stored under their keys.
use async_fastapi_template.Prelude.{
  ℕ, String, ◌≡◌, ap, refl, none, some, arith, Option-cases, inl, inr,
}
use async_fastapi_template.Identity.Blacklist
use async_fastapi_template.Identity.Sessions.{RedisSessions}
use async_fastapi_template.Identity.Security.{Settings, Crypto, fail, bad_request}
use async_fastapi_template.Identity.Login.{Request}
use async_fastapi_template.Identity.Oauth.{
  RedisKeys, Providers, Strings, OauthWorld, state_key, consume_oauth_state, oauth_login,
  oauth_callback,
}

-- A state that was consumed is not there a second time.
pub consume_oauth_state_once :
    (r : RedisKeys) (now later : ℕ) (state : String) (s : r.Store) (value : String)
    → (consume_oauth_state r now state s).0 ≡ some value
    → (consume_oauth_state r later state (consume_oauth_state r now state s).1).0 ≡ none
unfolding consume_oauth_state
consume_oauth_state_once r now later state s value e =
    elim (Option-cases (r.get now (state_key state) s)) [
      | inl f ↦ absurd (grind (arith, e, f))
      | inr (v, f) ↦ rw (consume_oauth_state, f, r.get_delete later (state_key state) s) refl
    ]

consume_none :
    (r : RedisKeys) (now : ℕ) (state : String) (s : r.Store)
    → r.get now (state_key state) s ≡ none
    → consume_oauth_state r now state s ≡ (none, s)
unfolding consume_oauth_state
consume_none r now state s e = rw (consume_oauth_state, e) refl

module _ (crypto : Crypto) (redis : RedisSessions) (c : Settings) (b : Blacklist.Settings)
    (r : RedisKeys) (net : Providers) (py : Strings) where
  abbrev S : Type 0
  S = OauthWorld crypto redis c b r net py

  -- The calls of the social sign-in: one call of the two endpoints leads from a state to the next.
  pub data Step : S → S → Type 0 where
    login :
        (provider state : String) (w : S)
        → Step w (oauth_login crypto redis c b r net py provider state w).1
    callback :
        (q : Request) (password provider code state : String) (w : S)
        → Step w (oauth_callback crypto redis c b r net py q password provider code state w).1

  pub data Steps : S → S → Type 0 where
    stop : (w : S) → Steps w w
    step : (w v u : S) → Step w v → Steps v u → Steps w u

  -- No state is stored.
  abbrev pub IsBare : S → Type 0
  IsBare w = (now : ℕ) (state : String) → r.get now (state_key state) w.states ≡ none

  Step-IsBare : (w v : S) → Step w v → IsBare w → IsBare v
  unfolding oauth_login oauth_callback
  Step-IsBare w v (login provider state _) h =
      elim (Option-cases (net.get_authorize_url provider state)) [
        | inl f ↦ rw (oauth_login, f) h
        | inr (url, f) ↦ rw (oauth_login, f) h
      ]
  Step-IsBare w v (callback q password provider code state _) h = λ now s.
      let n = consume_none r q.now state w.states (h q.now state) in
      rw (oauth_callback, ap (λ x. x.0) n, ap (λ x. x.1) n) (h now s)

  Steps-IsBare : (w v : S) → Steps w v → IsBare w → IsBare v
  Steps-IsBare w v (stop _) h = h
  Steps-IsBare w v (step _ u _ s ss) h = Steps-IsBare u v ss (Step-IsBare w u s h)

  -- From a store without states, no sequence of sign-ins and callbacks leads to a callback that
  -- succeeds: each one is answered by a bad request and changes nothing of the users.
  pub oauth_callback_fails :
      (w v : S) (q : Request) (password provider code state : String)
      → IsBare w
      → Steps w v
      → ((oauth_callback crypto redis c b r net py q password provider code state v).0
          ≡ fail bad_request)
        × ((oauth_callback crypto redis c b r net py q password provider code state v).1.world
            ≡ v.world)
  unfolding oauth_callback consume_oauth_state
  oauth_callback_fails w v q password provider code state h s =
      let n = Steps-IsBare w v s h q.now state in
      rw (oauth_callback, consume_oauth_state, n) (refl, refl)
