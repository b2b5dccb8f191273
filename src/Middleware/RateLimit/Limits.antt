-- ===== src/Middleware/RateLimit/Limits.antt =====
-- What the middleware answers, against the history of the checks.
use async_fastapi_template.Prelude.{
  ℕ, String, ◌-◌, ◌≤◌, ◌≡◌, refl, ◌∙◌, Bool, true, false, [], ◌∷◌, leb, arith, if◌then◌else◌,
}
use async_fastapi_template.Middleware.RateLimit.{
  SortedSets, Settings, Texts, Request, with_headers, refused, is_unlimited, limit_of, check,
  dispatch, answer_of, RateLimitResult,
}
use async_fastapi_template.Middleware.RateLimit.Window.{
  History, IsPast, requests_in, after, check-requests_in,
}

module _ (redis : SortedSets) (py : Texts) (c : Settings) (window : ℕ) (start : redis.Store)
    (empty : (t : ℕ) (k : String) → redis.scores t k start ≡ []) where
  reset_later :
      (now later limit : ℕ) (key : String) (s : redis.Store)
      → window ≤ now
      → window ≤ later
      → (check redis now later key limit window s).0.reset ≡ later
  unfolding check
  reset_later now later limit key s w l = omega (arith, w, l)

  answered :
      {R : Type 0} (response : R) (limit : ℕ) (allowed : Bool) (remaining reset : ℕ)
      (result : RateLimitResult)
      → result.allowed ≡ allowed
      → result.remaining ≡ remaining
      → result.reset ≡ reset
      → answer_of response limit result
        ≡ (if allowed then with_headers response limit remaining reset else refused)
  answered response limit true m t result a r e = rw (a, r, e) refl
  answered response limit false m t result a r e = rw a refl

  checked :
      {R : Type 0} (now later : ℕ) (q : Request) (response : R) (s : redis.Store) (w : ℕ)
      → c.is_test ≡ false
      → c.rate_limit_enabled ≡ true
      → is_unlimited q.path ≡ false
      → (limit_of py c q).1.1 ≡ w
      → (dispatch redis py c now later q response s).0
        ≡ answer_of response
            (limit_of py c q).1.0
            (check redis now later (limit_of py c q).0 (limit_of py c q).1.0 w s).0
  unfolding dispatch
  checked now later q response s w t on u e = rw (dispatch, t, on, u, e) refl

  -- Outside tests and with rate limits enabled, for a path that is limited, from empty sorted
  -- sets and after any history of checks in the order of time that all had the window of this
  -- one, at a time that is at least that window, a positive one, after the epoch: the request
  -- gets the application's answer if its key has at most the limit's number of requests in the
  -- window, itself included, and is refused otherwise. The headers state the limit, what is left
  -- of it, and as the time of the reset the time of the answer itself.
  pub dispatch-requests_in :
      {R : Type 0} (now later : ℕ) (q : Request) (response : R) (history : History)
      → c.is_test ≡ false
      → c.rate_limit_enabled ≡ true
      → is_unlimited q.path ≡ false
      → (limit_of py c q).1.1 ≡ window
      → IsPast now history
      → 1 ≤ window
      → window ≤ now
      → now ≤ later
      → let limit = (limit_of py c q).1.0 in
        let n = requests_in now window (limit_of py c q).0 (((limit_of py c q).0, now) ∷ history) in
        (dispatch redis py c now later q response (after redis window start history)).0
        ≡ (if leb n limit then with_headers response limit (limit - n) later else refused)
  unfolding dispatch
  dispatch-requests_in now later q response history t on u w k one le l =
      let key = (limit_of py c q).0 in
      let limit = (limit_of py c q).1.0 in
      let n = requests_in now window key ((key, now) ∷ history) in
      let s = after redis window start history in
      let h =
        check-requests_in redis window start empty now later limit key history k one
          (omega (arith, one, le)) in
      let r = reset_later now later limit key s le (omega (arith, le, l)) in
      checked now later q response s window t on u w
      ∙ answered response limit (leb n limit) (limit - n) later
          (check redis now later key limit window s).0 h.0 h.1 r
