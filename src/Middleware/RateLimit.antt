-- ===== src/Middleware/RateLimit.antt =====
-- app/core/rate_limiter.py and app/middleware/redis_rate_limit.py: the sliding window and the
-- tiers. Times are whole numbers of some fraction of a second, windows too. The sorted sets of
-- Redis, SHA-256, `split` and `strip`, and the routes are parameters.
pub mod Window
pub mod Limits
use Prim.Native.String.{◌++◌ as str_append}
use text.Mathlib.Text.{◌==◌ as str_eq}
use async_fastapi_template.Prelude.{
  ℕ, String, ◌+◌, ◌-◌, ◌≤◌, ◌<◌, ◌≡◌, Bool, true, false, not, ◌&&◌, ◌||◌, Option, none, some,
  is_some, List, [], ◌∷◌, leb, ltb, length, select, any, count_if, if◌then◌else◌,
}

-- The sorted sets of Redis, each under its key: `scores` is what a range over the whole set returns
-- at a time. `zadd` adds a new member, `zremrangebyscore` removes the scores up to a bound,
-- `expire` replaces the time at which the key goes.
pub record SortedSets : Type 1 where
  pub Store : Type 0
  pub scores : ℕ → String → Store → List ℕ
  pub zremrangebyscore : ℕ → String → ℕ → Store → Store
  pub zadd : ℕ → String → ℕ → Store → Store
  pub zcard : ℕ → String → Store → ℕ
  pub expire : ℕ → String → ℕ → Store → Store
  pub zcard_scores : (now : ℕ) (k : String) (s : Store) → zcard now k s ≡ length (scores now k s)
  pub scores_zremrangebyscore :
      (now bound : ℕ) (k : String) (s : Store)
      → scores now k (zremrangebyscore now k bound s) ≡ select (λ x. ltb bound x) (scores now k s)
  pub scores_zadd :
      (p : ℕ → Bool) (now score : ℕ) (k : String) (s : Store)
      → count_if p (scores now k (zadd now k score s))
        ≡ (if p score then 1 else 0) + count_if p (scores now k s)
  pub scores_expire :
      (now ttl t : ℕ) (k : String) (s : Store)
      → now ≤ t
      → scores t k (expire now k ttl s) ≡ (if ltb t (now + ttl) then scores now k s else [])
  pub scores_other :
      (now bound score ttl t : ℕ) (k j : String) (s : Store)
      → str_eq k j ≡ false
      → (scores t k (zremrangebyscore now j bound s) ≡ scores t k s)
        × (scores t k (zadd now j score s) ≡ scores t k s)
        × (scores t k (expire now j ttl s) ≡ scores t k s)

-- `RateLimitResult`
pub record RateLimitResult : Type 0 where
  pub allowed : Bool
  pub remaining : ℕ
  pub reset : ℕ

module _ (redis : SortedSets) where
  open redis use {Store, zremrangebyscore, zadd, zcard, expire}

  -- The pipeline of `check`: the number of requests in the window, this one included. The window
  -- reaches back to the epoch at most.
  unfoldable pub pipeline : ℕ → String → ℕ → Store → ℕ × Store
  pipeline now key window s =
      let s' = zadd now key now (zremrangebyscore now key (now - window) s) in
      (zcard now key s', expire now key window s')

  -- `RedisSlidingWindowLimiter.check`, that starts at `now` and computes `reset` at `later`; the
  -- value stands here before `int` rounds it down to a second.
  unfoldable pub check : ℕ → ℕ → String → ℕ → ℕ → Store → RateLimitResult × Store
  unfolding pipeline
  check now later key limit window s =
      let (count, s') = pipeline now key window s in
      (
        record {
          allowed = leb count limit;
          remaining = limit - count;
          reset = later - (now - (now - window)) + window;
        },
        s',
      )

pub record Settings : Type 0 where
  pub is_test : Bool
  pub rate_limit_enabled : Bool
  pub api_v1_str : String
  pub rate_limit_admin : ℕ
  pub rate_limit_sensitive : ℕ
  pub rate_limit_authenticated : ℕ
  pub rate_limit_public : ℕ
  pub rate_limit_window : ℕ

-- The text methods: `startswith`, `split(",")[0].strip()`, and the start of the SHA-256
pub record Texts : Type 0 where
  pub starts_with : String → String → Bool
  pub first_of : String → String
  pub hash_key : String → String

-- A request: the user that an outer middleware noted, the header, the peer, the path, and the limit
-- and window that its handler was marked with by `rate_limit`, if there is a handler.
pub record Request : Type 0 where
  pub user_id : Option String
  pub forwarded : Option String
  pub client_host : Option String
  pub path : String
  pub custom : Option (ℕ × ℕ)

-- `_get_remote_address`
unfoldable pub get_remote_address : Texts → Request → String
get_remote_address py q =
    let peer = elim q.client_host as (λ x. String) [ none ↦ "127.0.0.1" | some h ↦ h ] in
    elim q.forwarded [ none ↦ peer | some f ↦ if str_eq f "" then peer else py.first_of f ]

-- `_get_identifier`
unfoldable pub get_identifier : Texts → Request → String
unfolding get_remote_address
get_identifier py q = elim q.user_id [ none ↦ get_remote_address py q | some id ↦ id ]

-- `UNLIMITED_PATHS`
abbrev pub is_unlimited : String → Bool
is_unlimited path = str_eq path "/healthz" || (str_eq path "/readyz" || str_eq path "/metrics")

-- `SENSITIVE_PREFIXES`
abbrev pub sensitive_prefixes : Settings → List String
sensitive_prefixes c =
    str_append c.api_v1_str "/auth/login"
    ∷ str_append c.api_v1_str "/auth/register"
    ∷ str_append c.api_v1_str "/auth/oauth"
    ∷ str_append c.api_v1_str "/auth/totp"
    ∷ str_append c.api_v1_str "/auth/magic-link"
    ∷ []

pub data Tier : Type 0 where
  admin sensitive authenticated public : Tier

-- `_get_tier_config`: the tier and its limit
unfoldable pub get_tier_config : Texts → Settings → String → Bool → Tier × ℕ
get_tier_config py c path is_authenticated =
    if py.starts_with path "/admin"
    then (admin, c.rate_limit_admin)
    else if any (py.starts_with path) (sensitive_prefixes c)
    then (sensitive, c.rate_limit_sensitive)
    else if is_authenticated
    then (authenticated, c.rate_limit_authenticated)
    else (public, c.rate_limit_public)

abbrev pub tier_name : Tier → String
tier_name admin = "admin"
tier_name sensitive = "sensitive"
tier_name authenticated = "authenticated"
tier_name public = "public"

-- The key, the limit and the window that `dispatch` checks
unfoldable pub limit_of : Texts → Settings → Request → String × (ℕ × ℕ)
unfolding get_tier_config get_identifier
limit_of py c q =
    let (tier, limit) = get_tier_config py c q.path (is_some q.user_id) in
    let who = py.hash_key (get_identifier py q) in
    elim q.custom [
      | none ↦ (
        str_append "rate_limit:" (str_append (tier_name tier) (str_append ":" who)),
        (limit, c.rate_limit_window),
      )
      | some config ↦ (
        str_append "rate_limit:custom:" (str_append who (str_append ":" (py.hash_key q.path))),
        config,
      )
    ]

-- The answer: the application's with its headers, the application's alone, or a refusal
pub data Answer (R : Type 0) : Type 0 where
  plain : R → Answer R
  with_headers : R → (limit remaining reset : ℕ) → Answer R
  refused : Answer R

-- The end of `dispatch`
abbrev pub answer_of : {R : Type 0} → R → ℕ → RateLimitResult → Answer R
answer_of response limit result =
    if not result.allowed
    then refused
    else with_headers response limit result.remaining result.reset

-- `RedisRateLimitMiddleware.dispatch`, over what the application answers
unfoldable pub dispatch :
    {R : Type 0} (redis : SortedSets)
    → Texts
    → Settings
    → ℕ
    → ℕ
    → Request
    → R
    → redis.Store
    → Answer R × redis.Store
unfolding limit_of check
dispatch redis py c now later q response s =
    if c.is_test || not c.rate_limit_enabled
    then (plain response, s)
    else if is_unlimited q.path
    then (plain response, s)
    else (let (key, (limit, window)) = limit_of py c q in
        let (result, s') = check redis now later key limit window s in
        (answer_of response limit result, s'))
