-- ===== src/Middleware/Tests/Limits.antt =====
-- Sorted sets in memory: a function from keys, where an entry may have a time at which it goes.
use text.Mathlib.Text.{◌==◌ as str_eq}
use text.Mathlib.TextPositions.{eq_refl}
use async_fastapi_template.Prelude.{
  ℕ, String, ◌+◌, ◌-◌, ◌≡◌, refl, Bool, true, false, Option, none, some, List, [], ◌∷◌, ltb, leb,
  length, select, count_if, arith, if◌then◌else◌, Bool-cases, inl, inr,
}
use async_fastapi_template.Middleware.RateLimit.{
  SortedSets, Settings, Texts, Request, limit_of, dispatch, with_headers, refused,
}
use async_fastapi_template.Middleware.RateLimit.Window.{History, requests_in, after}
use async_fastapi_template.Middleware.RateLimit.Limits.{dispatch-requests_in}

abbrev Entry : Type 0
Entry = Option ℕ × List ℕ

abbrev is_there : ℕ → Option ℕ → Bool
is_there t none = true
is_there t (some until) = ltb t until

abbrev range : ℕ → Entry → List ℕ
range t (until, xs) = if is_there t until then xs else []

abbrev removed : ℕ → Entry → Entry
removed bound (until, xs) = (until, select (λ x. ltb bound x) xs)

abbrev added : ℕ → ℕ → Entry → Entry
added now score (until, xs) = if is_there now until then (until, score ∷ xs) else (none, score ∷ [])

abbrev lasting : ℕ → ℕ → Entry → Entry
lasting now ttl e = (some (now + ttl), range now e)

abbrev Entries : Type 0
Entries = String → Entry

abbrev set : String → (Entry → Entry) → Entries → Entries
set k f s j = if str_eq j k then f (s j) else s j

set_self : (k : String) (f : Entry → Entry) (s : Entries) → set k f s k ≡ f (s k)
set_self k f s = rw (eq_refl k) refl

set_other :
    (k j : String) (f : Entry → Entry) (s : Entries) → str_eq k j ≡ false → set j f s k ≡ s k
set_other k j f s e = rw e refl

range-removed :
    (now bound : ℕ) (e : Entry)
    → range now (removed bound e) ≡ select (λ x. ltb bound x) (range now e)
range-removed now bound (until, xs) = elim (Bool-cases (is_there now until)) [
  | inl e ↦ rw e refl
  | inr e ↦ rw e refl
]

range-added :
    (p : ℕ → Bool) (now score : ℕ) (e : Entry)
    → count_if p (range now (added now score e))
      ≡ (if p score then 1 else 0) + count_if p (range now e)
range-added p now score (until, xs) = elim (Bool-cases (is_there now until)) [
  | inl e ↦ rw (e, e) (omega arith)
  | inr e ↦ rw e (omega arith)
]

abbrev memory : SortedSets
memory = record {
  Store = Entries;
  scores = λ t k s. range t (s k);
  zremrangebyscore = λ now k bound s. set k (removed bound) s;
  zadd = λ now k score s. set k (added now score) s;
  zcard = λ now k s. length (range now (s k));
  expire = λ now k ttl s. set k (lasting now ttl) s;
  zcard_scores = λ now k s. refl;
  scores_zremrangebyscore =
      λ now bound k s. rw (set_self k (removed bound) s) (range-removed now bound (s k));
  scores_zadd =
      λ p now score k s. rw (set_self k (added now score) s) (range-added p now score (s k));
  scores_expire = λ now ttl t k s le. rw (set_self k (lasting now ttl) s) refl;
  scores_other = λ now bound score ttl t k j s e. (
    rw (set_other k j (removed bound) s e) refl,
    rw (set_other k j (added now score) s e) refl,
    rw (set_other k j (lasting now ttl) s e) refl,
  );
}

abbrev nothing : Entries
nothing k = (none, [])

abbrev earlier : History
earlier = ("k", 95) ∷ ("j", 94) ∷ ("k", 93) ∷ ("k", 12) ∷ []

abbrev settings : Settings
settings = record {
  is_test = false;
  rate_limit_enabled = true;
  api_v1_str = "/api/v1";
  rate_limit_admin = 30;
  rate_limit_sensitive = 10;
  rate_limit_authenticated = 100;
  rate_limit_public = 60;
  rate_limit_window = 60;
}

abbrev texts : Texts
texts = record { starts_with = str_eq; first_of = λ s. s; hash_key = λ s. s }

abbrev request : Request
request = record {
  user_id = some "7";
  forwarded = none;
  client_host = none;
  path = "/api/v1/users";
  custom = none;
}

window_is : (limit_of texts settings request).1.1 ≡ 60
unfolding limit_of
window_is = refl

dispatch-requests_in_example :
    let limit = (limit_of texts settings request).1.0 in
    let key = (limit_of texts settings request).0 in
    let n = requests_in 96 60 key ((key, 96) ∷ earlier) in
    (dispatch {R = String} memory texts settings 96 97 request "users"
      (after memory 60 nothing earlier)).0
    ≡ (if leb n limit then with_headers "users" limit (limit - n) 97 else refused)
dispatch-requests_in_example =
    dispatch-requests_in memory texts settings 60 nothing (λ t k. refl) 96 97 request "users"
      earlier refl refl refl window_is
      (omega arith, (omega arith, (omega arith, (omega arith, tt)))) (omega arith) (omega arith)
      (omega arith)
