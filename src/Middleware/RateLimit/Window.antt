-- ===== src/Middleware/RateLimit/Window.antt =====
-- The sliding window against the history of the requests.
use text.Mathlib.Text.{◌==◌ as str_eq}
use text.Mathlib.TextEquality.{eq_iff}
use text.Mathlib.TextPositions.{eq_refl}
use mathlib.Core.Path.{subst}
use async_fastapi_template.Prelude.{
  ℕ, String, ◌+◌, ◌-◌, ◌≤◌, ◌<◌, ◌≡◌, refl, ap, ◌∙◌, Bool, true, false, ◌&&◌, List, [], ◌∷◌, leb,
  ltb, length, select, count_if, arith, if◌then◌else◌, Bool-cases, inl, inr,
}
use async_fastapi_template.Middleware.RateLimit.{SortedSets, pipeline, check}

-- Requests, each with its key and its time, the latest first
abbrev pub History : Type 0
History = List (String × ℕ)

-- The times are in order, and none is after the given one.
abbrev pub IsPast : ℕ → History → Type 0
IsPast t [] = Unit
IsPast t (q ∷ history) = (q.1 ≤ t) × IsPast q.1 history

-- The requests of a key in the window that ends at a time
abbrev pub requests_in : ℕ → ℕ → String → History → ℕ
requests_in now window key history =
    count_if (λ (q : String × ℕ). str_eq key q.0 && ltb (now - window) q.1) history

IsPast-later : (now t : ℕ) (history : History) → now ≤ t → IsPast now history → IsPast t history
IsPast-later now t [] l h = tt
IsPast-later now t (q ∷ history) l h = (omega (arith, l, h.0), h.1)

module _ (redis : SortedSets) (window : ℕ) (start : redis.Store) where
  -- The sets after a history of checks
  pub after : History → redis.Store
  after [] = start
  after ((key, now) ∷ history) = (pipeline redis now key window (after history)).1

  count_as :
      (p : ℕ → Bool) (q : ℕ → Bool) (xs : List ℕ)
      → ((x : ℕ) → p x ≡ true → q x ≡ true)
      → count_if p (select q xs) ≡ count_if p xs
  count_as p q [] h = refl
  count_as p q (x ∷ xs) h = elim (Bool-cases (q x)) [
    | inl e ↦ rw (e, count_as p q xs h) refl
    | inr e ↦ elim (Bool-cases (p x)) [
      | inl f ↦ absurd (ground (arith, e, h x f))
      | inr f ↦ rw (e, f) (omega (arith, count_as p q xs h))
    ]
  ]

  count_select : (q : ℕ → Bool) (xs : List ℕ) → count_if (λ x. true) (select q xs) ≡ count_if q xs
  count_select q [] = refl
  count_select q (x ∷ xs) = elim (Bool-cases (q x)) [
    | inl e ↦ rw (e, count_select q xs) refl
    | inr e ↦ rw e (omega (arith, count_select q xs))
  ]

  length_count : (xs : List ℕ) → length xs ≡ count_if (λ x. true) xs
  length_count [] = refl
  length_count (x ∷ xs) = omega (arith, length_count xs)

  -- No request of the past is later.
  past_none :
      (p : ℕ → Bool) (key : String) (t : ℕ) (history : History)
      → ((x : ℕ) → x ≤ t → p x ≡ false)
      → IsPast t history
      → count_if (λ (q : String × ℕ). str_eq key q.0 && p q.1) history ≡ 0
  past_none p key t [] h k = refl
  past_none p key t ((j, now) ∷ history) h k =
      let f = h now k.0 in
      let r = past_none p key now history (λ x l. h x (omega (arith, l, k.0))) k.1 in
      ground (arith, f, r)

  -- What is a window ago is outside.
  outside :
      (p : ℕ → Bool) (now t : ℕ)
      → ((x : ℕ) → p x ≡ true → t - window < x)
      → ltb t (now + window) ≡ false
      → (x : ℕ) → x ≤ now
      → p x ≡ false
  outside p now t h b x l = elim (Bool-cases (p x)) [
    | inl e ↦ absurd (ground (arith, h x e, l, b))
    | inr e ↦ e
  ]

  -- A check of the same key
  counted_same :
      (p : ℕ → Bool) (key : String) (now t : ℕ) (history : History)
      → ((x : ℕ) → p x ≡ true → t - window < x)
      → now ≤ t
      → IsPast now history
      → count_if p (redis.scores now key (after history))
        ≡ count_if (λ (r : String × ℕ). str_eq key r.0 && p r.1) history
      → count_if p (redis.scores t key (after ((key, now) ∷ history)))
        ≡ (if p now then 1 else 0) + count_if (λ (r : String × ℕ). str_eq key r.0 && p r.1) history
  unfolding after pipeline
  counted_same p key now t history h l k i =
      let s = after history in
      let s' = redis.zremrangebyscore now key (now - window) s in
      let s'' = redis.zadd now key now s' in
      let x = redis.scores_expire now window t key s'' l in
      elim (Bool-cases (ltb t (now + window))) [
        | inl b ↦
            ap (count_if p) (rw b at x)
            ∙ redis.scores_zadd p now now key s'
            ∙ ap (λ n. (if p now then 1 else 0) + n)
                (ap (count_if p) (redis.scores_zremrangebyscore now (now - window) key s)
                  ∙ count_as p (λ x. ltb (now - window) x) (redis.scores now key s)
                      (λ x y. ground (arith, h x y, l))
                  ∙ i)
        | inr b ↦
            let none_left = outside p now t h b in
            ap (count_if p) (rw b at x)
            ∙ rw (none_left now (omega arith), past_none p key now history none_left k) refl
      ]

  module _ (empty : (t : ℕ) (k : String) → redis.scores t k start ≡ []) where
    -- What the window of a later time holds is what the history has in it.
    counted :
        (p : ℕ → Bool) (key : String) (t : ℕ) (history : History)
        → ((x : ℕ) → p x ≡ true → t - window < x)
        → IsPast t history
        → count_if p (redis.scores t key (after history))
          ≡ count_if (λ (q : String × ℕ). str_eq key q.0 && p q.1) history
    unfolding after pipeline
    counted p key t [] h k = rw (empty t key) refl
    counted p key t ((j, now) ∷ history) h k =
        let s = after history in
        let s' = redis.zremrangebyscore now j (now - window) s in
        let s'' = redis.zadd now j now s' in
        elim (Bool-cases (str_eq key j)) [
          | inl e ↦
              let q = (eq_iff key j).0 e in
              let i = counted p key now history (λ x y. omega (arith, h x y, k.0)) k.1 in
              rw e (
                subst
                  (λ y.
                    count_if p (redis.scores t key (after ((y, now) ∷ history)))
                    ≡ (if p now then 1 else 0)
                      + count_if (λ (r : String × ℕ). str_eq key r.0 && p r.1) history)
                  q (counted_same p key now t history h k.0 k.1 i))
          | inr e ↦
              let z = (redis.scores_other now (now - window) now window t key j s e).0 in
              let a = (redis.scores_other now (now - window) now window t key j s' e).1 in
              let x = (redis.scores_other now (now - window) now window t key j s'' e).2 in
              rw e (
                ap (count_if p) (x ∙ a ∙ z)
                ∙ counted p key t history h (IsPast-later now t history k.0 k.1)
                ∙ omega arith)
        ]

    card :
        (now : ℕ) (key : String) (history : History)
        → IsPast now history
        → 1 ≤ window
        → 1 ≤ now
        → (pipeline redis now key window (after history)).0
          ≡ requests_in now window key ((key, now) ∷ history)
    unfolding pipeline
    card now key history k w n =
        let q = λ (x : ℕ). ltb (now - window) x in
        let s = after history in
        let s' = redis.zremrangebyscore now key (now - window) s in
        redis.zcard_scores now key (redis.zadd now key now s')
        ∙ length_count (redis.scores now key (redis.zadd now key now s'))
        ∙ redis.scores_zadd (λ x. true) now now key s'
        ∙ ap (λ m. 1 + m)
            (ap (count_if (λ x. true)) (redis.scores_zremrangebyscore now (now - window) key s)
              ∙ count_select q (redis.scores now key s)
              ∙ counted q key now history (λ x y. ground (arith, y)) k)
        ∙ rw (eq_refl key) (ground (arith, w, n))

    -- After any history of checks, in the order of time, of which none is later than this one and
    -- for every key with the same window: a request is allowed if and only if the window that
    -- ends with it holds at most as many requests of its key as the limit, itself and refused
    -- ones included, and the rest of the limit is what remains. Other keys do not count.
    pub check-requests_in :
        (now later limit : ℕ) (key : String) (history : History)
        → IsPast now history
        → 1 ≤ window
        → 1 ≤ now
        → let n = requests_in now window key ((key, now) ∷ history) in
          let result = (check redis now later key limit window (after history)).0 in
          (result.allowed ≡ leb n limit) × (result.remaining ≡ limit - n)
    unfolding check pipeline
    check-requests_in now later limit key history k w n =
        let e = card now key history k w n in rw e (refl, refl)
