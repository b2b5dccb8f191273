-- ===== src/Cms/Slugs.antt =====
-- One live content per slug: the invariant of the site that its endpoints keep.
use mathlib.Core.Path.{subst}
use async_fastapi_template.Prelude.{
  ℕ, String, ◌+◌, ◌≤◌, ◌<◌, ◌==◌, ◌≡◌, refl, ap, Bool, true, false, none, some, some_injective,
  Option, List, [], ◌∷◌, select, find, count_if, arith, if◌then◌else◌, Bool-cases, inl, inr,
}
use async_fastapi_template.Crud.{put}
use async_fastapi_template.Identity.Security.{ok}
use async_fastapi_template.Cms.{Content, content_model, Site, is_seen, one_or_none, get_by_slug}

-- The ids fall from the next one on: the table is newest first.
abbrev pub IsBelow : ℕ → List Content → Type 0
IsBelow n [] = Unit
IsBelow n (p ∷ rows) = (p.id < n) × IsBelow p.id rows

-- The number of live contents with a slug
abbrev pub live : Option ℕ → String → List Content → ℕ
live cur slug rows = count_if (is_seen cur slug) rows

pub record IsTidy (cur : Option ℕ) (s : Site) : Type 0 where
  pub newest : IsBelow s.next_id s.rows
  pub single : (slug : String) → live cur slug s.rows ≤ 1

none_selected :
    (q : Content → Bool) (rows : List Content) → count_if q rows ≡ 0 → select q rows ≡ []
none_selected q [] h = refl
none_selected q (p ∷ rows) h = elim (Bool-cases (q p)) [
  | inl e ↦ absurd (ground (arith, h, e))
  | inr e ↦ rw e (none_selected q rows (ground (arith, h, e)))
]

-- A search whose answer is at most one row never raises.
one_found :
    (q : Content → Bool) (rows : List Content)
    → count_if q rows ≤ 1
    → one_or_none (select q rows) ≡ ok (find q rows)
one_found q [] h = refl
one_found q (p ∷ rows) h = elim (Bool-cases (q p)) [
  | inl e ↦ rw (e, none_selected q rows (ground (arith, h, e))) refl
  | inr e ↦ rw e (one_found q rows (ground (arith, h, e)))
]

pub none_found :
    (q : Content → Bool) (rows : List Content) → find q rows ≡ none → count_if q rows ≡ 0
none_found q [] f = refl
none_found q (p ∷ rows) f = elim (Bool-cases (q p)) [
  | inl e ↦ absurd (grind (arith, rw e at f))
  | inr e ↦ rw e (omega (arith, none_found q rows (rw e at f)))
]

-- On a tidy site a look-up by slug answers with the live content of the slug, if there is one.
pub get_by_slug-IsTidy :
    (cur : Option ℕ) (s : Site) (slug : String)
    → IsTidy cur s
    → get_by_slug cur slug none s.rows ≡ ok (find (is_seen cur slug) s.rows)
unfolding get_by_slug
get_by_slug-IsTidy cur s slug h = one_found (is_seen cur slug) s.rows (h.single slug)

found_below :
    (n : ℕ) (q : Content → Bool) (p : Content) (rows : List Content)
    → IsBelow n rows
    → find q rows ≡ some p
    → p.id < n
found_below n q p [] h f = absurd cc
found_below n q p (r ∷ rows) h f = elim (Bool-cases (q r)) [
  | inl e ↦ subst (λ (x : Content). x.id < n) (some_injective r p (rw e at f)) h.0
  | inr e ↦ omega (arith, h.0, found_below r.id q p rows h.1 (rw e at f))
]

put_misses :
    (n : ℕ) (x : Content) (rows : List Content)
    → IsBelow n rows
    → n ≤ x.id
    → put content_model x rows ≡ rows
put_misses n x [] h l = refl
put_misses n x (r ∷ rows) h l =
    let e : (r.id == x.id) ≡ false = ground (arith, h.0, l) in
    rw e (ap (λ t. r ∷ t) (put_misses r.id x rows h.1 (omega (arith, h.0, l))))

-- Writing a row in the place of one that was found changes a count by the two rows.
pub put-count :
    (n : ℕ) (q t : Content → Bool) (p x : Content) (rows : List Content)
    → IsBelow n rows
    → find q rows ≡ some p
    → x.id ≡ p.id
    → count_if t (put content_model x rows) + (if t p then 1 else 0)
      ≡ count_if t rows + (if t x then 1 else 0)
put-count n q t p x [] h f e = absurd cc
put-count n q t p x (r ∷ rows) h f e = elim (Bool-cases (q r)) [
  | inl b ↦
      let i = some_injective r p (rw b at f) in
      let same : (r.id == x.id) ≡ true = ground (arith, ap (λ (y : Content). y.id) i, e) in
      let m = put_misses r.id x rows h.1 (ground (arith, ap (λ (y : Content). y.id) i, e)) in
      rw (same, m, i) (omega arith)
  | inr b ↦
      let l = found_below r.id q p rows h.1 (rw b at f) in
      let other : (r.id == x.id) ≡ false = ground (arith, l, e) in
      rw other (omega (arith, put-count r.id q t p x rows h.1 (rw b at f) e))
]

pub put-IsBelow :
    (n : ℕ) (x : Content) (rows : List Content)
    → IsBelow n rows
    → IsBelow n (put content_model x rows)
put-IsBelow n x [] h = tt
put-IsBelow n x (r ∷ rows) h = elim (Bool-cases (r.id == x.id)) [
  | inl b ↦
      let i : r.id ≡ x.id = ground (arith, b) in
      rw b (
        omega (arith, i, h.0),
        subst (λ k. IsBelow k (put content_model x rows)) i (put-IsBelow r.id x rows h.1),
      )
  | inr b ↦ rw b (h.0, put-IsBelow r.id x rows h.1)
]

pub IsBelow-later : (n m : ℕ) (rows : List Content) → IsBelow n rows → n ≤ m → IsBelow m rows
IsBelow-later n m [] h l = tt
IsBelow-later n m (r ∷ rows) h l = (omega (arith, h.0, l), h.1)
