-- ===== src/Openapi/Report.antt =====
-- The changes that a loop over names reports.
use mathlib.Core.Path.{subst}
use text.Mathlib.Text.{◌==◌ as str_eq}
use text.Mathlib.TextEquality.{eq_iff}
use async_fastapi_template.Prelude.{
  String, arith, ◌≡◌, refl, sym, Bool, true, false, not, List, [], ◌∷◌, ◌++◌, select, inl, inr,
  Bool-cases,
}
use async_fastapi_template.Openapi.{Change, has, minus, report}

pub both_empty : (xs ys : List Change) → xs ++ ys ≡ [] → (xs ≡ []) × (ys ≡ [])
both_empty [] ys e = (refl, e)
both_empty (x ∷ xs) ys e = absurd cc

pub has-select :
    (x : String) (q : String → Bool) (xs : List String)
    → has x xs ≡ true
    → q x ≡ true
    → has x (select q xs) ≡ true
has-select x q [] h e = h
has-select x q (y ∷ ys) h e = elim (Bool-cases (str_eq x y)) [
  | inl f ↦ let g = subst (λ z. q z ≡ true) ((eq_iff x y).0 f) e in rw (g, f) refl
  | inr f ↦
      let ih = has-select x q ys (ground (arith, h, f)) e in
      elim (Bool-cases (q y)) [ inl g ↦ rw (g, f) ih | inr g ↦ rw (g) ih ]
]

pub select-has :
    (x : String) (q : String → Bool) (xs : List String)
    → has x (select q xs) ≡ true
    → has x xs ≡ true
select-has x q [] h = h
select-has x q (y ∷ ys) h = elim (Bool-cases (q y)) [
  | inl g ↦
      let h' = rw (g) at h in
      elim (Bool-cases (str_eq x y)) [
        | inl f ↦ rw (f) refl
        | inr f ↦ let k = select-has x q ys (ground (arith, h', f)) in ground (arith, k)
      ]
  | inr g ↦ let k = select-has x q ys (rw (g) at h) in ground (arith, k)
]

pub report-clean :
    (f : String → Change) (is_bad : String → Bool) (x : String) (xs : List String)
    → report f is_bad xs ≡ []
    → has x xs ≡ true
    → is_bad x ≡ false
unfolding report
report-clean f is_bad x [] e h = absurd cc
report-clean f is_bad x (y ∷ ys) e h = elim (Bool-cases (is_bad y)) [
  | inl b ↦ absurd (cc (rw (report, b) at e))
  | inr b ↦ elim (Bool-cases (str_eq x y)) [
    | inl g ↦ subst (λ z. is_bad z ≡ false) (sym ((eq_iff x y).0 g)) b
    | inr g ↦ report-clean f is_bad x ys (rw (report, b) at e) (ground (arith, h, g))
  ]
]

pub report-minus :
    (f : String → Change) (q : String → Bool) (p : String) (xs ys : List String)
    → report f q (minus xs ys) ≡ []
    → q p ≡ true
    → has p xs ≡ true
    → has p ys ≡ true
report-minus f q p xs ys e r h = elim (Bool-cases (has p ys)) [
  | inl n ↦ n
  | inr n ↦
      let b =
        report-clean f q p (minus xs ys) e
          (has-select p (λ x. not (has x ys)) xs h (rw (n) refl)) in
      absurd (ground (arith, b, r))
]
