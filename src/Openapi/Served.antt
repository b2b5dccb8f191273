-- ===== src/Openapi/Served.antt =====
-- The endpoints that a document serves.
use mathlib.Core.Path.{subst}
use text.Mathlib.Text.{◌==◌ as str_eq}
use text.Mathlib.TextEquality.{eq_iff}
use async_fastapi_template.Prelude.{
  String, arith, ◌≡◌, refl, sym, ◌∙◌, Bool, true, false, not, ◌&&◌, ◌||◌, some, some_injective,
  List, [], ◌∷◌, any, select, inl, inr, Bool-cases, Option-cases,
}
use async_fastapi_template.Openapi.{
  Document, has, get, is_method, add_endpoint, report, flatten_schema, endpoint_changes,
  method_removed,
}
use async_fastapi_template.Openapi.Report.{both_empty, has-select, select-has, report-clean}

-- An endpoint of a document: a path with an HTTP method
abbrev pub serves : List (String × List String) → String → String → Bool
serves paths p m =
    any (λ (e : String × List String). str_eq p e.0 && has m e.1) paths && is_method m

abbrev pub implies : Bool → Bool → Bool
implies a b = not a || b

pub implied : (a b : Bool) → (a ≡ true → b ≡ true) → implies a b ≡ true
implied true b h = h refl
implied false b h = refl

abbrev pub lists : List (String × List String) → String → String → Bool
lists paths p m = any (λ (e : String × List String). str_eq p e.0 && has m e.1) paths

lists-add_endpoint :
    (p m q : String) (ms : List String) (rest : List (String × List String))
    → lists (add_endpoint q ms rest) p m ≡ ((str_eq p q && has m ms) || lists rest p m)
lists-add_endpoint p m q [] rest = ground arith
lists-add_endpoint p m q (x ∷ xs) rest = refl

get-lists :
    (p m : String) (ms : List String) (paths : List (String × List String))
    → get p paths ≡ some ms
    → has m ms ≡ true
    → lists paths p m ≡ true
unfolding get
get-lists p m ms [] g h = absurd cc
get-lists p m ms ((q, ns) ∷ rest) g h = elim (Bool-cases (str_eq p q)) [
  | inl e ↦
      let n = some_injective ns ms (rw (get, e) at g) in
      let k = subst (λ x. has m x ≡ true) (sym n) h in ground (arith, e, k)
  | inr e ↦ let k = get-lists p m ms rest (rw (get, e) at g) h in ground (arith, k)
]

lists-flatten_schema :
    (p m : String) (paths : List (String × List String))
    → is_method m ≡ true
    → lists paths p m ≡ true
    → lists (flatten_schema paths) p m ≡ true
unfolding flatten_schema
lists-flatten_schema p m [] i h = h
lists-flatten_schema p m ((q, ms) ∷ rest) i h =
    let a = lists-add_endpoint p m q (select is_method ms) (flatten_schema rest) in
    elim (Bool-cases (str_eq p q && has m ms)) [
      | inl f ↦ let k = has-select m is_method ms (ground (arith, f)) i in a ∙ ground (arith, k, f)
      | inr f ↦
          let k = lists-flatten_schema p m rest i (ground (arith, h, f)) in a ∙ ground (arith, k)
    ]

flatten_schema-lists :
    (p m : String) (paths : List (String × List String))
    → lists (flatten_schema paths) p m ≡ true
    → lists paths p m ≡ true
unfolding flatten_schema
flatten_schema-lists p m [] h = h
flatten_schema-lists p m ((q, ms) ∷ rest) h =
    let a = lists-add_endpoint p m q (select is_method ms) (flatten_schema rest) in
    let h' = sym a ∙ h in
    elim (Bool-cases (str_eq p q && has m (select is_method ms))) [
      | inl f ↦ let k = select-has m is_method ms (ground (arith, f)) in ground (arith, k, f)
      | inr f ↦ let k = flatten_schema-lists p m rest (ground (arith, h', f)) in ground (arith, k)
    ]

endpoint_changes-lists :
    (p m : String) (new old : List (String × List String))
    → endpoint_changes new old ≡ []
    → lists old p m ≡ true
    → lists new p m ≡ true
unfolding endpoint_changes
endpoint_changes-lists p m new [] e h = absurd cc
endpoint_changes-lists p m new ((q, ms) ∷ rest) e h = elim (Option-cases (get q new)) [
  | inl g ↦ absurd (cc (rw (endpoint_changes, g) at e))
  | inr (kept, g) ↦
      let (r, k) =
        both_empty (report (method_removed q) (λ x. not (has x kept)) ms)
          (endpoint_changes new rest) (rw (endpoint_changes, g) at e) in
      elim (Bool-cases (str_eq p q && has m ms)) [
        | inl f ↦
            let b =
              report-clean (method_removed q) (λ x. not (has x kept)) m ms r (ground (arith, f)) in
            let q_is : str_eq p q ≡ true = ground (arith, f) in
            let k : has m kept ≡ true = ground (arith, b) in
            get-lists p m kept new
              (subst (λ z. get z new ≡ some kept) (sym ((eq_iff p q).0 q_is)) g) k
        | inr f ↦ endpoint_changes-lists p m new rest k (ground (arith, h, f))
      ]
]

pub served :
    (p m : String) (old new : Document)
    → endpoint_changes (flatten_schema new.paths) (flatten_schema old.paths) ≡ []
    → implies (serves old.paths p m) (serves new.paths p m) ≡ true
served p m old new ends = implied (serves old.paths p m) (serves new.paths p m) (λ h.
    let i : is_method m ≡ true = ground (arith, h) in
    let l : lists old.paths p m ≡ true = ground (arith, h) in
    let o =
      endpoint_changes-lists p m (flatten_schema new.paths) (flatten_schema old.paths) ends
        (lists-flatten_schema p m old.paths i l) in
    let b = flatten_schema-lists p m new.paths o in rw (b, i) refl)
