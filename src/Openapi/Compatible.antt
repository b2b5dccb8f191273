-- ===== src/Openapi/Compatible.antt =====
-- What a comparison without findings means for a client of the old API.
use mathlib.Core.Path.{subst}
use text.Mathlib.Text.{◌==◌ as str_eq}
use text.Mathlib.TextEquality.{eq_iff}
use async_fastapi_template.Prelude.{
  String, arith, ◌≡◌, ◌⊎◌, refl, sym, true, ◌&&◌, none, some, some_injective, List, [], ◌∷◌, inl,
  inr, Bool-cases, Option-cases,
}
use async_fastapi_template.Openapi.{
  Schema, Document, has, get, minus, report, flatten_schema, endpoint_changes, schema_changes,
  required_changes, find_breaking_changes, property_removed, property_required,
}
use async_fastapi_template.Openapi.Report.{both_empty, report-minus}
use async_fastapi_template.Openapi.Served.{serves, implies, implied, served}

-- What was required and described is still described, and nothing more is required.
abbrev pub IsKept : Schema → Schema → Type 0
IsKept s t =
    (p : String)
    → (implies (has p s.required && has p s.properties) (has p t.properties) ≡ true)
      × (implies (has p t.required) (has p s.required) ≡ true)

-- The two loops over schemas, for the schemas of one name
schema_changes-get :
    (n : String) (s : Schema) (new old : List (String × Schema))
    → schema_changes new old ≡ []
    → get n old ≡ some s
    → (t : Schema) × (get n new ≡ some t)
      × ((p : String)
          → has p s.required ≡ true
          → has p s.properties ≡ true
          → has p t.properties ≡ true)
unfolding schema_changes get
schema_changes-get n s new [] e h = absurd cc
schema_changes-get n s new ((j, u) ∷ rest) e h = elim (Option-cases (get j new)) [
  | inl g ↦ absurd (cc (rw (schema_changes, g) at e))
  | inr (t, g) ↦
      let (r, k) =
        both_empty
          (report (property_removed j) (λ p. has p u.required) (minus u.properties t.properties))
          (schema_changes new rest) (rw (schema_changes, g) at e) in
      elim (Bool-cases (str_eq n j)) [
        | inl f ↦
            let same = some_injective u s (rw (get, f) at h) in
            (
              t,
              subst (λ z. get z new ≡ some t) (sym ((eq_iff n j).0 f)) g,
              λ p q x.
                  report-minus (property_removed j) (λ z. has z u.required) p u.properties
                    t.properties r (subst (λ (z : Schema). has p z.required ≡ true) (sym same) q)
                    (subst (λ (z : Schema). has p z.properties ≡ true) (sym same) x),
            )
        | inr f ↦ schema_changes-get n s new rest k (rw (get, f) at h)
      ]
]

required_changes-get :
    (n : String) (s t : Schema) (old new : List (String × Schema))
    → required_changes old new ≡ []
    → get n old ≡ some s
    → get n new ≡ some t
    → (p : String) → has p t.required ≡ true
    → has p s.required ≡ true
unfolding required_changes get
required_changes-get n s t old [] e o h p x = absurd cc
required_changes-get n s t old ((j, u) ∷ rest) e o h p x = elim (Bool-cases (str_eq n j)) [
  | inl f ↦
      let same = some_injective u t (rw (get, f) at h) in
      let g = subst (λ z. get z old ≡ some s) ((eq_iff n j).0 f) o in
      let (r, k) =
        both_empty (report (property_required j) (λ z. true) (minus u.required s.required))
          (required_changes old rest) (rw (required_changes, g) at e) in
      report-minus (property_required j) (λ z. true) p u.required s.required r refl
        (subst (λ (z : Schema). has p z.required ≡ true) (sym same) x)
  | inr f ↦ elim (Option-cases (get j old)) [
    | inl g ↦
        required_changes-get n s t old rest (rw (required_changes, g) at e) o (rw (get, f) at h) p x
    | inr (v, g) ↦
        let (r, k) =
          both_empty (report (property_required j) (λ z. true) (minus u.required v.required))
            (required_changes old rest) (rw (required_changes, g) at e) in
        required_changes-get n s t old rest k o (rw (get, f) at h) p x
  ]
]

-- If the comparison finds nothing, the new document serves each endpoint that the old one serves,
-- and has each schema of the old one under its name; in it each property that was required and
-- described is described, and nothing is required that was not.
pub find_breaking_changes-IsKept :
    (old new : Document)
    → find_breaking_changes old new ≡ []
    → ((p m : String) → implies (serves old.paths p m) (serves new.paths p m) ≡ true)
      × ((n : String)
          → (get n old.schemas ≡ none)
            ⊎ ((s : Schema) × (get n old.schemas ≡ some s)
                × (t : Schema) × (get n new.schemas ≡ some t)
                × IsKept s t))
unfolding find_breaking_changes
find_breaking_changes-IsKept old new e =
    let fo = flatten_schema old.paths in
    let fn = flatten_schema new.paths in
    let (ends, others) = both_empty (endpoint_changes fn fo) _ e in
    let (kept, wanted) = both_empty (schema_changes new.schemas old.schemas) _ others in
    (
      λ p m. served p m old new ends,
      λ n. elim (Option-cases (get n old.schemas)) [
        | inl g ↦ inl g
        | inr (s, g) ↦
            let (t, h, props) = schema_changes-get n s new.schemas old.schemas kept g in
            inr (
              s,
              g,
              t,
              h,
              λ p. (
                implied _ _ (λ x. props p (ground (arith, x)) (ground (arith, x))),
                implied _ _ (required_changes-get n s t old.schemas new.schemas wanted g h p),
              ),
            )
      ],
    )
