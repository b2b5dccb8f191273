-- ===== src/Openapi.antt =====
-- scripts/check_api_breaking.py: the comparison of two OpenAPI documents. A document is what the
-- script reads of it: the keys of each path, and the properties of each schema. A set is a list,
-- in whose order its elements are reported.
pub mod Compatible
pub mod Report
pub mod Served
mod Tests
use text.Mathlib.Text.{◌==◌ as str_eq}
use async_fastapi_template.Prelude.{
  String, Bool, true, false, not, Option, none, some, List, [], ◌∷◌, ◌++◌, any, select,
  if◌then◌else◌,
}

pub record Schema : Type 0 where
  pub required : List String
  pub properties : List String

pub record Document : Type 0 where
  pub paths : List (String × List String)
  pub schemas : List (String × Schema)

pub data Change : Type 0 where
  endpoint_removed schema_removed : String → Change
  method_removed property_removed property_required : String → String → Change

abbrev pub has : String → List String → Bool
has x xs = any (str_eq x) xs

-- `d.get(key)`
unfoldable pub get : {A : Type 0} → String → List (String × A) → Option A
get k [] = none
get k ((j, a) ∷ rest) = if str_eq k j then some a else get k rest

abbrev pub is_method : String → Bool
is_method m = has m ("get" ∷ "post" ∷ "put" ∷ "patch" ∷ "delete" ∷ "head" ∷ "options" ∷ [])

abbrev pub add_endpoint :
    String → List String → List (String × List String) → List (String × List String)
add_endpoint p [] rest = rest
add_endpoint p (m ∷ ms) rest = (p, m ∷ ms) ∷ rest

-- `_flatten_schema`: a path without a method has no entry.
unfoldable pub flatten_schema : List (String × List String) → List (String × List String)
flatten_schema [] = []
flatten_schema ((p, methods) ∷ rest) =
    add_endpoint p (select is_method methods) (flatten_schema rest)

-- `xs - ys`
abbrev pub minus : List String → List String → List String
minus xs ys = select (λ x. not (has x ys)) xs

-- The changes that a loop over names appends
unfoldable pub report : (String → Change) → (String → Bool) → List String → List Change
report f is_bad [] = []
report f is_bad (x ∷ xs) = let rest = report f is_bad xs in if is_bad x then f x ∷ rest else rest

-- The loop over the endpoints of the old document
unfoldable pub endpoint_changes :
    List (String × List String) → List (String × List String) → List Change
unfolding get report
endpoint_changes new [] = []
endpoint_changes new ((p, methods) ∷ rest) = elim (get p new) [
  | none ↦ endpoint_removed p ∷ endpoint_changes new rest
  | some kept ↦
      report (method_removed p) (λ m. not (has m kept)) methods ++ endpoint_changes new rest
]

-- The loop over the schemas of the old document
unfoldable pub schema_changes : List (String × Schema) → List (String × Schema) → List Change
unfolding get report
schema_changes new [] = []
schema_changes new ((n, s) ∷ rest) = elim (get n new) [
  | none ↦ schema_removed n ∷ schema_changes new rest
  | some t ↦
      report (property_removed n) (λ p. has p s.required) (minus s.properties t.properties)
      ++ schema_changes new rest
]

-- The loop over the schemas of the new document
unfoldable pub required_changes : List (String × Schema) → List (String × Schema) → List Change
unfolding get report
required_changes old [] = []
required_changes old ((n, t) ∷ rest) = elim (get n old) [
  | none ↦ required_changes old rest
  | some s ↦
      report (property_required n) (λ p. true) (minus t.required s.required)
      ++ required_changes old rest
]

-- `find_breaking_changes`
unfoldable pub find_breaking_changes : Document → Document → List Change
unfolding flatten_schema endpoint_changes schema_changes required_changes
find_breaking_changes old new =
    endpoint_changes (flatten_schema new.paths) (flatten_schema old.paths)
    ++ (schema_changes new.schemas old.schemas ++ required_changes old.schemas new.schemas)
