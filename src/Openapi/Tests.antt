-- ===== src/Openapi/Tests.antt =====
-- A document that gains an endpoint and an optional property, and one that breaks it.
use async_fastapi_template.Prelude.{String, ◌≡◌, ◌⊎◌, refl, true, none, some, List, [], ◌∷◌}
use async_fastapi_template.Openapi.{
  Schema, Document, method_removed, property_required, get, find_breaking_changes,
}
use async_fastapi_template.Openapi.Served.{serves, implies}
use async_fastapi_template.Openapi.Compatible.{IsKept, find_breaking_changes-IsKept}

abbrev user : List String → List String → List (String × Schema)
user required properties = ("User", record { required = required; properties = properties }) ∷ []

abbrev old : Document
old = record {
  paths = ("/users", "get" ∷ "post" ∷ "parameters" ∷ []) ∷ [];
  schemas = user ("id" ∷ []) ("id" ∷ "name" ∷ []);
}

abbrev new : Document
new = record {
  paths = ("/users", "post" ∷ "get" ∷ []) ∷ ("/teams", "get" ∷ []) ∷ [];
  schemas = user ("id" ∷ []) ("id" ∷ "email" ∷ []);
}

abbrev narrower : Document
narrower = record {
  paths = ("/users", "get" ∷ []) ∷ [];
  schemas = user ("id" ∷ "name" ∷ []) ("id" ∷ "name" ∷ []);
}

broken :
    find_breaking_changes old narrower
    ≡ method_removed "/users" "post" ∷ property_required "User" "name" ∷ []
unfolding find_breaking_changes
broken = refl

find_breaking_changes-IsKept_example :
    ((p m : String) → implies (serves old.paths p m) (serves new.paths p m) ≡ true)
    × ((n : String)
        → (get n old.schemas ≡ none)
          ⊎ ((s : Schema) × (get n old.schemas ≡ some s)
              × (t : Schema) × (get n new.schemas ≡ some t)
              × IsKept s t))
unfolding find_breaking_changes
find_breaking_changes-IsKept_example = find_breaking_changes-IsKept old new refl
