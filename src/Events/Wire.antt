-- ===== src/Events/Wire.antt =====
-- Events as texts.
use async_fastapi_template.Prelude.{◌≡◌, refl, some}
use async_fastapi_template.Billing.Json.{Json, get_or}
use async_fastapi_template.Events.{Event, Outside, item, to_dict, from_dict, to_json, from_json}

module _ (out : Outside) where
  open out use {dumps, loads}

  -- An event that is written is read back, every value of it included, if the reader of JSON
  -- takes back what its writer makes.
  pub from_json-to_json :
      ((j : Json) → loads (dumps j) ≡ some j) → (e : Event) → from_json out (to_json out e) ≡ some e
  unfolding from_json to_json to_dict from_dict item get_or
  from_json-to_json back e = rw (from_json, to_json, back (to_dict e)) refl
