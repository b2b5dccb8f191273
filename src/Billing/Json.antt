-- ===== src/Billing/Json.antt =====
-- The JSON of an inbound Stripe event, as the Python values that `request.json()` makes of it, and
-- the operations of app/billing/services/stripe_events.py on them. A number is what its sign and
-- size say: an integer, a float in millionths, or a negative one of either kind.
use text.Mathlib.Text.{◌==◌ as str_eq}
use async_fastapi_template.Prelude.{
  ℕ, String, ◌*◌, Bool, true, false, Option, none, some, ltb, if◌then◌else◌, ◌≡◌, arith,
}
use text.Mathlib.TextEquality.{eq_iff}

mutual
  pub data Json : Type 0 where
    null negative : Json
    bool : Bool → Json
    num real : ℕ → Json
    str : String → Json
    arr : Items → Json
    obj : Fields → Json

  pub data Items : Type 0 where
    nil : Items
    cons : Json → Items → Items

  pub data Fields : Type 0 where
    end : Fields
    field : String → Json → Fields → Fields

-- `d.get(key, default)`
unfoldable pub get_or : String → Json → Fields → Json
get_or k d end = d
get_or k d (field j v fs) = if str_eq j k then v else get_or k d fs

-- `d.get(key)`
abbrev pub get : String → Fields → Json
get k fs = get_or k null fs

-- `{**d, key: value}`
unfoldable pub set_field : String → Json → Fields → Fields
set_field k v end = field k v end
set_field k v (field j u fs) = if str_eq j k then field j v fs else field j u (set_field k v fs)

-- `bool(value)`
unfoldable pub truthy : Json → Bool
truthy null = false
truthy negative = true
truthy (bool b) = b
truthy (num n) = ltb 0 n
truthy (real n) = ltb 0 n
truthy (str s) = if str_eq s "" then false else true
truthy (arr nil) = false
truthy (arr (cons x xs)) = true
truthy (obj end) = false
truthy (obj (field k v fs)) = true

-- `a or b`
abbrev pub or_json : Json → Json → Json
or_json a b = if truthy a then a else b

-- The fields of a dictionary; `none` for another value.
unfoldable pub as_dict : Json → Option Fields
as_dict (obj fs) = some fs
as_dict _ = none

-- `value if isinstance(value, str)`
unfoldable pub as_text : Json → Option String
as_text (str s) = some s
as_text _ = none

-- `datetime.fromtimestamp(float(value))` of a number that is positive, in microseconds; `True` is
-- 1.
unfoldable pub positive_time : Json → Option ℕ
positive_time (bool true) = some 1000000
positive_time (num n) = if ltb 0 n then some (n * 1000000) else none
positive_time (real n) = if ltb 0 n then some n else none
positive_time _ = none

-- What Python's `str` makes of a value that is no text, and how `int` reads a text as a row id.
pub record Python : Type 0 where
  pub repr : Json → String
  pub int_of : String → Option ℕ

-- `str(value)`
unfoldable pub to_text : Python → Json → String
to_text py (str s) = s
to_text py v = py.repr v

pub get-set_field : (k : String) (v d : Json) (fs : Fields) → get_or k d (set_field k v fs) ≡ v
unfolding get_or set_field
get-set_field k v d end = ground (arith, eq_iff k k)
get-set_field k v d (field j u fs) = ground (arith, eq_iff j k, get-set_field k v d fs)
