-- ===== src/Signing.antt =====
-- app/core/signing.py: the signature header of webhooks, which go out to subscribers and come in
-- from Stripe. HMAC and the texts of whole numbers are parameters; a body is its decoded text.
-- Signatures are ASCII: on others `compare_digest` raises, which is left out.
pub mod Header
pub mod Tests
use async_fastapi_template.Prelude.{
  ◌≡◌, ℕ, ◌+◌, ◌-◌, ◌==◌, Bool, true, false, not, ◌&&◌, ◌||◌, Option, none, some, List, [], ◌∷◌,
  ◌++◌, Text, same_text, is_empty, strip, split_comma, any, leb, max, ℤ, pos, negsuc, if◌then◌else◌,
  map, find_last, All, is_space,
}

-- What is neither a comma, an equals sign nor a space
abbrev pub is_plain : ℕ → Bool
is_plain c = not (c == 44) && (not (c == 61) && not (is_space c))

-- `hmac.new(secret, message, sha256).hexdigest()`, `str` of a whole number and `int` of a text,
-- which is `none` where it raises
pub record Python : Type 0 where
  pub hexdigest : Text → Text → Text
  pub str : ℤ → Text
  pub int : Text → Option ℤ
  pub int_str : (n : ℤ) → int (str n) ≡ some n
  pub str_plain : (n : ℤ) → All (λ c. is_plain c ≡ true) (str n)
  pub str_solid : (n : ℤ) → is_empty (str n) ≡ false
  pub hex_plain : (k m : Text) → All (λ c. is_plain c ≡ true) (hexdigest k m)
  pub hex_solid : (k m : Text) → is_empty (hexdigest k m) ≡ false

-- `"=" in item`
abbrev pub has_equals : Text → Bool
has_equals = any (λ c. c == 61)

-- `item.split("=", 1)`
unfoldable pub split_equals : Text → Text × Text
split_equals [] = ([], [])
split_equals (c ∷ cs) =
    let (key, value) = split_equals cs in if c == 61 then ([], cs) else (c ∷ key, value)

-- The loop over the items: the stripped pairs, in order
unfoldable pub parts : List Text → List (Text × Text)
unfolding split_equals
parts [] = []
parts (item ∷ items) =
    let rest = parts items in
    if has_equals item
    then (let (key, value) = split_equals item in (strip key, strip value) ∷ rest)
    else rest

-- `parts.get(key)`: of the pairs of a key the last one counts.
unfoldable pub value_of : Text → List (Text × Text) → Option Text
value_of key ps = elim (find_last (λ (p : Text × Text). same_text p.0 key) ps) [
  | none ↦ none
  | some p ↦ some p.1
]

-- "t" and "v1"
abbrev pub t_key : Text
t_key = 116 ∷ []

abbrev pub v1_key : Text
v1_key = 118 ∷ 49 ∷ []

-- `abs(now - timestamp)`
abbrev pub age : ℕ → ℤ → ℕ
age now (pos t) = max (now - t) (t - now)
age now (negsuc n) = now + n + 1

module _ (py : Python) where
  -- `sign_payload`
  unfoldable pub sign_payload : Text → Text → ℤ → Text
  sign_payload body secret timestamp = py.hexdigest secret (py.str timestamp ++ 46 ∷ body)

  -- `build_signature_header`
  unfoldable pub build_signature_header : Text → Text → ℤ → Text
  unfolding sign_payload
  build_signature_header body secret timestamp =
      (t_key ++ 61 ∷ py.str timestamp) ++ 44 ∷ (v1_key ++ 61 ∷ sign_payload body secret timestamp)

  -- The end of `verify_signature_header`
  unfoldable pub verify_parts : ℕ → ℕ → Text → Text → Text → Text → Bool
  unfolding sign_payload
  verify_parts now tolerance body secret t signature = elim (py.int t) [
    | none ↦ false
    | some timestamp ↦
        if not (leb (age now timestamp) tolerance)
        then false
        else same_text (sign_payload body secret timestamp) signature
  ]

  -- `not timestamp_str or not signature`
  unfoldable pub verify_values : ℕ → ℕ → Text → Text → Option Text → Option Text → Bool
  unfolding verify_parts
  verify_values now tolerance body secret none signature = false
  verify_values now tolerance body secret (some t) none = false
  verify_values now tolerance body secret (some t) (some signature) =
      if is_empty t || is_empty signature
      then false
      else verify_parts now tolerance body secret t signature

  -- `verify_signature_header`, at a time, with the tolerance that is asked for or configured
  unfoldable pub verify_signature_header : ℕ → ℕ → Text → Text → Option Text → Bool
  unfolding parts value_of verify_values split_comma
  verify_signature_header now tolerance body secret none = false
  verify_signature_header now tolerance body secret (some header) =
      if is_empty header
      then false
      else (let ps = parts (split_comma header) in
          verify_values now tolerance body secret (value_of t_key ps) (value_of v1_key ps))
