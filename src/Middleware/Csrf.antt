-- ===== src/Middleware/Csrf.antt =====
-- app/middleware/csrf.py: the double-submit cookie of the admin dashboard. Tokens are lists of
-- character codes. HMAC-SHA256 and the rest of the application are parameters.
pub mod Guard
use text.Mathlib.Text.{starts_with}
use async_fastapi_template.Prelude.{
  Text, same_text, is_empty, ℕ, String, Bool, true, false, not, ◌&&◌, ◌||◌, Option, none, some,
  List, [], ◌∷◌, ◌++◌, ◌==◌, if◌then◌else◌, take, drop,
}

-- `hmac.new(secret, value, sha256).hexdigest()`
abbrev pub Hmac : Type 0
Hmac = Text → Text → Text

-- `_sign_token`
unfoldable pub sign_token : Hmac → Text → Text → Text
sign_token hmac value secret = hmac secret value

-- `_verify_token`
unfoldable pub verify_token : Hmac → Text → Text → Text → Bool
unfolding sign_token
verify_token hmac value signature secret = same_text (sign_token hmac value secret) signature

-- `_make_token`, from the random text `secrets.token_hex(8)`
unfoldable pub make_token : Hmac → Text → Text → Text
unfolding sign_token
make_token hmac raw secret = raw ++ sign_token hmac raw secret

pub data Method : Type 0 where
  get post put patch delete other : Method

abbrev pub is_get : Method → Bool
is_get get = true
is_get _ = false

abbrev pub changes_state : Method → Bool
changes_state post = true
changes_state put = true
changes_state patch = true
changes_state delete = true
changes_state _ = false

-- What the middleware reads: absent cookies, headers and form fields are the empty text, and a form
-- field that is a file counts as absent.
pub record Request : Type 0 where
  pub path : String
  pub method : Method
  pub cookie : Text
  pub header : Text
  pub form : Text
  pub body : Text

pub data Refusal : Type 0 where
  token_missing cookie_invalid token_invalid token_mismatch : Refusal

-- `_validate_request`
unfoldable pub validate_request : Hmac → Text → Request → Option Refusal
unfolding verify_token
validate_request hmac secret r =
    let header = if is_empty r.header then r.form else r.header in
    if is_empty header || is_empty r.cookie
    then some token_missing
    else if not (verify_token hmac (take 16 r.cookie) (drop 16 r.cookie) secret)
    then some cookie_invalid
    else if not (verify_token hmac (take 16 header) (drop 16 header) secret)
    then some token_invalid
    else if not (same_text (take 16 r.cookie) (take 16 header))
    then some token_mismatch
    else none

-- The request after `_validate_request`: without a header, `request.form()` has read the stream of
-- the body, and Starlette gives the application an empty one.
abbrev pub after_validation : Request → Request
after_validation r = if is_empty r.header then record r { form = []; body = [] } else r

-- The answer: a 403, or that of the application with the cookie that is set on it.
pub data Answer (A : Type 0) : Type 0 where
  refused : Refusal → Answer A
  passed : A → Option Text → Answer A

-- `CSRFTokenMiddleware.dispatch`: `raw` is what `_make_token` draws.
unfoldable pub dispatch : {A : Type 0} → Hmac → Text → Text → (Request → A) → Request → Answer A
unfolding validate_request make_token
dispatch hmac secret raw call_next r =
    let admin = starts_with r.path "/admin" in
    let cookie = if admin && is_get r.method then some (make_token hmac raw secret) else none in
    if admin && changes_state r.method
    then elim (validate_request hmac secret r) [
      | some e ↦ refused e
      | none ↦ passed (call_next (after_validation r)) cookie
    ]
    else passed (call_next r) cookie
