-- ===== src/Middleware/Csrf/Guard.antt =====
-- What app/middleware/csrf.py lets through.
use text.Mathlib.Text.{starts_with}
use async_fastapi_template.Prelude.{
  Text, is_empty, same_text_self, same_text→≡, ◌≡◌, refl, ap, ◌∙◌, ◌↔◌, true, false, none, [], ◌∷◌,
  ◌++◌, if◌then◌else◌, take, drop, length, arith, inl, inr, Option-cases, Bool-cases,
}
use async_fastapi_template.Middleware.Csrf.{
  Hmac, verify_token, make_token, changes_state, Request, after_validation, validate_request,
  passed, dispatch,
}

take-append : (a b : Text) → take (length a) (a ++ b) ≡ a
take-append [] b = refl
take-append (x ∷ a) b = rw (take-append a b) refl

drop-append : (a b : Text) → drop (length a) (a ++ b) ≡ b
drop-append [] b = refl
drop-append (x ∷ a) b = drop-append a b

-- A token that the middleware makes of a random text of 16 characters is split into that text and
-- a signature of it, which verifies.
pub make_token-verify :
    (hmac : Hmac) (secret raw : Text)
    → length raw ≡ 16
    → let token = make_token hmac raw secret in
      (take 16 token ≡ raw) × (verify_token hmac (take 16 token) (drop 16 token) secret ≡ true)
unfolding make_token verify_token
make_token-verify hmac secret raw l =
    let t : take 16 (raw ++ hmac secret raw) ≡ raw = rw⁻¹ l (take-append raw (hmac secret raw)) in
    let d : drop 16 (raw ++ hmac secret raw) ≡ hmac secret raw =
      rw⁻¹ l (drop-append raw (hmac secret raw)) in
    (t, rw (t, d) (same_text_self (hmac secret raw)))

-- The token that the request shows besides its cookie
abbrev pub shown : Request → Text
shown r = if is_empty r.header then r.form else r.header

-- Both tokens are there, both are signed, and they carry the same value.
abbrev pub IsTrusted : Hmac → Text → Request → Type 0
IsTrusted hmac secret r =
    (is_empty (shown r) ≡ false)
    × (is_empty r.cookie ≡ false)
    × (hmac secret (take 16 r.cookie) ≡ drop 16 r.cookie)
    × (hmac secret (take 16 (shown r)) ≡ drop 16 (shown r))
    × (take 16 r.cookie ≡ take 16 (shown r))

-- What reaches the application: the request, but an empty body if it has no token in its header
abbrev pub reached : Request → Request
reached r = record r {
  form = if is_empty r.header then [] else r.form;
  body = if is_empty r.header then [] else r.body;
}

after_validation-reached : (r : Request) → after_validation r ≡ reached r
after_validation-reached r = elim (Bool-cases (is_empty r.header)) [
  | inl e ↦ rw e refl
  | inr e ↦ rw e refl
]

validate_request_iff :
    (hmac : Hmac) (secret : Text) (r : Request)
    → (validate_request hmac secret r ≡ none) ↔ IsTrusted hmac secret r
unfolding validate_request verify_token
validate_request_iff hmac secret r = (
  (λ e. (
    ground (arith, e),
    ground (arith, e),
    same_text→≡ _ _ (ground (arith, e)),
    same_text→≡ _ _ (ground (arith, e)),
    same_text→≡ _ _ (ground (arith, e)),
  )),
  (λ (x, c, s, t, m).
      rw
        (
          x,
          c,
          s,
          t,
          m,
          same_text_self (drop 16 r.cookie),
          same_text_self (drop 16 (shown r)),
          same_text_self (take 16 (shown r)),
        )
        refl),
)

-- A POST, PUT, PATCH or DELETE request under /admin is answered by the application if and only if
-- it is trusted: it carries both tokens, both are signed, and they have the same value. The
-- application gets the request unchanged if the token is in its header, and with an empty body if
-- it was read from the form.
pub dispatch_guards :
    {A : Type 0} (hmac : Hmac) (secret raw : Text) (call_next : Request → A) (r : Request)
    → starts_with r.path "/admin" ≡ true
    → changes_state r.method ≡ true
    → (dispatch hmac secret raw call_next r ≡ passed (call_next (reached r)) none)
      ↔ IsTrusted hmac secret r
unfolding dispatch
dispatch_guards hmac secret raw call_next r a c =
    let (to, from) = validate_request_iff hmac secret r in
    elim (Option-cases (validate_request hmac secret r)) [
      | inl e ↦ (
        (λ p. to e),
        λ t.
            let passes : dispatch hmac secret raw call_next r
                ≡ passed (call_next (after_validation r)) none =
              ground (arith, a, c, e) in
            passes ∙ ap (λ q. passed (call_next q) none) (after_validation-reached r),
      )
      | inr (f, e) ↦
          ((λ p. absurd (ground (arith, a, c, e, p))), λ t. absurd (ground (arith, e, from t)))
    ]
