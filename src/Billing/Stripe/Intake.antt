-- ===== src/Billing/Stripe/Intake.antt =====
-- `stripe_webhook` of app/billing/api/endpoints/stripe.py: the signature, the body, and what they
-- let through. Parsing a body is a parameter, which is `none` where it raises.
pub mod Signed
use text.Mathlib.Text.{◌==◌ as str_eq}
use async_fastapi_template.Prelude.{
  Text, ℕ, String, Bool, true, false, not, ◌||◌, Option, none, some, if◌then◌else◌,
}
use async_fastapi_template.Signing
use async_fastapi_template.Signing.{verify_signature_header}
use async_fastapi_template.Billing.Session.{World, Bus}
use async_fastapi_template.Billing.Dunning.{Config}
use async_fastapi_template.Billing.Json.{Json, str, Fields, Python, get_or, to_text, as_dict}
use async_fastapi_template.Billing.Stripe.{Outcome, receive}

-- The answers: 503, 400 for three reasons, an acknowledgement, or 500 for a body that is no
-- dictionary
pub data Answer : Type 0 where
  unavailable invalid_signature invalid_json missing no_dictionary : Answer
  received : Outcome → Answer

-- What the endpoint runs with: the secret, the tolerance, whether Stripe is set up, and the parser
pub record Setup : Type 1 where
  pub signing : Signing.Python
  pub python : Python
  pub config : Config
  pub secret : Text
  pub tolerance : ℕ
  pub is_configured : Bool
  pub parse : Text → Option Json

-- `not event_id or not event_type`
abbrev pub is_missing : Setup → Fields → Bool
is_missing s event =
    str_eq (to_text s.python (get_or "id" (str "") event)) ""
    || str_eq (to_text s.python (get_or "type" (str "") event)) ""

-- The end of `stripe_webhook`
unfoldable pub take_event : Setup → Option Bus → Fields → World → Answer × World
unfolding receive
take_event s bus event w =
    if is_missing s event
    then (missing, w)
    else (let (outcome, w') = receive s.python s.config bus event w in (received outcome, w'))

-- `stripe_webhook`, after the signature
unfoldable pub take_body : Setup → Option Bus → Text → World → Answer × World
unfolding take_event
take_body s bus body w = elim (s.parse body) [
  | none ↦ (invalid_json, w)
  | some v ↦ elim (as_dict v) [ none ↦ (no_dictionary, w) | some event ↦ take_event s bus event w ]
]

-- `stripe_webhook`
unfoldable pub stripe_webhook : Setup → Option Bus → ℕ → Text → Option Text → World → Answer × World
unfolding take_body
stripe_webhook s bus now body header w =
    if not s.is_configured
    then (unavailable, w)
    else if not (verify_signature_header s.signing now s.tolerance body s.secret header)
    then (invalid_signature, w)
    else take_body s bus body w
