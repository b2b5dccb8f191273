-- ===== src/Billing/Tests/Intake.antt =====
-- A signed event from Stripe.
use async_fastapi_template.Prelude.{
  Text, ◌≡◌, ◌⊎◌, refl, true, Option, none, some, [], ◌∷◌, ℕ, ℤ, pos,
}
use async_fastapi_template.Signing.{build_signature_header}
use async_fastapi_template.Signing.Tests
use async_fastapi_template.Billing.Session.{World}
use async_fastapi_template.Billing.Json.{str, obj, Fields, end, field, to_text, get_or, as_dict}
use async_fastapi_template.Billing.Stripe.{receive}
use async_fastapi_template.Billing.Stripe.Intake.{received, Setup, is_missing, stripe_webhook}
use async_fastapi_template.Billing.Stripe.Intake.Signed.{
  IsSigned, Processed, stripe_webhook-Signed, stripe_webhook-build,
}
use async_fastapi_template.Billing.Tests.Data.{member, world, bus, config}
use async_fastapi_template.Billing.Model.{active}

abbrev event : Fields
event = field "id" (str "evt_1") (field "type" (str "customer.created") end)

abbrev body : Text
body = 123 ∷ 125 ∷ []

abbrev setup : Setup
setup = record {
  signing = Tests.python;
  python = record { repr = λ v. ""; int_of = λ s. none };
  config = config;
  secret = 9 ∷ [];
  tolerance = 3;
  is_configured = true;
  parse = λ t. some (obj event);
}

abbrev header : Text
header = build_signature_header Tests.python body (9 ∷ []) (pos 3)

abbrev before : World
before = world (member active ∷ []) []

stripe_webhook-Signed_example :
    ((stripe_webhook setup (some bus) 5 body (some header) before).1 ≡ before)
    ⊎ ((text : Text) × (◌≡◌ {A = Option Text} (some header) (some text))
        × IsSigned setup (some bus) 5 body text
        × Processed setup
            (some bus)
            5
            body
            before
            (stripe_webhook setup (some bus) 5 body (some header) before))
stripe_webhook-Signed_example = stripe_webhook-Signed setup (some bus) 5 body (some header) before

whole : as_dict (obj event) ≡ some event
unfolding as_dict
whole = refl

named : is_missing setup event ≡ async_fastapi_template.Prelude.false
unfolding to_text get_or
named = refl

stripe_webhook-build_example : stripe_webhook setup (some bus) 5 body (some header) before ≡ (
  received (receive setup.python config (some bus) event before).0,
  (receive setup.python config (some bus) event before).1,
)
stripe_webhook-build_example =
    stripe_webhook-build setup (some bus) 5 body (pos 3) (obj event) event before refl refl refl
      whole named
