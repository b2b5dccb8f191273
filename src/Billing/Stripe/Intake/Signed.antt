-- ===== src/Billing/Stripe/Intake/Signed.antt =====
-- Only signed events get through, and signed events do.
use mathlib.Core.Path.{subst}
use async_fastapi_template.Prelude.{
  Text, ℕ, ◌≡◌, ◌⊎◌, refl, sym, ap, ◌∙◌, true, false, Option, none, some, split_comma, leb, ℤ,
  Bool-cases, Option-cases, inl, inr,
}
use async_fastapi_template.Signing.{
  parts, value_of, t_key, v1_key, age, build_signature_header, verify_signature_header,
}
use async_fastapi_template.Signing.Header.{
  Signed, verify_signature_header-build, verify_signature_header-Signed,
}
use async_fastapi_template.Billing.Session.{World, Bus}
use async_fastapi_template.Billing.Json.{Json, Fields, as_dict}
use async_fastapi_template.Billing.Stripe.{receive}
use async_fastapi_template.Billing.Stripe.Intake.{
  received, Answer, Setup, is_missing, take_event, take_body, stripe_webhook,
}

module _ (s : Setup) (bus : Option Bus) (now : ℕ) (body : Text) where
  -- A header holds the HMAC of the body at a time within the tolerance.
  abbrev pub IsSigned : Text → Type 0
  IsSigned header =
      Signed s.signing now s.tolerance body s.secret (value_of t_key (parts (split_comma header)))
        (value_of v1_key (parts (split_comma header)))

  -- The call does what an event of the body does, and answers with its outcome.
  abbrev pub Processed : World → Answer × World → Type 0
  Processed w out =
      (v : Json) × (event : Fields) × (s.parse body ≡ some v)
      × (as_dict v ≡ some event)
      × (out ≡ (
        received (receive s.python s.config bus event w).0,
        (receive s.python s.config bus event w).1,
      ))

  took_event :
      (v : Json) (event : Fields) (w : World)
      → s.parse body ≡ some v
      → as_dict v ≡ some event
      → ((take_event s bus event w).1 ≡ w) ⊎ Processed w (take_event s bus event w)
  unfolding take_event
  took_event v event w e f = elim (Bool-cases (is_missing s event)) [
    | inl b ↦ inl (rw b refl)
    | inr b ↦ inr (v, event, e, f, rw b refl)
  ]

  abbrev Through : World → Answer × World → Type 0
  Through w out = (out.1 ≡ w) ⊎ Processed w out

  took_body : (w : World) → Through w (take_body s bus body w)
  unfolding take_body
  took_body w = elim (Option-cases (s.parse body)) [
    | inl e ↦ inl (rw (take_body, e) refl)
    | inr (v, e) ↦ elim (Option-cases (as_dict v)) [
      | inl f ↦ inl (rw (take_body, e, f) refl)
      | inr (event, f) ↦
          let same : take_body s bus body w ≡ take_event s bus event w =
            rw (take_body, e, f) refl in
          subst (Through w) (sym same) (took_event v event w e f)
    ]
  ]

  has_header :
      (header : Option Text)
      → verify_signature_header s.signing now s.tolerance body s.secret header ≡ true
      → (text : Text) × (header ≡ some text) × IsSigned text
  unfolding verify_signature_header
  has_header none v = absurd cc
  has_header (some text) v =
      (text, refl, verify_signature_header-Signed s.signing now s.tolerance body s.secret text v)

  -- A request changes nothing, or it has a header with the HMAC of its body at a time within the
  -- tolerance, its body is an event, and the endpoint does and answers what processing that event
  -- does.
  pub stripe_webhook-Signed :
      (header : Option Text) (w : World)
      → ((stripe_webhook s bus now body header w).1 ≡ w)
        ⊎ ((text : Text) × (header ≡ some text)
            × IsSigned text
            × Processed w (stripe_webhook s bus now body header w))
  unfolding stripe_webhook
  stripe_webhook-Signed header w = elim (Bool-cases s.is_configured) [
    | inr c ↦ inl (rw (stripe_webhook, c) refl)
    | inl c ↦
        elim (Bool-cases (verify_signature_header s.signing now s.tolerance body s.secret header)) [
          | inr v ↦ inl (rw (stripe_webhook, c, v) refl)
          | inl v ↦
              let same : stripe_webhook s bus now body header w ≡ take_body s bus body w =
                rw (stripe_webhook, c, v) refl in
              elim (took_body w) [
                | inl k ↦ inl (ap (λ (x : Answer × World). x.1) same ∙ k)
                | inr k ↦
                    let (text, e, signed) = has_header header v in
                    inr (text, e, signed, subst (Processed w) (sym same) k)
              ]
        ]
  ]

  -- A request whose header was built with the secret for its body, at a time within the
  -- tolerance, and whose body is an event with an id and a type, is answered with the outcome of
  -- that event and does what processing it does, if Stripe is set up.
  pub stripe_webhook-build :
      (timestamp : ℤ) (v : Json) (event : Fields) (w : World)
      → s.is_configured ≡ true
      → leb (age now timestamp) s.tolerance ≡ true
      → s.parse body ≡ some v
      → as_dict v ≡ some event
      → is_missing s event ≡ false
      → stripe_webhook s bus now body
          (some (build_signature_header s.signing body s.secret timestamp))
          w
        ≡ (
          received (receive s.python s.config bus event w).0,
          (receive s.python s.config bus event w).1,
        )
  unfolding stripe_webhook take_body take_event
  stripe_webhook-build timestamp v event w c l e f m =
      let h = verify_signature_header-build s.signing now s.tolerance body s.secret timestamp in
      rw (stripe_webhook, c, h, l, e, f, m) refl
