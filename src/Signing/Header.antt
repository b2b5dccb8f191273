-- ===== src/Signing/Header.antt =====
-- What a signature header proves.
use mathlib.Core.Path.{ap₂}
use async_fastapi_template.Prelude.{
  ℕ, ◌≡◌, refl, sym, ap, ◌∙◌, true, false, Option, none, some, [], ◌∷◌, ◌++◌, Text, same_text_self,
  same_text→≡, is_empty, strip, lstrip, rstrip, split_comma, leb, ℤ, All, arith, is_space,
  Bool-cases, Option-cases, inl, inr,
}
use async_fastapi_template.Prelude.Texts.Split.{has_comma, split-piece, split-last}
use async_fastapi_template.Signing.{
  Python, is_plain, split_equals, parts, value_of, t_key, v1_key, age, sign_payload,
  build_signature_header, verify_parts, verify_values, verify_signature_header,
}

abbrev Plain : Text → Type 0
Plain = All (λ c. is_plain c ≡ true)

Plain-has_comma : (s : Text) → Plain s → has_comma s ≡ false
Plain-has_comma [] h = refl
Plain-has_comma (c ∷ s) h = ground (arith, h.0, Plain-has_comma s h.1)

Plain-lstrip : (s : Text) → Plain s → lstrip s ≡ s
unfolding lstrip
Plain-lstrip [] h = refl
Plain-lstrip (c ∷ s) h = ground (arith, h.0)

Plain-rstrip : (s : Text) → Plain s → rstrip s ≡ s
unfolding rstrip
Plain-rstrip [] h = refl
Plain-rstrip (c ∷ s) h = ground (arith, h.0, Plain-rstrip s h.1)

Plain-strip : (s : Text) → Plain s → strip s ≡ s
Plain-strip s h = ap rstrip (Plain-lstrip s h) ∙ Plain-rstrip s h

-- The parts of a header that was built
header_parts :
    (t v : Text)
    → Plain t
    → Plain v
    → parts (split_comma ((t_key ++ 61 ∷ t) ++ 44 ∷ (v1_key ++ 61 ∷ v)))
      ≡ (t_key, t) ∷ (v1_key, v) ∷ []
unfolding parts split_equals lstrip rstrip is_space
header_parts t v ht hv =
    let p : Text = 116 ∷ 61 ∷ t in
    let q : Text = 118 ∷ 49 ∷ 61 ∷ v in
    let s = split-piece p q (Plain-has_comma t ht) in
    let s' = split-last q (Plain-has_comma v hv) in
    ap parts (s ∙ ap (λ l. p ∷ l) s')
    ∙ ap₂ (λ x y. (t_key, x) ∷ (v1_key, y) ∷ []) (Plain-strip t ht) (Plain-strip v hv)

first_value : (t v : Text) → value_of t_key ((t_key, t) ∷ (v1_key, v) ∷ []) ≡ some t
unfolding value_of
first_value t v = refl

second_value : (t v : Text) → value_of v1_key ((t_key, t) ∷ (v1_key, v) ∷ []) ≡ some v
unfolding value_of
second_value t v = refl

sign_payload-Plain :
    (py : Python) (body secret : Text) (timestamp : ℤ)
    → Plain (sign_payload py body secret timestamp)
unfolding sign_payload
sign_payload-Plain py body secret timestamp = py.hex_plain secret (py.str timestamp ++ 46 ∷ body)

module _ (py : Python) (now tolerance : ℕ) (body secret : Text) where
  values_verify :
      (timestamp : ℤ)
      → verify_values py now tolerance body secret
          (some (py.str timestamp))
          (some (sign_payload py body secret timestamp))
        ≡ leb (age now timestamp) tolerance
  unfolding verify_values verify_parts sign_payload
  values_verify timestamp =
      let m = py.str timestamp ++ 46 ∷ body in
      rw
        (
          verify_values,
          py.str_solid timestamp,
          py.hex_solid secret m,
          verify_parts,
          py.int_str timestamp,
          same_text_self (py.hexdigest secret m),
        )
        (ground arith)

  -- A header that was built for a body at a time verifies for that body, with the same secret, as
  -- long as its age is within the tolerance, and at no other time.
  pub verify_signature_header-build :
      (timestamp : ℤ)
      → verify_signature_header py now tolerance body secret
          (some (build_signature_header py body secret timestamp))
        ≡ leb (age now timestamp) tolerance
  unfolding verify_signature_header build_signature_header
  verify_signature_header-build timestamp =
      let t = py.str timestamp in
      let v = sign_payload py body secret timestamp in
      let h =
        header_parts t v (py.str_plain timestamp) (sign_payload-Plain py body secret timestamp) in
      ap₂ (verify_values py now tolerance body secret) (ap (value_of t_key) h ∙ first_value t v)
        (ap (value_of v1_key) h ∙ second_value t v)
      ∙ values_verify timestamp

  -- What verifies has both values: a time within the tolerance, and the HMAC of the body at it.
  abbrev pub Signed : Option Text → Option Text → Type 0
  Signed t v =
      (timestamp : ℤ) × (text : Text) × (t ≡ some text)
      × (py.int text ≡ some timestamp)
      × (leb (age now timestamp) tolerance ≡ true)
      × (v ≡ some (sign_payload py body secret timestamp))

  verify_values-Signed :
      (t v : Option Text) → verify_values py now tolerance body secret t v ≡ true → Signed t v
  unfolding verify_values verify_parts
  verify_values-Signed none v e = absurd cc
  verify_values-Signed (some t) none e = absurd cc
  verify_values-Signed (some t) (some v) e = elim (Option-cases (py.int t)) [
    | inl i ↦ absurd (ground (arith, e, i))
    | inr (n, i) ↦ (
      n,
      t,
      refl,
      i,
      ground (arith, e, i),
      ap some (sym (same_text→≡ _ v (ground (arith, e, i)))),
    )
  ]

  -- A header that verifies carries a time within the tolerance, and the HMAC of the body at that
  -- time.
  pub verify_signature_header-Signed :
      (header : Text)
      → verify_signature_header py now tolerance body secret (some header) ≡ true
      → Signed
          (value_of t_key (parts (split_comma header)))
          (value_of v1_key (parts (split_comma header)))
  unfolding verify_signature_header
  verify_signature_header-Signed header e =
      verify_values-Signed (value_of t_key (parts (split_comma header)))
        (value_of v1_key (parts (split_comma header)))
        (elim (Bool-cases (is_empty header)) [
          | inl b ↦ absurd (ground (arith, e, b))
          | inr b ↦ rw (verify_signature_header, b) at e
        ])
