-- ===== src/Events/Registry.antt =====
-- The handlers of a bus.
use text.Mathlib.Text.{◌==◌ as str_eq}
use text.Mathlib.TextEquality.{eq_iff}
use async_fastapi_template.Prelude.{
  String, arith, ◌≡◌, refl, ap, ◌∙◌, true, false, List, [], ◌∷◌, ◌++◌, any, Bool-cases, inl, inr,
}
use async_fastapi_template.Events.{
  Outside, Handlers, handlers_of, subscribe, unsubscribe, remove_first,
}

module _ (out : Outside) where
  open out use {Handler, same}

  removed_last :
      (h : Handler) (hs : List Handler)
      → same h h ≡ true
      → any (λ x. same x h) hs ≡ false
      → remove_first out h (hs ++ (h ∷ [])) ≡ hs
  unfolding remove_first
  removed_last h [] r n = rw (remove_first, r) refl
  removed_last h (x ∷ xs) r n = elim (Bool-cases (same x h)) [
    | inl e ↦ absurd (ground (arith, n, e))
    | inr e ↦ rw (remove_first, e) (ap (λ ys. x ∷ ys) (removed_last h xs r (ground (arith, n, e))))
  ]

  subscribe_past :
      (t j : String) (h : Handler) (hs : List Handler) (b : Handlers out)
      → str_eq t j ≡ false
      → subscribe out t h ((j, hs) ∷ b) ≡ (j, hs) ∷ subscribe out t h b
  unfolding subscribe
  subscribe_past t j h hs b e = rw (subscribe, e) refl

  unsubscribe_past :
      (t j : String) (h : Handler) (hs : List Handler) (b : Handlers out)
      → str_eq t j ≡ false
      → unsubscribe out t h ((j, hs) ∷ b) ≡ (j, hs) ∷ unsubscribe out t h b
  unfolding unsubscribe
  unsubscribe_past t j h hs b e = rw (unsubscribe, e) refl

  subscribe_at :
      (t j : String) (h : Handler) (hs : List Handler) (b : Handlers out)
      → str_eq t j ≡ true
      → subscribe out t h ((j, hs) ∷ b) ≡ (j, hs ++ (h ∷ [])) ∷ b
  unfolding subscribe
  subscribe_at t j h hs b e = rw (subscribe, e) refl

  unsubscribe_at :
      (t j : String) (h : Handler) (hs : List Handler) (b : Handlers out)
      → str_eq t j ≡ true
      → unsubscribe out t h ((j, hs) ∷ b) ≡ (j, remove_first out h hs) ∷ b
  unfolding unsubscribe
  unsubscribe_at t j h hs b e = rw (unsubscribe, e) refl

  -- Off the key, both leave an entry and go on; on it, the second undoes the first.
  passed :
      (t j : String) (h : Handler) (hs : List Handler) (b : Handlers out)
      → str_eq t j ≡ false
      → unsubscribe out t h (subscribe out t h ((j, hs) ∷ b))
        ≡ (j, hs) ∷ unsubscribe out t h (subscribe out t h b)
  unfolding subscribe unsubscribe
  passed t j h hs b e =
      ap (unsubscribe out t h) (subscribe_past t j h hs b e)
      ∙ unsubscribe_past t j h hs (subscribe out t h b) e

  undone :
      (t j : String) (h : Handler) (hs : List Handler) (b : Handlers out)
      → same h h ≡ true
      → any (λ x. same x h) hs ≡ false
      → str_eq t j ≡ true
      → unsubscribe out t h (subscribe out t h ((j, hs) ∷ b)) ≡ (j, hs) ∷ b
  unfolding subscribe unsubscribe
  undone t j h hs b r n e =
      ap (unsubscribe out t h) (subscribe_at t j h hs b e)
      ∙ unsubscribe_at t j h (hs ++ (h ∷ [])) b e
      ∙ ap (λ xs. (j, xs) ∷ b) (removed_last h hs r n)

  -- A handler that is subscribed and removed again is gone: if no equal one was registered for
  -- the type, the handlers of every type are as before.
  pub unsubscribe-subscribe :
      (t k : String) (h : Handler) (b : Handlers out)
      → same h h ≡ true
      → any (λ x. same x h) (handlers_of out t b) ≡ false
      → handlers_of out k (unsubscribe out t h (subscribe out t h b)) ≡ handlers_of out k b
  unfolding handlers_of subscribe unsubscribe remove_first
  unsubscribe-subscribe t k h [] r n = elim (Bool-cases (str_eq k t)) [
    | inl e ↦ rw (subscribe, unsubscribe, handlers_of, (eq_iff t t).1 refl, e, remove_first, r) refl
    | inr e ↦ rw (subscribe, unsubscribe, handlers_of, (eq_iff t t).1 refl, e) refl
  ]
  unsubscribe-subscribe t k h ((j, hs) ∷ b) r n = elim (Bool-cases (str_eq t j)) [
    | inl e ↦ ap (handlers_of out k) (undone t j h hs b r (ground (arith, n, e)) e)
    | inr e ↦ ap (handlers_of out k) (passed t j h hs b e) ∙ elim (Bool-cases (str_eq k j)) [
      | inl f ↦ rw (handlers_of, f) refl
      | inr f ↦ rw (handlers_of, f) (unsubscribe-subscribe t k h b r (ground (arith, n, e)))
    ]
  ]
