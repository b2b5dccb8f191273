-- ===== src/Events/Batch.antt =====
-- What the loop does with a batch.
use mathlib.Core.Path.{ap₂}
use async_fastapi_template.Prelude.{
  String, ◌≡◌, refl, sym, ap, ◌∙◌, Bool, true, false, not, none, some, List, [], ◌∷◌, map, select,
  any, inl, inr, ◌++◌, if◌then◌else◌, Option-cases, Bool-cases,
}
use async_fastapi_template.Events.{
  Event, Outside, Handlers, Handled, call_all, failed, read, settle, consume,
}

module _ (out : Outside) where
  open out use {Text, Handler, World, xack}

  -- An event with the handlers that it was given to
  abbrev pub Given : Type 0
  Given = String × (Event × List Handler)

  abbrev pub given : Handled out → Given
  given c = (c.msg_id, (c.event, map (λ (x : Handler × Bool). x.0) c.calls))

  -- The messages before the first that cannot be read, each with the handlers of its event
  unfoldable pub delivered : Handlers out → List (String × Text) → List Given
  delivered hs [] = []
  delivered hs ((id, text) ∷ messages) = elim (read out text hs) [
    | none ↦ []
    | some m ↦ (id, m) ∷ delivered hs messages
  ]

  -- No handler of the event raised.
  abbrev pub is_done : Handled out → Bool
  is_done c = not (any (λ (x : Handler × Bool). x.1) c.calls)

  failed-any :
      (calls : List (Handler × Bool)) → failed out calls ≡ any (λ (x : Handler × Bool). x.1) calls
  unfolding failed
  failed-any [] = refl
  failed-any ((h, true) ∷ calls) = refl
  failed-any ((h, false) ∷ calls) = failed-any calls

  called :
      (hs : List Handler) (e : Event) (w : World)
      → map (λ (x : Handler × Bool). x.0) (call_all out hs e w).0 ≡ hs
  unfolding call_all
  called [] e w = refl
  called (h ∷ hs) e w = ap (λ (xs : List Handler). h ∷ xs) (called hs e (out.run h e w).1)

  settled :
      ((id : String) (w : World) → (xack id w).0 ≡ false)
      → (id : String) (f : Bool) (w : World)
      → ((settle out id f w).0 ≡ false) × ((settle out id f w).1.0 ≡ (if f then [] else id ∷ []))
  settled never id true w = (refl, refl)
  settled never id false w = rw (never id w) (refl, refl)

  -- What the loop makes of one message that it can read and settle
  stepped :
      (hs : Handlers out) (id : String) (text : Text) (messages : List (String × Text)) (w : World)
      (e : Event) (xs : List Handler)
      → read out text hs ≡ some (e, xs)
      → (settle out id (failed out (call_all out xs e w).0) (call_all out xs e w).1).0 ≡ false
      → let st = settle out id (failed out (call_all out xs e w).0) (call_all out xs e w).1 in
        let rest = consume out hs messages st.1.1 in
        ((consume out hs ((id, text) ∷ messages) w).handled
          ≡ record { msg_id = id; event = e; calls = (call_all out xs e w).0 } ∷ rest.handled)
        × ((consume out hs ((id, text) ∷ messages) w).acked ≡ st.1.0 ++ rest.acked)
  unfolding consume
  stepped hs id text messages w e xs r z = rw (consume, r, z) (refl, refl)

  ids_of : List (Handled out) → List String
  ids_of cs = map (λ (c : Handled out). c.msg_id) (select is_done cs)

  first_id :
      (c : Handled out) (rest : List (Handled out))
      → (if failed out c.calls then [] else c.msg_id ∷ []) ++ ids_of rest ≡ ids_of (c ∷ rest)
  unfolding ids_of
  first_id c rest = elim (Bool-cases (any (λ (x : Handler × Bool). x.1) c.calls)) [
    | inl e ↦ rw (failed-any c.calls, e) refl
    | inr e ↦ rw (failed-any c.calls, e) refl
  ]

  -- If XACK does not raise, the loop gives each event before the first message that it cannot
  -- read to all of its handlers, also after one that raised, in the order of the batch, and
  -- acknowledges exactly the events of which no call raised.
  pub consume-delivered :
      ((id : String) (w : World) → (xack id w).0 ≡ false)
      → (hs : Handlers out) (messages : List (String × Text)) (w : World)
      → (map given (consume out hs messages w).handled ≡ delivered hs messages)
        × ((consume out hs messages w).acked
            ≡ map
                (λ (c : Handled out). c.msg_id)
                (select is_done (consume out hs messages w).handled))
  unfolding consume delivered ids_of
  consume-delivered never hs [] w = (refl, refl)
  consume-delivered never hs ((id, text) ∷ messages) w = elim (Option-cases (read out text hs)) [
    | inl r ↦ rw (consume, delivered, r) (refl, refl)
    | inr ((e, xs), r) ↦
        let c = call_all out xs e w in
        let one : Handled out = record { msg_id = id; event = e; calls = c.0 } in
        let st = settle out id (failed out c.0) c.1 in
        let (z, q) = settled never id (failed out c.0) c.1 in
        let (h, a) = stepped hs id text messages w e xs r z in
        let (ih, ia) = consume-delivered never hs messages st.1.1 in
        (
          ap (map given) h ∙ rw (delivered, r, called xs e w, ih) refl,
          a
              ∙ ap₂ (λ (x y : List String). x ++ y) q ia
              ∙ first_id one (consume out hs messages st.1.1).handled
              ∙ ap ids_of (sym h),
        )
  ]
