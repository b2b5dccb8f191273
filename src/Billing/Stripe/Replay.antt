-- ===== src/Billing/Stripe/Replay.antt =====
-- The idempotency ledger: an event that was taken in once is never processed again.
use text.Mathlib.Text.{◌==◌ as str_eq}
use text.Mathlib.TextEquality.{eq_iff}
use async_fastapi_template.Prelude.{
  ℕ, String, ◌≡◌, true, false, Option, none, List, [], ◌∷◌, ◌++◌, arith, any, find, is_some,
  Bool-cases, inl, inr,
}
use async_fastapi_template.Billing.Model.{StripeEvent}
use async_fastapi_template.Billing.Session.{World, Bus, event_clash, ok, integrity}
use async_fastapi_template.Billing.Session.Unique.{any-find-none, unique-append}
use async_fastapi_template.Billing.Json.{Json, Fields, Python, to_text, get_or, str}
use async_fastapi_template.Billing.Dunning.{Config}
use async_fastapi_template.Billing.Stripe.{
  handle_fresh, duplicate, record_event, stamp, mark_processed, process_event, receive, inner,
}
use async_fastapi_template.Billing.Stripe.Ledger.{
  seen, IsRecorded, Keeps, keep-bind, keep-dispatch, keep-result,
}

seen-append :
    (id : String) (e : StripeEvent) (es : List StripeEvent)
    → str_eq e.event_id id ≡ true
    → is_some (find (λ (e : StripeEvent). str_eq e.event_id id) (es ++ e ∷ [])) ≡ true
seen-append id e [] h = rw h
seen-append id e (x ∷ es) h = ground (arith, seen-append id e es h)

seen-stamp :
    (id : String) (now : ℕ) (es : List StripeEvent)
    → is_some (find (λ (e : StripeEvent). str_eq e.event_id id) es) ≡ true
    → is_some (find (λ (e : StripeEvent). str_eq e.event_id id) (stamp id now es)) ≡ true
seen-stamp id now [] h = h
seen-stamp id now (e ∷ es) h = ground (arith, seen-stamp id now es)

keep-mark_processed : (id : String) (now : ℕ) → Keeps id (mark_processed now id)
unfolding mark_processed
keep-mark_processed id now = record {
  run = λ w h. ground (arith, seen-stamp id now w.session.stripe_events);
}

-- A fresh event is in the ledger for good once `record_event` returns `true`.
record_event-records :
    (id kind : String) (w : World)
    → (record_event id kind w).0 ≡ ok true
    → IsRecorded id (record_event id kind w).1
unfolding record_event
record_event-records id kind w h = ground (
  arith,
  eq_iff id id,
  seen-append id (record { event_id = id; event_type = kind; processed_at = none })
      w.session.stripe_events,
)

record_event-seen :
    (id kind : String) (w : World)
    → seen id w.session ≡ true
    → record_event id kind w ≡ (ok false, w)
unfolding record_event
record_event-seen id kind w h = ground arith

-- The ledger accepts an event that it does not hold.
fresh_event :
    (id kind : String) (w : World)
    → integrity w.session ≡ true
    → seen id w.session ≡ false
    → (record_event id kind w).0 ≡ ok true
unfolding record_event integrity
fresh_event id kind w h n =
    let row : StripeEvent = record { event_id = id; event_type = kind; processed_at = none } in
    let free : any (λ e. event_clash e row) w.session.stripe_events ≡ false =
      any-find-none (λ (e : StripeEvent). str_eq e.event_id id) (λ e. event_clash e row)
        w.session.stripe_events (λ x k. k) (ground arith) in
    ground (arith, unique-append event_clash row w.session.stripe_events)

abbrev id_of : Python → Fields → String
id_of py event = to_text py (get_or "id" (str "") event)

abbrev kind_of : Python → Fields → String
kind_of py event = to_text py (get_or "type" (str "") event)

keep-handle_fresh :
    (py : Python) (c : Config) (bus : Option Bus) (id kind : String) (v : Json)
    → Keeps id (handle_fresh py c bus id kind v)
unfolding handle_fresh
keep-handle_fresh py c bus id kind v =
    keep-bind id _ _ (keep-dispatch id py c bus kind v)
      λ outcome. keep-bind id _ _ (keep-mark_processed id c.clock) λ _. keep-result id (ok outcome)

-- Whatever processing an event ends in, the event is on record afterwards.
process_event-records :
    (py : Python) (c : Config) (bus : Option Bus) (event : Fields) (w : World)
    → integrity w.session ≡ true
    → w.session ≡ w.stored
    → str_eq (id_of py event) "" ≡ false
    → str_eq (kind_of py event) "" ≡ false
    → IsRecorded (id_of py event) (process_event py c bus event w).1
unfolding process_event
process_event-records py c bus event w h same ni nk =
    elim (Bool-cases (seen (id_of py event) w.session)) [
      | inl old ↦ ground (arith, record_event-seen (id_of py event) (kind_of py event) w old)
      | inr new ↦
          let id = id_of py event in
          let kind = kind_of py event in
          let first = fresh_event id kind w h new in
          ground (
            arith,
            first,
            (keep-handle_fresh py c bus id kind (inner event)).run (record_event id kind w).1
                (record_event-records id kind w first),
          )
    ]

-- A delivery that begins on a database that satisfies its indexes, with an id and a type, is
-- processed at most once: whatever its outcome was, also a rejection or an error, every later
-- delivery of the same event, at any time and with any bus, is a duplicate and changes nothing.
pub receive_idempotent :
    (py : Python) (c c' : Config) (bus bus' : Option Bus) (event : Fields) (w : World)
    → integrity w.session ≡ true
    → w.session ≡ w.stored
    → str_eq (id_of py event) "" ≡ false
    → str_eq (kind_of py event) "" ≡ false
    → let w' = (receive py c bus event w).1 in receive py c' bus' event w' ≡ (duplicate, w')
unfolding receive process_event
receive_idempotent py c c' bus bus' event w h same ni nk =
    let recorded = process_event-records py c bus event w h same ni nk in
    let w' = (receive py c bus event w).1 in
    ground (arith, record_event-seen (id_of py event) (kind_of py event) w' recorded.0)
