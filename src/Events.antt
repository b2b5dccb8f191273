-- ===== src/Events.antt =====
-- app/events/base.py and app/events/redis_streams.py: events as texts, the handlers of a bus, and
-- what its loop does with a batch of a stream. JSON's reader and writer, the handlers, which may
-- raise but do not change the bus, and XACK are parameters.
pub mod Batch
pub mod Registry
pub mod Wire
mod Tests
use text.Mathlib.Text.{◌==◌ as str_eq}
use async_fastapi_template.Prelude.{
  String, Bool, true, false, ◌&&◌, not, Option, none, some, List, [], ◌∷◌, ◌++◌, if◌then◌else◌,
}
use async_fastapi_template.Billing.Json.{
  Json, null, bool, num, real, negative, str, arr, obj, Fields, end, field, get_or, get,
}

-- `Event`, with the values that a text gives it
pub record Event : Type 0 where
  pub event_type : Json
  pub payload : Json
  pub id : Json
  pub timestamp : Json
  pub user_id : Json

-- `obj[key]`, which raises on a missing key
unfoldable pub item : String → Fields → Option Json
item k end = none
item k (field j v fs) = if str_eq j k then some v else item k fs

unfoldable pub to_dict : Event → Json
to_dict e = obj (
    field "id" e.id (
      field "event_type" e.event_type (
        field "payload" e.payload (field "timestamp" e.timestamp (field "user_id" e.user_id end)))))

-- The rest of `from_json`, once the three keys that it needs are read
abbrev pub from_items : Fields → Option Json → Option Json → Option Json → Option Event
from_items fs (some t) (some i) (some at) = some (record {
  event_type = t;
  payload = get_or "payload" (obj end) fs;
  id = i;
  timestamp = at;
  user_id = get "user_id" fs;
})
from_items fs _ _ _ = none

unfoldable pub from_dict : Json → Option Event
unfolding item
from_dict (obj fs) = from_items fs (item "event_type" fs) (item "id" fs) (item "timestamp" fs)
from_dict _ = none

-- What is outside: the text of a message, a handler and the rest of the world. The Booleans that
-- `run` and `xack` return say that the call raises.
pub record Outside : Type 1 where
  pub Text : Type 0
  pub Handler : Type 0
  pub World : Type 0
  pub dumps : Json → Text
  pub loads : Text → Option Json
  pub same : Handler → Handler → Bool
  pub run : Handler → Event → World → Bool × World
  pub xack : String → World → Bool × World

module _ (out : Outside) where
  open out use {Text, Handler, World, dumps, loads, same, run, xack}

  -- `Event.to_json`
  unfoldable pub to_json : Event → Text
  unfolding to_dict
  to_json e = dumps (to_dict e)

  abbrev from_value : Option Json → Option Event
  from_value none = none
  from_value (some v) = from_dict v

  -- `Event.from_json`
  unfoldable pub from_json : Text → Option Event
  unfolding from_dict
  from_json text = from_value (loads text)

  -- `self._handlers`
  abbrev pub Handlers : Type 0
  Handlers = List (String × List Handler)

  -- `self._handlers.get(event_type, [])`
  unfoldable pub handlers_of : String → Handlers → List Handler
  handlers_of t [] = []
  handlers_of t ((k, hs) ∷ rest) = if str_eq t k then hs else handlers_of t rest

  -- `self._handlers.setdefault(event_type, []).append(handler)`
  unfoldable pub subscribe : String → Handler → Handlers → Handlers
  subscribe t h [] = (t, h ∷ []) ∷ []
  subscribe t h ((k, hs) ∷ rest) =
      if str_eq t k then (k, hs ++ (h ∷ [])) ∷ rest else (k, hs) ∷ subscribe t h rest

  -- `list.remove`, with its ValueError ignored
  unfoldable pub remove_first : Handler → List Handler → List Handler
  remove_first h [] = []
  remove_first h (x ∷ xs) = if same x h then xs else x ∷ remove_first h xs

  unfoldable pub unsubscribe : String → Handler → Handlers → Handlers
  unfolding remove_first
  unsubscribe t h [] = []
  unsubscribe t h ((k, hs) ∷ rest) =
      if str_eq t k then (k, remove_first h hs) ∷ rest else (k, hs) ∷ unsubscribe t h rest

  -- The handlers of an event, those of every type first. A list or a dictionary cannot be looked
  -- up; no other value equals a text.
  unfoldable pub handlers_for : Json → Handlers → Option (List Handler)
  unfolding handlers_of
  handlers_for (str t) hs = some (handlers_of "*" hs ++ handlers_of t hs)
  handlers_for (arr xs) hs = none
  handlers_for (obj fs) hs = none
  handlers_for (num n) hs = some (handlers_of "*" hs)
  handlers_for (real n) hs = some (handlers_of "*" hs)
  handlers_for (bool b) hs = some (handlers_of "*" hs)
  handlers_for null hs = some (handlers_of "*" hs)
  handlers_for negative hs = some (handlers_of "*" hs)

  -- An event that was handled, with each handler that ran and whether it raised
  pub record Handled : Type 0 where
    pub msg_id : String
    pub event : Event
    pub calls : List (Handler × Bool)

  -- The world, the events that were handled and the ids that XACK accepted
  pub record Progress : Type 0 where
    pub world : World
    pub handled : List Handled
    pub acked : List String

  -- The loop over the handlers of an event
  unfoldable pub call_all : List Handler → Event → World → List (Handler × Bool) × World
  call_all [] e w = ([], w)
  call_all (h ∷ hs) e w =
      let (raised, w1) = run h e w in let (rest, w2) = call_all hs e w1 in ((h, raised) ∷ rest, w2)

  -- `failed`
  unfoldable pub failed : List (Handler × Bool) → Bool
  failed [] = false
  failed ((h, raised) ∷ rest) = if raised then true else failed rest

  -- The message that is read, with its handlers; `none` if reading it raises
  abbrev pub read : Text → Handlers → Option (Event × List Handler)
  read text hs = elim (from_json text) [
    | none ↦ none
    | some e ↦ elim (handlers_for e.event_type hs) [ none ↦ none | some xs ↦ some (e, xs) ]
  ]

  -- XACK, if no handler failed, and whether it raises
  abbrev pub settle : String → Bool → World → Bool × (List String × World)
  settle id true w = (false, ([], w))
  settle id false w =
      let (raised, w') = xack id w in if raised then (true, ([], w')) else (false, (id ∷ [], w'))

  -- The loop over the messages of a batch. What raises outside of a handler ends it: the outer
  -- `except` goes on with the next batch.
  unfoldable pub consume : Handlers → List (String × Text) → World → Progress
  unfolding from_json handlers_for call_all failed
  consume hs [] w = record { world = w; handled = []; acked = [] }
  consume hs ((id, text) ∷ messages) w = elim (read text hs) [
    | none ↦ record { world = w; handled = []; acked = [] }
    | some (e, xs) ↦
        let (calls, w1) = call_all xs e w in
        let (raised, (ids, w2)) = settle id (failed calls) w1 in
        let one : Handled = record { msg_id = id; event = e; calls = calls } in
        let rest = consume hs messages w2 in
        if raised
        then record { world = w2; handled = one ∷ []; acked = ids }
        else record { world = rest.world; handled = one ∷ rest.handled; acked = ids ++ rest.acked }
  ]
