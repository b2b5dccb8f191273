-- ===== src/Events/Tests.antt =====
-- A bus with handlers that are numbers, of which the second raises; the third message has no id.
use async_fastapi_template.Prelude.{
  ℕ, String, ◌==◌, ◌≡◌, refl, false, some, List, [], ◌∷◌, map, select,
}
use async_fastapi_template.Billing.Json.{Json, null, str, obj, end, field, num}
use async_fastapi_template.Events.{Event, Outside, Handlers, Handled, to_dict, consume}
use async_fastapi_template.Events.Batch.{given, delivered, is_done, consume-delivered}

abbrev outside : Outside
outside = record {
  Text = Json;
  Handler = ℕ;
  World = List ℕ;
  dumps = λ j. j;
  loads = λ j. some j;
  same = λ x y. x == y;
  run = λ h e w. (h == 2, h ∷ w);
  xack = λ id w. (false, w);
}

abbrev event : String → Event
event t = record {
  event_type = str t;
  payload = obj end;
  id = str "1";
  timestamp = str "now";
  user_id = null;
}

abbrev bus : Handlers outside
bus = ("*", 1 ∷ []) ∷ ("paid", 2 ∷ 3 ∷ []) ∷ []

abbrev batch : List (String × Json)
batch =
    ("1-0", to_dict (event "paid"))
    ∷ ("1-1", to_dict (event "sent"))
    ∷ ("1-2", obj (field "event_type" (num 1) end))
    ∷ ("1-3", to_dict (event "sent"))
    ∷ []

done : (consume outside bus batch []).acked ≡ "1-1" ∷ []
unfolding consume to_dict
done = refl

ran : (consume outside bus batch []).world ≡ 1 ∷ 3 ∷ 2 ∷ 1 ∷ []
unfolding consume to_dict
ran = refl

consume-delivered_example :
    (map (given outside) (consume outside bus batch []).handled ≡ delivered outside bus batch)
    × ((consume outside bus batch []).acked
        ≡ map
            (λ (c : Handled outside). c.msg_id)
            (select (is_done outside) (consume outside bus batch []).handled))
consume-delivered_example = consume-delivered outside (λ id w. refl) bus batch []
