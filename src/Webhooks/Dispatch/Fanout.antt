-- ===== src/Webhooks/Dispatch/Fanout.antt =====
-- Who gets a delivery of an event.
use text.Mathlib.Text.{◌==◌ as str_eq}
use async_fastapi_template.Prelude.{
  ℕ, String, ◌+◌, ◌==◌, ◌≡◌, refl, ap, ◌∙◌, Bool, true, ◌&&◌, List, [], ◌∷◌, ◌++◌, count_if, select,
  any, none, some, Option-cases, inl, inr, arith, if◌then◌else◌,
}
use async_fastapi_template.Webhooks.Delivery.{Settings, create_delivery}
use async_fastapi_template.Notifications.Dispatch.{NotificationPreference, Event}
use async_fastapi_template.Webhooks.Dispatch.{
  WebhookRow, DeliveryRow, Hooks, is_matching, get_active_for_event_type, add_delivery, enqueue,
  deliver_each, user_allows, handle_event,
}

abbrev pub covers : String → List String → Bool
covers e [] = true
covers e (t ∷ ts) = any (λ x. str_eq x e) (t ∷ ts)

-- The webhook is active, and asks for every type of event, or for this one.
abbrev pub takes : String → WebhookRow → Bool
takes e h = h.state.is_active && (elim h.event_types [ none ↦ true | some types ↦ covers e types ])

is_matching-takes : (e : String) (h : WebhookRow) → is_matching e h ≡ takes e h
is_matching-takes e h = elim (Option-cases h.event_types) [
  | inl n ↦ rw n refl
  | inr ([], n) ↦ rw n refl
  | inr (t ∷ ts, n) ↦ rw n refl
]

-- The deliveries of a webhook for a type of event
abbrev pub deliveries_of : ℕ → List DeliveryRow → ℕ
deliveries_of id rows = count_if (λ (r : DeliveryRow). r.webhook_id == id) rows

count-append :
    {A : Type 0} (p : A → Bool) (xs ys : List A)
    → count_if p (xs ++ ys) ≡ count_if p xs + count_if p ys
count-append p [] ys = omega arith
count-append p (x ∷ xs) ys = omega (arith, count-append p xs ys)

count-select :
    {A : Type 0} (p q : A → Bool) (xs : List A)
    → count_if p (select q xs) ≡ count_if (λ x. q x && p x) xs
count-select p q [] = refl
count-select p q (x ∷ xs) = ground (arith, count-select p q xs)

enqueue_keeps :
    (accepts : ℕ → Bool) (id : ℕ) (s : Hooks)
    → ((enqueue accepts id s).deliveries ≡ s.deliveries)
      × ((enqueue accepts id s).webhooks ≡ s.webhooks)
unfolding enqueue
enqueue_keeps accepts id s = ground arith

added :
    (c : Settings) (webhook_id : ℕ) (e : String) (s : Hooks) (id : ℕ)
    → deliveries_of id (add_delivery c webhook_id e s).1.deliveries
      ≡ deliveries_of id s.deliveries + (if webhook_id == id then 1 else 0)
unfolding add_delivery
added c webhook_id e s id =
    let row : DeliveryRow = record {
      id = s.next_id;
      webhook_id = webhook_id;
      event_type = e;
      delivery = create_delivery c;
    } in
    count-append (λ (r : DeliveryRow). r.webhook_id == id) s.deliveries (row ∷ []) ∙ omega arith

each_once :
    (c : Settings) (accepts : ℕ → Bool) (e : String) (hs : List WebhookRow) (s : Hooks) (id : ℕ)
    → deliveries_of id (deliver_each c accepts e hs s).deliveries
      ≡ deliveries_of id s.deliveries + count_if (λ (h : WebhookRow). h.id == id) hs
unfolding deliver_each add_delivery
each_once c accepts e [] s id = omega arith
each_once c accepts e (h ∷ hs) s id =
    let (n, s') = add_delivery c h.id e s in
    let q = (enqueue_keeps accepts n s').0 in
    let k = added c h.id e s id in
    each_once c accepts e hs (enqueue accepts n s') id ∙ rw q (omega (arith, k))

same_count :
    (e : String) (id : ℕ) (hs : List WebhookRow)
    → count_if (λ (h : WebhookRow). is_matching e h && h.id == id) hs
      ≡ count_if (λ (h : WebhookRow). takes e h && h.id == id) hs
same_count e id [] = refl
same_count e id (h ∷ hs) = rw (is_matching-takes e h, same_count e id hs) refl

-- With webhooks enabled, an event that its user lets through gets each webhook one delivery if
-- the webhook is active and asks for all types of events or for this one, and none otherwise,
-- whatever the queue refuses and whatever the tenants: the rows of an id grow by the number of
-- such webhooks with that id.
pub handle_event_delivers :
    (c : Settings) (accepts : ℕ → Bool) (prefs : List NotificationPreference) (e : Event)
    (s : Hooks) (id : ℕ)
    → user_allows prefs e.user_id ≡ true
    → deliveries_of id (handle_event c true accepts prefs e s).deliveries
      ≡ deliveries_of id s.deliveries
        + count_if (λ (h : WebhookRow). takes e.event_type h && h.id == id) s.webhooks
unfolding handle_event get_active_for_event_type
handle_event_delivers c accepts prefs e s id a = rw a (
    each_once c accepts e.event_type (get_active_for_event_type e.event_type s.webhooks) s id
    ∙ ap (λ n. deliveries_of id s.deliveries + n)
        (count-select (λ (h : WebhookRow). h.id == id) (is_matching e.event_type) s.webhooks
          ∙ same_count e.event_type id s.webhooks))
