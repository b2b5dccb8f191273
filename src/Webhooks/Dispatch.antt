-- ===== src/Webhooks/Dispatch.antt =====
-- `handle_event` of app/notifications/services/webhook.py, app/notifications/crud/webhook.py, and
-- the endpoints of app/notifications/api/endpoints/webhooks.py. The payload of an event is left
-- out: nothing decides on it. What the queue refuses is a parameter.
pub mod Fanout
use text.Mathlib.Text.{◌==◌ as str_eq}
use async_fastapi_template.Prelude.{
  ℕ, String, ◌+◌, ◌==◌, opt_eq, Bool, true, false, not, ◌&&◌, ◌||◌, Option, none, some, is_some,
  List, [], ◌∷◌, ◌++◌, any, select, find, take, drop, if◌then◌else◌,
}
use async_fastapi_template.Webhooks.Delivery.{Settings, Webhook, Delivery, create_delivery}
use async_fastapi_template.Identity.Model.{User}
use async_fastapi_template.Identity.Security.{Reply, ok, fail, not_found, server_error}
use async_fastapi_template.Crud.{Model, get, delete, restore}
use async_fastapi_template.Notifications.Dispatch.{
  NotificationPreference, Event, webhook, channel_enabled,
}

-- A row of `Webhook`: `state` holds the columns that deliveries change.
pub record WebhookRow : Type 0 where
  pub id : ℕ
  pub tenant_id : Option ℕ
  pub event_types : Option (List String)
  pub deleted_at : Option ℕ
  pub state : Webhook

abbrev pub webhook_model : Model WebhookRow
webhook_model = record {
  id = λ h. h.id;
  deleted_at = λ h. h.deleted_at;
  set_deleted_at = λ t h. record h { deleted_at = t };
  has_soft_delete = true;
}

-- A row of `WebhookDelivery`
pub record DeliveryRow : Type 0 where
  pub id : ℕ
  pub webhook_id : ℕ
  pub event_type : String
  pub delivery : Delivery

-- The tables, and the delivery ids that are enqueued
pub record Hooks : Type 0 where
  pub webhooks : List WebhookRow
  pub deliveries : List DeliveryRow
  pub next_id : ℕ
  pub queue : List ℕ

-- `not webhook.event_types or event_type in webhook.event_types`
abbrev pub subscribes : String → Option (List String) → Bool
subscribes e none = true
subscribes e (some []) = true
subscribes e (some (t ∷ ts)) = any (λ x. str_eq x e) (t ∷ ts)

-- The webhooks of an event: active ones that subscribe to its type
abbrev pub is_matching : String → WebhookRow → Bool
is_matching e h = h.state.is_active && subscribes e h.event_types

-- `get_active_for_event_type`
unfoldable pub get_active_for_event_type : String → List WebhookRow → List WebhookRow
get_active_for_event_type e hooks = select (is_matching e) hooks

-- `create_delivery`, stored
unfoldable pub add_delivery : Settings → ℕ → String → Hooks → ℕ × Hooks
unfolding create_delivery
add_delivery c webhook_id event_type s =
    let row : DeliveryRow = record {
      id = s.next_id;
      webhook_id = webhook_id;
      event_type = event_type;
      delivery = create_delivery c;
    } in
    (s.next_id, record s { deliveries = s.deliveries ++ row ∷ []; next_id = s.next_id + 1 })

-- `deliver_webhook.delay`, which may raise; `handle_event` catches it.
unfoldable pub enqueue : (ℕ → Bool) → ℕ → Hooks → Hooks
enqueue accepts id s = if accepts id then record s { queue = s.queue ++ id ∷ [] } else s

-- The loop of `handle_event`
unfoldable pub deliver_each : Settings → (ℕ → Bool) → String → List WebhookRow → Hooks → Hooks
unfolding add_delivery enqueue
deliver_each c accepts e [] s = s
deliver_each c accepts e (h ∷ hs) s =
    let (id, s') = add_delivery c h.id e s in deliver_each c accepts e hs (enqueue accepts id s')

-- `channel_enabled` for the user of an event, if it has one
abbrev pub user_allows : List NotificationPreference → Option ℕ → Bool
user_allows prefs none = true
user_allows prefs (some user_id) = channel_enabled prefs user_id webhook

-- `handle_event`
unfoldable pub handle_event :
    Settings → Bool → (ℕ → Bool) → List NotificationPreference → Event → Hooks → Hooks
unfolding deliver_each get_active_for_event_type channel_enabled
handle_event c enabled accepts prefs e s =
    if not enabled
    then s
    else if not (user_allows prefs e.user_id)
    then s
    else deliver_each c accepts e.event_type (get_active_for_event_type e.event_type s.webhooks) s

-- `_get_owned_webhook`
unfoldable pub get_owned_webhook : User → Option WebhookRow → Reply WebhookRow
get_owned_webhook u none = fail not_found
get_owned_webhook u (some h) =
    if not u.is_superuser && (is_some h.tenant_id && not (opt_eq h.tenant_id u.tenant_id))
    then fail not_found
    else ok h

-- `list_for_tenant` of `list_webhooks`, over the table newest first
unfoldable pub list_webhooks : User → List WebhookRow → List WebhookRow
list_webhooks u newest =
    let tenant_id = if u.is_superuser then none else u.tenant_id in
    take 100
      (select (λ (h : WebhookRow). not (is_some tenant_id) || opt_eq h.tenant_id tenant_id) newest)

-- `get_webhook`
unfoldable pub get_webhook : User → ℕ → List WebhookRow → Reply WebhookRow
unfolding get get_owned_webhook
get_webhook u id rows = get_owned_webhook u (get webhook_model rows id false)

-- `delete_webhook`
unfoldable pub delete_webhook : ℕ → User → ℕ → List WebhookRow → Reply (Unit {0}) × List WebhookRow
unfolding get_webhook delete
delete_webhook now u id rows = elim (get_webhook u id rows) [
  | fail e ↦ (fail e, rows)
  | ok h ↦ (ok tt, (delete webhook_model now rows id).1)
]

-- `restore_webhook`: the owner is compared after the row was restored.
unfoldable pub restore_webhook : User → ℕ → List WebhookRow → Reply WebhookRow × List WebhookRow
unfolding restore get_owned_webhook
restore_webhook u id rows =
    let (found, rows') = restore webhook_model rows id in (get_owned_webhook u found, rows')

-- `ping_webhook`; the queue may raise, after the delivery was stored.
unfoldable pub ping_webhook : Settings → (ℕ → Bool) → User → ℕ → Hooks → Reply ℕ × Hooks
unfolding get_webhook add_delivery enqueue
ping_webhook c accepts u id s = elim (get_webhook u id s.webhooks) [
  | fail e ↦ (fail e, s)
  | ok h ↦
      (let (delivery, s') = add_delivery c h.id "webhook.test" s in
        if accepts delivery
        then (ok delivery, enqueue accepts delivery s')
        else (fail server_error, s'))
]
