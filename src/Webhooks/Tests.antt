-- ===== src/Webhooks/Tests.antt =====
-- A delivery with two attempts, two webhooks, and the theorems of their modules at them.
use async_fastapi_template.Prelude.{
  ◌+◌, ◌==◌, ◌&&◌, ◌≡◌, refl, true, none, some, List, [], ◌∷◌, count_if, arith,
}
use async_fastapi_template.Notifications.Dispatch.{NotificationPreference, Event}
use async_fastapi_template.Webhooks.Dispatch.{
  WebhookRow, Hooks, is_matching, user_allows, handle_event,
}
use async_fastapi_template.Webhooks.Dispatch.Fanout.{deliveries_of, handle_event_delivers}
use async_fastapi_template.Webhooks.Delivery.{
  Settings, pending, delivered, http_error, response, Delivery, Webhook, label_delivered,
  is_success, run_task,
}
use async_fastapi_template.Webhooks.Delivery.Attempts.{Ends, run_task_finishes}

abbrev settings : Settings
settings = record { max_retries = 1; scale = 10; backoff_base = 15; backoff_max = 3000 }

abbrev fresh : Delivery
fresh = record {
  attempt = 0;
  max_attempts = 2;
  status = pending;
  error = none;
  response_status = none;
  next_retry_at = none;
  delivered_at = none;
}

abbrev hook : Webhook
hook = record { is_active = true; failure_count = 4; last_delivery_at = none; last_status = none }

run_task_finishes_example :
    let out =
      run_task settings 0 ((50, http_error) ∷ (60, response 204) ∷ []) (some (fresh, hook)) in
    (out.0 ≡ some label_delivered) × Ends out.1 delivered 2
unfolding is_success
run_task_finishes_example =
    run_task_finishes settings 1 0 ((50, http_error) ∷ (60, response 204) ∷ []) fresh hook
      (refl, refl, omega arith) refl (omega arith) (omega arith) (refl, (refl, tt))

abbrev subscribers : List WebhookRow
subscribers =
    record {
      id = 1;
      tenant_id = none;
      event_types = some ("user.created" ∷ []);
      deleted_at = none;
      state = hook;
    }
    ∷ record { id = 2; tenant_id = none; event_types = none; deleted_at = none; state = hook }
    ∷ []

abbrev hooks : Hooks
hooks = record { webhooks = subscribers; deliveries = []; next_id = 1; queue = [] }

abbrev event : Event
event = record { event_type = "user.deleted"; title = none; body = none; user_id = some 7 }

abbrev prefs : List NotificationPreference
prefs =
    record { user_id = 7; email_enabled = true; in_app_enabled = true; webhook_enabled = true } ∷ []

allowed : user_allows prefs (some 7) ≡ true
unfolding async_fastapi_template.Notifications.Dispatch.channel_enabled
allowed = refl

handle_event_delivers_example :
    deliveries_of 2 (handle_event settings true (λ id. true) prefs event hooks).deliveries
    ≡ 0 + count_if (λ (h : WebhookRow). is_matching "user.deleted" h && h.id == 2) subscribers
handle_event_delivers_example =
    handle_event_delivers settings (λ id. true) prefs event hooks 2 allowed
