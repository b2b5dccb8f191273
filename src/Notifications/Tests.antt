-- ===== src/Notifications/Tests.antt =====
-- An inbox of three rows, the preferences of a user, and the theorems of this part at them.
use async_fastapi_template.Prelude.{
  ℕ, ◌+◌, ◌≡◌, refl, true, false, none, some, List, [], ◌∷◌, length, select, arith, if◌then◌else◌,
}
use async_fastapi_template.Identity.Tests.Fixtures.{ada, directory, codec}
use async_fastapi_template.Notifications.Inbox.{
  Notification, is_shown, count_for_user, count_unread, mark_all_read,
}
use async_fastapi_template.Notifications.Inbox.Paging.{read_pages, read_pages_all}
use async_fastapi_template.Notifications.Inbox.Reading.{mark_all_read_counts}
use async_fastapi_template.Notifications.Dispatch.{
  NotificationPreference, email, in_app, channel_enabled, Event, Outbox, Surroundings,
  handle_notification_event,
}
use async_fastapi_template.Notifications.Dispatch.Delivered.{handle_notification_event_delivers}

abbrev note : ℕ → ℕ → Notification
note id user_id = record {
  id = id;
  user_id = user_id;
  event_type = "billing.invoice";
  title = "An invoice";
  body = none;
  is_read = false;
  read_at = none;
  deleted_at = none;
}

abbrev rows : List Notification
rows = note 5 7 ∷ note 4 8 ∷ note 2 7 ∷ note 1 7 ∷ []

read_pages_all_example : read_pages codec rows 7 2 true 4 none ≡ select (is_shown 7 true) rows
read_pages_all_example =
    read_pages_all codec rows 7 2 true 4
      (
        ((omega arith), ((omega arith), ((omega arith), tt))),
        (((omega arith), ((omega arith), tt)), (((omega arith), tt), (tt, tt))),
      )
      (omega arith) (omega arith)

mark_all_read_counts_example :
    let (updated, rows') = mark_all_read 90 7 rows in
    (updated ≡ count_unread rows 7)
    × (count_unread rows' 7 ≡ 0)
    × (count_for_user rows' 7 ≡ count_for_user rows 7)
    × (count_unread rows' 8 ≡ count_unread rows 8)
    × (count_for_user rows' 8 ≡ count_for_user rows 8)
mark_all_read_counts_example = mark_all_read_counts 90 7 8 rows refl

abbrev prefs : List NotificationPreference
prefs =
    record { user_id = 8; email_enabled = true; in_app_enabled = false; webhook_enabled = true }
    ∷ []

abbrev surroundings : Surroundings
surroundings = record {
  enabled = true;
  stores = λ n. true;
  enqueues = λ m. true;
  reaches = λ p. false;
  concat = λ t. t;
}

abbrev event : Event
event = record { event_type = "billing.invoice"; title = none; body = none; user_id = some 7 }

abbrev outbox : Outbox
outbox = record { inbox = record { rows = rows; next_id = 6 }; mails = []; pushes = [] }

handle_notification_event_delivers_example :
    let o' = handle_notification_event surroundings prefs directory event outbox in
    (count_unread o'.inbox.rows 7
      ≡ (if channel_enabled prefs 7 in_app then 1 else 0) + count_unread rows 7)
    × (length o'.mails ≡ 0 + (if channel_enabled prefs 7 email then 1 else 0))
    × (count_unread o'.inbox.rows 8 ≡ count_unread rows 8)
handle_notification_event_delivers_example =
    handle_notification_event_delivers surroundings prefs directory event 7 8 ada outbox refl refl
      refl refl (λ n. refl) (λ m. refl) refl
