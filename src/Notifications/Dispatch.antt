-- ===== src/Notifications/Dispatch.antt =====
-- The channel preferences of app/notifications/crud/notification.py and the dispatch of
-- app/notifications/services/notifications.py. What the database, the queue of mails and the live
-- sockets refuse is a parameter. A log line is no effect.
pub mod Channels
pub mod Delivered
use text.Mathlib.Text.{◌==◌ as str_eq}
use async_fastapi_template.Prelude.{
  ℕ, String, ◌+◌, ◌==◌, Bool, true, false, not, ◌&&◌, ◌||◌, Option, none, some, List, [], ◌∷◌, ◌++◌,
  find, map, if◌then◌else◌,
}
use async_fastapi_template.Identity.Model.{User, Directory, get_user}
use async_fastapi_template.Notifications.Inbox.{Notification, Inbox, create_for_user}

pub record NotificationPreference : Type 0 where
  pub user_id : ℕ
  pub email_enabled : Bool
  pub in_app_enabled : Bool
  pub webhook_enabled : Bool

pub data Channel : Type 0 where
  email in_app webhook : Channel

-- `NotificationPreferenceUpdate`: a field that the body leaves out is `none`. An explicit `null`,
-- which the columns refuse, is left out.
pub record NotificationPreferenceUpdate : Type 0 where
  pub new_email : Option Bool
  pub new_in_app : Option Bool
  pub new_webhook : Option Bool

-- `CRUDNotificationPreference.get_for_user`
unfoldable pub get_preference : List NotificationPreference → ℕ → Option NotificationPreference
get_preference rows user_id = find (λ (p : NotificationPreference). p.user_id == user_id) rows

-- The defaults of the columns
abbrev pub default_preference : ℕ → NotificationPreference
default_preference user_id = record {
  user_id = user_id;
  email_enabled = true;
  in_app_enabled = true;
  webhook_enabled = true;
}

-- `get_or_create`
unfoldable pub get_or_create :
    ℕ → List NotificationPreference → NotificationPreference × List NotificationPreference
unfolding get_preference
get_or_create user_id rows = elim (get_preference rows user_id) [
  | some p ↦ (p, rows)
  | none ↦ (let p = default_preference user_id in (p, p ∷ rows))
]

abbrev pub or_old : Option Bool → Bool → Bool
or_old none b = b
or_old (some a) b = a

-- The assignments of `update_for_user`
abbrev pub updated : NotificationPreferenceUpdate → NotificationPreference → NotificationPreference
updated body p = record p {
  email_enabled = or_old body.new_email p.email_enabled;
  in_app_enabled = or_old body.new_in_app p.in_app_enabled;
  webhook_enabled = or_old body.new_webhook p.webhook_enabled;
}

-- `update_for_user`: `user_id` is unique, so one row is written.
unfoldable pub update_for_user :
    NotificationPreferenceUpdate
    → ℕ
    → List NotificationPreference
    → NotificationPreference × List NotificationPreference
unfolding get_or_create
update_for_user body user_id rows =
    let (p, rows') = get_or_create user_id rows in
    (
      updated body p,
      map (λ (x : NotificationPreference). if x.user_id == user_id then updated body x else x)
          rows',
    )

-- `_channel_enabled_for_preference`
unfoldable pub channel_enabled_for_preference : NotificationPreference → Channel → Bool
channel_enabled_for_preference p email = p.email_enabled
channel_enabled_for_preference p in_app = p.in_app_enabled
channel_enabled_for_preference p webhook = p.webhook_enabled

-- `channel_enabled`
unfoldable pub channel_enabled : List NotificationPreference → ℕ → Channel → Bool
unfolding get_preference channel_enabled_for_preference
channel_enabled rows user_id channel = elim (get_preference rows user_id) [
  | none ↦ true
  | some p ↦ channel_enabled_for_preference p channel
]

-- `Event`, with the texts of its payload: `title` as `str` writes it, and `body` if it is a text
pub record Event : Type 0 where
  pub event_type : String
  pub title : Option String
  pub body : Option String
  pub user_id : Option ℕ

-- A mail that was enqueued, and a message that was pushed to the live sockets of a user
pub record Mail : Type 0 where
  pub to : String
  pub title : String
  pub body : Option String

pub record Push : Type 0 where
  pub user_id : ℕ
  pub title : String
  pub body : Option String

-- The state of a dispatch
pub record Outbox : Type 0 where
  pub inbox : Inbox
  pub mails : List Mail
  pub pushes : List Push

-- What does not raise: the commit of a notification, the queue, and the sockets. `concat` makes the
-- title of a mail without one.
pub record Surroundings : Type 0 where
  pub enabled : Bool
  pub stores : Notification → Bool
  pub enqueues : Mail → Bool
  pub reaches : Push → Bool
  pub concat : String → String

-- `_payload_str(event.payload, "title", …)`
abbrev pub title_or : Option String → String → String
title_or none default = default
title_or (some t) default = t

-- `_push_websocket`, which never raises
unfoldable pub push_websocket : Surroundings → Push → Outbox → Outbox
push_websocket s p o = if s.reaches p then record o { pushes = o.pushes ++ p ∷ [] } else o

-- `_create_in_app`; `none` is a commit that raises.
unfoldable pub create_in_app : Surroundings → ℕ → Event → Outbox → Option Outbox
unfolding create_for_user push_websocket
create_in_app s user_id e o =
    let title = title_or e.title e.event_type in
    let (n, inbox) = create_for_user user_id e.event_type title e.body o.inbox in
    if s.stores n
    then some (
        push_websocket s (record { user_id = user_id; title = n.title; body = n.body })
          (record o { inbox = inbox }))
    else none

-- `_dispatch_email`, which catches what the queue raises
unfoldable pub dispatch_email : Surroundings → Directory → ℕ → Event → Outbox → Outbox
dispatch_email s d user_id e o = elim (get_user d user_id) [
  | none ↦ o
  | some u ↦
      if str_eq u.email ""
      then o
      else (let m : Mail = record {
        to = u.email;
        title = title_or e.title (s.concat e.event_type);
        body = e.body;
      } in
          if s.enqueues m then record o { mails = o.mails ++ m ∷ [] } else o)
]

-- The mail of `handle_notification_event`, if its channel is enabled
abbrev pub mail_channel :
    Surroundings → List NotificationPreference → Directory → ℕ → Event → Outbox → Outbox
mail_channel s prefs d user_id e o =
    if channel_enabled prefs user_id email then dispatch_email s d user_id e o else o

-- `handle_notification_event`: a commit that raises ends the dispatch.
unfoldable pub handle_notification_event :
    Surroundings → List NotificationPreference → Directory → Event → Outbox → Outbox
unfolding channel_enabled create_in_app dispatch_email
handle_notification_event s prefs d e o = if not s.enabled then o else elim e.user_id [
  | none ↦ o
  | some user_id ↦
      if channel_enabled prefs user_id in_app
      then elim (create_in_app s user_id e o) [
        | none ↦ o
        | some o' ↦ mail_channel s prefs d user_id e o'
      ]
      else mail_channel s prefs d user_id e o
]
