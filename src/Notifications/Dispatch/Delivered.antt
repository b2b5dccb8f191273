-- ===== src/Notifications/Dispatch/Delivered.antt =====
-- What a dispatch delivers.
use text.Mathlib.Text.{◌==◌ as str_eq}
use async_fastapi_template.Prelude.{
  ℕ, String, ◌+◌, ◌==◌, ◌≡◌, refl, ap, ◌∙◌, true, false, Option, some, List, [], ◌∷◌, length,
  length-append, arith, if◌then◌else◌, Bool-cases, inl, inr, ==_self,
}
use async_fastapi_template.Identity.Model.{User, Directory, get_user}
use async_fastapi_template.Notifications.Inbox.{Inbox, Notification, count_unread, create_for_user}
use async_fastapi_template.Notifications.Dispatch.{
  NotificationPreference, email, in_app, channel_enabled, Event, Mail, Push, Outbox, Surroundings,
  title_or, push_websocket, create_in_app, dispatch_email, mail_channel, handle_notification_event,
}

-- Counting after a dispatch
created_unread :
    (user_id id : ℕ) (event_type title : String) (body : Option String) (o : Outbox)
    → count_unread (create_for_user user_id event_type title body o.inbox).1.rows id
      ≡ (if user_id == id then 1 else 0) + count_unread o.inbox.rows id
unfolding create_for_user count_unread
created_unread user_id id event_type title body o = ground arith

module _ (s : Surroundings) (prefs : List NotificationPreference) (d : Directory) (e : Event) where
  push_keeps :
      (p : Push) (o : Outbox)
      → ((push_websocket s p o).inbox ≡ o.inbox) × ((push_websocket s p o).mails ≡ o.mails)
  unfolding push_websocket
  push_keeps p o = ground arith

  mailed :
      (user_id : ℕ) (u : User) (o : Outbox)
      → get_user d user_id ≡ some u
      → str_eq u.email "" ≡ false
      → ((m : Mail) → s.enqueues m ≡ true)
      → let o' = mail_channel s prefs d user_id e o in
        (o'.inbox ≡ o.inbox)
        × (length o'.mails
            ≡ length o.mails + (if channel_enabled prefs user_id email then 1 else 0))
  unfolding dispatch_email
  mailed user_id u o f a q = elim (Bool-cases (channel_enabled prefs user_id email)) [
    | inl b ↦
        let m : Mail = record {
          to = u.email;
          title = title_or e.title (s.concat e.event_type);
          body = e.body;
        } in
        rw (dispatch_email, b, f, a, q m) (refl, length-append o.mails (m ∷ []))
    | inr b ↦ rw b (refl, omega arith)
  ]

  -- The outbox after `_create_in_app`
  abbrev stored : ℕ → Outbox → Outbox
  stored user_id o =
      let title = title_or e.title e.event_type in
      push_websocket s (record { user_id = user_id; title = title; body = e.body })
        (record o { inbox = (create_for_user user_id e.event_type title e.body o.inbox).1 })

  stores :
      (user_id : ℕ) (o : Outbox)
      → ((n : Notification) → s.stores n ≡ true)
      → create_in_app s user_id e o ≡ some (stored user_id o)
  unfolding create_in_app create_for_user
  stores user_id o st =
      let title = title_or e.title e.event_type in
      rw (create_in_app, st (create_for_user user_id e.event_type title e.body o.inbox).0) refl

  handled :
      (user_id : ℕ) (o : Outbox)
      → s.enabled ≡ true
      → e.user_id ≡ some user_id
      → ((n : Notification) → s.stores n ≡ true)
      → handle_notification_event s prefs d e o
        ≡ mail_channel s prefs d user_id e
            (if channel_enabled prefs user_id in_app then stored user_id o else o)
  unfolding handle_notification_event
  handled user_id o on to st = elim (Bool-cases (channel_enabled prefs user_id in_app)) [
    | inl b ↦ rw (handle_notification_event, on, to, b, stores user_id o st) refl
    | inr b ↦ rw (handle_notification_event, on, to, b) refl
  ]

  -- With notifications enabled, a dispatch of an event for a user with an address, when neither
  -- the database nor the queue refuses: the inbox gets one unread row if the user's in-app
  -- channel is enabled, the queue gets one mail if the email channel is, and the number of unread
  -- rows of another user does not change.
  pub handle_notification_event_delivers :
      (user_id other : ℕ) (u : User) (o : Outbox)
      → s.enabled ≡ true
      → e.user_id ≡ some user_id
      → get_user d user_id ≡ some u
      → str_eq u.email "" ≡ false
      → ((n : Notification) → s.stores n ≡ true)
      → ((m : Mail) → s.enqueues m ≡ true)
      → (user_id == other) ≡ false
      → let o' = handle_notification_event s prefs d e o in
        (count_unread o'.inbox.rows user_id
          ≡ (if channel_enabled prefs user_id in_app then 1 else 0)
            + count_unread o.inbox.rows user_id)
        × (length o'.mails
            ≡ length o.mails + (if channel_enabled prefs user_id email then 1 else 0))
        × (count_unread o'.inbox.rows other ≡ count_unread o.inbox.rows other)
  handle_notification_event_delivers user_id other u o on to f a st q ne =
      let h = handled user_id o on to st in
      elim (Bool-cases (channel_enabled prefs user_id in_app)) [
        | inl b ↦
            let m = mailed user_id u (stored user_id o) f a q in
            let title = title_or e.title e.event_type in
            let k =
              push_keeps (record { user_id = user_id; title = title; body = e.body })
                (record o {
                  inbox = (create_for_user user_id e.event_type title e.body o.inbox).1;
                }) in
            let c = λ (id : ℕ). created_unread user_id id e.event_type title e.body o in
            let h' = rw b at h in
            let i = ap (λ (x : Outbox). x.inbox) h' ∙ m.0 ∙ k.0 in
            (
              ap (λ (x : Inbox). count_unread x.rows user_id) i
                  ∙ c user_id
                  ∙ rw (b, ==_self user_id) refl,
              ap (λ (x : Outbox). length x.mails) h'
                  ∙ m.1
                  ∙ ap (λ x. length x + (if channel_enabled prefs user_id email then 1 else 0)) k.1,
              ap (λ (x : Inbox). count_unread x.rows other) i ∙ c other ∙ rw ne (omega arith),
            )
        | inr b ↦
            let m = mailed user_id u o f a q in
            let h' = rw b at h in
            let i = ap (λ (x : Outbox). x.inbox) h' ∙ m.0 in
            (
              ap (λ (x : Inbox). count_unread x.rows user_id) i ∙ rw b (omega arith),
              ap (λ (x : Outbox). length x.mails) h' ∙ m.1,
              ap (λ (x : Inbox). count_unread x.rows other) i,
            )
      ]
