-- ===== src/Notifications/Inbox.antt =====
-- app/notifications/crud/notification.py and the inbox endpoints of
-- app/notifications/api/endpoints/notifications.py. The table is kept newest first, the order of
-- its queries: ids are drawn in ascending order.
pub mod Order
pub mod Paging
pub mod Reading
use async_fastapi_template.Prelude.{
  Text, is_empty, ℕ, String, ◌+◌, ◌==◌, Bool, true, false, not, ◌&&◌, ◌||◌, Option, none, some,
  List, [], ◌∷◌, ltb, length, take, drop, select, find, count_if, map, if◌then◌else◌,
}
use async_fastapi_template.Identity.Security.{Reply, ok, fail, not_found, server_error}
use async_fastapi_template.Crud.{Model, last, delete, restore, put}
use async_fastapi_template.Crud.Pages.{Codec, encode_cursor, decode_cursor}

pub record Notification : Type 0 where
  pub id : ℕ
  pub user_id : ℕ
  pub event_type : String
  pub title : String
  pub body : Option String
  pub is_read : Bool
  pub read_at : Option ℕ
  pub deleted_at : Option ℕ

-- `Notification` has the soft-delete mixin.
abbrev pub notification_model : Model Notification
notification_model = record {
  id = λ n. n.id;
  deleted_at = λ n. n.deleted_at;
  set_deleted_at = λ t n. record n { deleted_at = t };
  has_soft_delete = true;
}

-- The table, and the id that it draws next
pub record Inbox : Type 0 where
  pub rows : List Notification
  pub next_id : ℕ

-- `create_for_user`
unfoldable pub create_for_user : ℕ → String → String → Option String → Inbox → Notification × Inbox
create_for_user user_id event_type title body i =
    let n : Notification = record {
      id = i.next_id;
      user_id = user_id;
      event_type = event_type;
      title = title;
      body = body;
      is_read = false;
      read_at = none;
      deleted_at = none;
    } in
    (n, record { rows = n ∷ i.rows; next_id = i.next_id + 1 })

-- `get_for_user`
unfoldable pub get_for_user : List Notification → ℕ → ℕ → Option Notification
get_for_user rows notification_id user_id =
    find (λ n. n.id == notification_id && n.user_id == user_id) rows

-- The rows of a user that a list shows
abbrev pub is_shown : ℕ → Bool → Notification → Bool
is_shown user_id unread_only n = n.user_id == user_id && (not unread_only || not n.is_read)

-- `list_for_user`
unfoldable pub list_for_user : List Notification → ℕ → ℕ → ℕ → Bool → List Notification
list_for_user rows user_id skip limit unread_only =
    take limit (drop skip (select (is_shown user_id unread_only) rows))

-- `WHERE id < cursor`
abbrev pub is_below : Option ℕ → Notification → Bool
is_below none n = true
is_below (some cursor) n = ltb n.id cursor

-- `list_for_user_cursor`
unfoldable pub list_for_user_cursor :
    List Notification → ℕ → Option ℕ → ℕ → Bool → List Notification
list_for_user_cursor rows user_id cursor size unread_only =
    take (size + 1) (select (λ n. is_below cursor n && is_shown user_id unread_only n) rows)

-- `count_for_user`
unfoldable pub count_for_user : List Notification → ℕ → ℕ
count_for_user rows user_id = count_if (λ n. n.user_id == user_id) rows

-- The `WHERE` clause of `count_unread` and of `mark_all_read`
abbrev pub is_unread : ℕ → Notification → Bool
is_unread user_id n = n.user_id == user_id && not n.is_read

-- `count_unread`
unfoldable pub count_unread : List Notification → ℕ → ℕ
count_unread rows user_id = count_if (is_unread user_id) rows

abbrev pub read_row : ℕ → Notification → Notification
read_row now n = record n { is_read = true; read_at = some now }

-- `mark_read`
unfoldable pub mark_read : ℕ → Notification → List Notification → Notification × List Notification
mark_read now n rows =
    if n.is_read then (n, rows) else (read_row now n, put notification_model (read_row now n) rows)

-- `mark_all_read`: the number of rows that changed
unfoldable pub mark_all_read : ℕ → ℕ → List Notification → ℕ × List Notification
mark_all_read now user_id rows = (
  count_if (is_unread user_id) rows,
  map (λ n. if is_unread user_id n then read_row now n else n) rows,
)

-- `NotificationCursorResponse`
pub record Response : Type 0 where
  pub items : List Notification
  pub next_cursor : Option Text
  pub has_more : Bool
  pub size : ℕ
  pub unread_count : ℕ

-- The page of `list_notifications` at a cursor that was decoded
unfoldable pub page_at : Codec → List Notification → ℕ → Option ℕ → ℕ → Bool → Response
unfolding list_for_user_cursor count_unread encode_cursor
page_at py rows user_id cursor size unread_only =
    let items = list_for_user_cursor rows user_id cursor size unread_only in
    let has_more = ltb size (length items) in
    let page_items = take size items in
    record {
      items = page_items;
      next_cursor =
          if has_more
          then elim (last page_items) [ none ↦ none | some n ↦ some (encode_cursor py n.id) ]
          else none;
      has_more = has_more;
      size = length page_items;
      unread_count = count_unread rows user_id;
    }

-- `list_notifications`; a cursor that is no number raises.
unfoldable pub list_notifications :
    Codec → List Notification → ℕ → Option Text → ℕ → Bool → Reply Response
unfolding page_at decode_cursor
list_notifications py rows user_id none size unread_only =
    ok (page_at py rows user_id none size unread_only)
list_notifications py rows user_id (some text) size unread_only =
    if is_empty text
    then ok (page_at py rows user_id none size unread_only)
    else elim (decode_cursor py text) [
      | none ↦ fail server_error
      | some cursor ↦ ok (page_at py rows user_id (some cursor) size unread_only)
    ]

-- The endpoint `mark_read`
unfoldable pub mark_read_endpoint :
    ℕ → ℕ → ℕ → List Notification → Reply Notification × List Notification
unfolding get_for_user mark_read
mark_read_endpoint now user_id id rows = elim (get_for_user rows id user_id) [
  | none ↦ (fail not_found, rows)
  | some n ↦ (let (n', rows') = mark_read now n rows in (ok n', rows'))
]

-- `delete_notification`
unfoldable pub delete_notification :
    ℕ → ℕ → ℕ → List Notification → Reply (Unit {0}) × List Notification
unfolding get_for_user delete
delete_notification now user_id id rows = elim (get_for_user rows id user_id) [
  | none ↦ (fail not_found, rows)
  | some n ↦ (ok tt, (delete notification_model now rows id).1)
]

-- `restore_notification`, which never compares the user
unfoldable pub restore_notification : ℕ → List Notification → Reply Notification × List Notification
unfolding restore
restore_notification id rows =
    let (found, rows') = restore notification_model rows id in
    (elim found [ none ↦ fail not_found | some n ↦ ok n ], rows')
