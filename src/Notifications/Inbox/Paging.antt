-- ===== src/Notifications/Inbox/Paging.antt =====
-- The inbox, page by page.
use native.Mathlib.Numerals.{unary_clauses}
use async_fastapi_template.Prelude.{
  Text, ℕ, zero, suc, ◌≤◌, ◌<◌, ◌≡◌, refl, ◌∙◌, Bool, true, false, ◌&&◌, Option, none, some, List,
  [], ◌++◌, ltb, length, take, drop, select, arith, Bool-cases, inl, inr,
}
use async_fastapi_template.Identity.Security.{ok, fail}
use async_fastapi_template.Crud.{last}
use async_fastapi_template.Crud.Pages.{Codec, encode_cursor, decode_cursor}
use async_fastapi_template.Notifications.Inbox.{
  Notification, is_shown, is_below, page_at, list_for_user_cursor, list_notifications,
}
use async_fastapi_template.Notifications.Inbox.Order.{
  IsNewestFirst, select-IsNewestFirst, narrower, last_below, take_below, selected_below, page_left,
  take_more, take_all, take-drop, length-drop, last_there,
}

module _ (py : Codec) (rows : List Notification) (user_id size : ℕ) (unread_only : Bool) where
  -- A client that follows the cursors of `list_notifications`, for at most so many calls
  pub read_pages : ℕ → Option Text → List Notification
  read_pages zero cursor = []
  read_pages (suc calls) cursor =
      elim (list_notifications py rows user_id cursor size unread_only) [
        | fail e ↦ []
        | ok page ↦ elim page.next_cursor [
          | none ↦ page.items
          | some next ↦ page.items ++ read_pages calls (some next)
        ]
      ]

  -- What is left at a cursor
  abbrev rest : Option ℕ → List Notification
  rest cursor = select (λ n. is_below cursor n && is_shown user_id unread_only n) rows

  abbrev cursor_text : Option ℕ → Option Text
  cursor_text none = none
  cursor_text (some k) = some (encode_cursor py k)

  listed :
      (cursor : Option ℕ)
      → list_notifications py rows user_id (cursor_text cursor) size unread_only
        ≡ ok (page_at py rows user_id cursor size unread_only)
  unfolding list_notifications encode_cursor decode_cursor
  listed none = refl
  listed (some k) =
      rw (encode_cursor, py.dumps_solid k, py.decode_encode (py.dumps k), py.loads_dumps k) refl

  fetched :
      (cursor : Option ℕ)
      → (take size (list_for_user_cursor rows user_id cursor size unread_only)
          ≡ take size (rest cursor))
        × (ltb size (length (list_for_user_cursor rows user_id cursor size unread_only))
            ≡ ltb size (length (rest cursor)))
  unfolding list_for_user_cursor
  fetched cursor = simp unary_clauses (take_more size (rest cursor))

  -- The page at a cursor: all that is left, or as many rows as asked for and the cursor of the last
  page_last :
      (cursor : Option ℕ)
      → length (rest cursor) ≤ size
      → ((page_at py rows user_id cursor size unread_only).items ≡ rest cursor)
        × ((page_at py rows user_id cursor size unread_only).next_cursor ≡ none)
  unfolding page_at
  page_last cursor l =
      let b : ltb size (length (rest cursor)) ≡ false = ground (arith, l) in
      let f = fetched cursor in (f.0 ∙ take_all size (rest cursor) l, rw (f.1, b) refl)

  page_more :
      (cursor : Option ℕ) (z : Notification)
      → size < length (rest cursor)
      → last (take size (rest cursor)) ≡ some z
      → ((page_at py rows user_id cursor size unread_only).items ≡ take size (rest cursor))
        × ((page_at py rows user_id cursor size unread_only).next_cursor
            ≡ some (encode_cursor py z.id))
  unfolding page_at
  page_more cursor z l e =
      let b : ltb size (length (rest cursor)) ≡ true = ground (arith, l) in
      let f = fetched cursor in (f.0, rw (f.1, b, f.0, e) refl)

  below_cursor :
      (cursor : Option ℕ) (z n : Notification)
      → last (take size (rest cursor)) ≡ some z
      → is_below (some z.id) n ≡ true
      → is_below cursor n ≡ true
  below_cursor none z n e b = refl
  below_cursor (some c) z n e b =
      let h = selected_below c (is_shown user_id unread_only) rows in
      let l = last_below c z (take size (rest (some c))) (take_below c size (rest (some c)) h) e in
      ground (arith, l, b)

  -- What is left at the cursor of a page is what the page left.
  rest_next :
      (cursor : Option ℕ) (z : Notification)
      → IsNewestFirst rows
      → 1 ≤ size
      → last (take size (rest cursor)) ≡ some z
      → rest (some z.id) ≡ drop size (rest cursor)
  rest_next cursor z h s e =
      narrower z.id cursor (is_shown user_id unread_only) rows (λ n. below_cursor cursor z n e)
      ∙ page_left size (rest cursor) z s (select-IsNewestFirst _ rows h) e

  read_rest :
      (calls : ℕ) (cursor : Option ℕ)
      → IsNewestFirst rows
      → 1 ≤ size
      → length (rest cursor) < calls
      → read_pages calls (cursor_text cursor) ≡ rest cursor
  unfolding read_pages
  read_rest zero cursor h s l = absurd (omega (arith, l))
  read_rest (suc calls) cursor h s l = elim (Bool-cases (ltb size (length (rest cursor)))) [
    | inl b ↦
        let (z, e) = last_there size (rest cursor) s (ground (arith, b)) in
        let p = page_more cursor z (ground (arith, b)) e in
        let n = rest_next cursor z h s e in
        let d = length-drop size (rest cursor) s (ground (arith, b)) in
        let r = read_rest calls (some z.id) h s (rw n (omega (arith, d, l))) in
        rw (read_pages, listed cursor, p.1, p.0, r, n) (take-drop size (rest cursor))
    | inr b ↦
        let p = page_last cursor (ground (arith, b)) in rw (read_pages, listed cursor, p.1) p.0
  ]

  -- Over a table that is newest first, with a page size of one or more: a client that reads the
  -- inbox from the start and follows the cursors gets each of the user's notifications,
  -- soft-deleted ones included, of those that are unread if that is asked for, exactly once and
  -- newest first, if it may make more calls than there are such rows.
  pub read_pages_all :
      (calls : ℕ)
      → IsNewestFirst rows
      → 1 ≤ size
      → length (select (is_shown user_id unread_only) rows) < calls
      → read_pages calls none ≡ select (is_shown user_id unread_only) rows
  read_pages_all calls h s l = read_rest calls none h s l
