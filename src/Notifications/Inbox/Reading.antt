-- ===== src/Notifications/Inbox/Reading.antt =====
-- What marking an inbox as read changes.
use async_fastapi_template.Prelude.{
  ℕ, ◌==◌, ◌≡◌, refl, ◌∙◌, Bool, false, List, [], ◌∷◌, count_if, map, arith, if◌then◌else◌,
  Bool-cases, inl, inr,
}
use async_fastapi_template.Notifications.Inbox.{
  Notification, is_unread, read_row, count_unread, count_for_user, mark_all_read,
}

count_map :
    (p q : Notification → Bool) (f : Notification → Notification) (rows : List Notification)
    → ((n : Notification) → p (f n) ≡ q n)
    → count_if p (map f rows) ≡ count_if q rows
count_map p q f [] h = refl
count_map p q f (n ∷ rows) h = rw (h n, count_map p q f rows h) refl

count_none : (rows : List Notification) → count_if (λ n. false) rows ≡ 0
count_none [] = refl
count_none (n ∷ rows) = omega (arith, count_none rows)

read_is :
    (now user_id : ℕ) (n : Notification)
    → is_unread user_id (if is_unread user_id n then read_row now n else n) ≡ false
read_is now user_id n = elim (Bool-cases (is_unread user_id n)) [
  | inl b ↦ rw b (ground arith)
  | inr b ↦ rw b b
]

read_other :
    (now user_id other : ℕ) (n : Notification)
    → (other == user_id) ≡ false
    → is_unread other (if is_unread user_id n then read_row now n else n) ≡ is_unread other n
read_other now user_id other n e = elim (Bool-cases (is_unread user_id n)) [
  | inl b ↦ rw b (ground (arith, b, e))
  | inr b ↦ rw b refl
]

-- Marking the inbox of a user as read reports as many rows as were unread, leaves none unread,
-- keeps the number of the user's rows, and changes no count of another user.
pub mark_all_read_counts :
    (now user_id other : ℕ) (rows : List Notification)
    → (other == user_id) ≡ false
    → let (updated, rows') = mark_all_read now user_id rows in
      (updated ≡ count_unread rows user_id)
      × (count_unread rows' user_id ≡ 0)
      × (count_for_user rows' user_id ≡ count_for_user rows user_id)
      × (count_unread rows' other ≡ count_unread rows other)
      × (count_for_user rows' other ≡ count_for_user rows other)
unfolding mark_all_read count_unread count_for_user
mark_all_read_counts now user_id other rows e =
    let f = λ (n : Notification). if is_unread user_id n then read_row now n else n in
    let mine = λ (n : Notification). n.user_id == user_id in
    let theirs = λ (n : Notification). n.user_id == other in
    (
      refl,
      count_map (is_unread user_id) (λ n. false) f rows (λ n. read_is now user_id n)
          ∙ count_none rows,
      count_map mine mine f rows (λ n. ground arith),
      count_map (is_unread other) (is_unread other) f rows (λ n. read_other now user_id other n e),
      count_map theirs theirs f rows (λ n. ground arith),
    )
