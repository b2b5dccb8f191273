-- ===== src/Identity/Users/Listed.antt =====
-- What the lists of users page through.
use async_fastapi_template.Prelude.{
  Text, ℕ, suc, zero, ◌≤◌, ◌≡◌, refl, Bool, false, Option, none, List, [], ◌∷◌, ltb, length, take,
  arith, ◌⊎◌, ap, sym, ◌∙◌, inl, inr,
}
use async_fastapi_template.Identity.Model.{User, Directory}
use async_fastapi_template.Identity.Security.{Fault, Reply, ok, fail}
use async_fastapi_template.Crud.{get_multi_cursor}
use async_fastapi_template.Crud.Pages.{Codec, CursorPage, create_cursor_page}
use async_fastapi_template.Identity.Users.{user_model, cursor_id, list_users}

length-take : {A : Type 0} (n : ℕ) (xs : List A) → length (take n xs) ≤ n
length-take zero xs = omega arith
length-take (suc n) [] = omega arith
length-take (suc n) (x ∷ xs) = omega (arith, length-take n xs)

page_ends :
    (py : Codec) (users : List User) (size : ℕ)
    → length users ≤ size
    → ((create_cursor_page py (λ (u : User). u.id) users size).has_more ≡ false)
      × ((create_cursor_page py (λ (u : User). u.id) users size).next_cursor ≡ none)
unfolding create_cursor_page
page_ends py users size l =
    let n : ltb size (length users) ≡ false = ground (arith, l) in
    rw (create_cursor_page, n) (refl, refl)

reply_cases : {A : Type 0} (r : Reply A) → ((f : Fault) × (r ≡ fail f)) ⊎ ((a : A) × (r ≡ ok a))
reply_cases (fail f) = inl (f, refl)
reply_cases (ok a) = inr (a, refl)

ok_injective : {A : Type 0} (a a' : A) → ◌≡◌ {A = Reply A} (ok a) (ok a') → a ≡ a'
ok_injective a a' e = grind (arith, e)

length-cursor :
    (at_id : Option ℕ) (size : ℕ) (include_deleted : Bool) (users : List User)
    → length (get_multi_cursor user_model users at_id size include_deleted).0 ≤ size
unfolding get_multi_cursor
length-cursor at_id size include_deleted users = length-take size _

-- Each page of the list of users, or of deleted users, says that it is the last one: the query
-- cuts its rows to the size, and the page looks for one row more.
pub list_users_ends :
    (py : Codec) (include_deleted : Bool) (cursor : Option Text) (size : ℕ) (d : Directory)
    (p : CursorPage User)
    → list_users py include_deleted cursor size d ≡ ok p
    → (p.has_more ≡ false) × (p.next_cursor ≡ none)
unfolding list_users get_multi_cursor
list_users_ends py include_deleted cursor size d p e = elim (reply_cases (cursor_id py cursor)) [
  | inl (f, r) ↦ absurd (ground (arith, rw (list_users, r) at e))
  | inr (at_id, r) ↦
      let users = (get_multi_cursor user_model d.users at_id size include_deleted).0 in
      let h = page_ends py users size (length-cursor at_id size include_deleted d.users) in
      let q = ok_injective _ p (rw (list_users, r) at e) in
      (
        ap (λ (x : CursorPage User). x.has_more) (sym q) ∙ h.0,
        ap (λ (x : CursorPage User). x.next_cursor) (sym q) ∙ h.1,
      )
]
