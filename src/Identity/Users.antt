-- ===== src/Identity/Users.antt =====
-- The endpoints of app/identity/api/endpoints/users.py, over `CRUDUser`, and `register`. The user
-- that `PermissionChecker` admits is an argument where it is read. The exports, the import of a
-- file and the columns outside `User` are left out.
pub mod Listed
pub mod Retained
use async_fastapi_template.Prelude.{
  Text, is_empty, ℕ, String, ◌+◌, ◌-◌, ◌*◌, ◌/◌, Bool, true, false, not, ◌||◌, Option, none, some,
  List, [], ◌∷◌, ◌++◌, is_some, if◌then◌else◌,
}
use async_fastapi_template.Identity.Model.{
  User, Directory, get_by_email, get_by_username, get_with_roles, add_user, magic_user,
}
use async_fastapi_template.Identity.Security.{
  Crypto, Reply, ok, fail, not_found, forbidden, bad_request, server_error, day,
}
use async_fastapi_template.Crud.{Model, get, get_multi_cursor, delete, restore, purge}
use async_fastapi_template.Crud.Pages.{Codec, CursorPage, decode_cursor, create_cursor_page}

-- `User` has the soft-delete mixin.
abbrev pub user_model : Model User
user_model = record {
  id = λ u. u.id;
  deleted_at = λ u. u.deleted_at;
  set_deleted_at = λ t u. record u { deleted_at = t };
  has_soft_delete = true;
}

-- `decode_cursor(cursor) if cursor else None`, which raises on what is no cursor
unfoldable pub cursor_id : Codec → Option Text → Reply (Option ℕ)
unfolding decode_cursor
cursor_id py none = ok none
cursor_id py (some s) =
    if is_empty s
    then ok none
    else elim (decode_cursor py s) [ none ↦ fail server_error | some n ↦ ok (some n) ]

-- `list_users`, and with `true` `list_trashed_users`
unfoldable pub list_users : Codec → Bool → Option Text → ℕ → Directory → Reply (CursorPage User)
unfolding cursor_id get_multi_cursor create_cursor_page
list_users py include_deleted cursor size d = elim (cursor_id py cursor) [
  | fail e ↦ fail e
  | ok at_id ↦
      let (users, next_cursor) = get_multi_cursor user_model d.users at_id size include_deleted in
      ok (create_cursor_page py (λ (u : User). u.id) users size)
]

-- `get_user`
unfoldable pub read_user : ℕ → Directory → Reply User
read_user id d = elim (get_with_roles d id) [ none ↦ fail not_found | some u ↦ ok u ]

-- `delete_user`
unfoldable pub delete_user : ℕ → ℕ → Directory → Reply (Unit {0}) × Directory
unfolding delete
delete_user now id d =
    let (found, rows) = delete user_model now d.users id in
    (elim found [ none ↦ fail not_found | some u ↦ ok tt ], record d { users = rows })

-- `restore_user`
unfoldable pub restore_user : ℕ → Directory → Reply User × Directory
unfolding restore
restore_user id d =
    let (found, rows) = restore user_model d.users id in
    let d' = record d { users = rows } in
    elim found [
      | none ↦ (fail not_found, d')
      | some u ↦ (elim (get_with_roles d' u.id) [ none ↦ fail server_error | some v ↦ ok v ], d')
    ]

-- `purge_deleted_users`: the cutoff is the midnight before, less the days.
unfoldable pub purge_deleted_users : User → ℕ → ℕ → Directory → Reply ℕ × Directory
unfolding purge
purge_deleted_users u now older_than_days d =
    if not u.is_superuser
    then (fail forbidden, d)
    else (let (count, rows) = purge user_model (now / day * day - older_than_days * day) d.users in
        (ok count, record d { users = rows }))

-- `UserCreate`
pub record UserCreate : Type 0 where
  pub email : String
  pub username : String
  pub password : String

-- The row of `CRUDUser.create`, before the address is verified
unfoldable pub user_row : Crypto → ℕ → UserCreate → User
user_row crypto id body =
    record (magic_user id body.email body.username (crypto.get_password_hash body.password)) {
      is_verified = false;
    }

-- `register`
unfoldable pub register : Crypto → UserCreate → Directory → Reply User × Directory
unfolding user_row
register crypto body d =
    if is_some (get_by_email d body.email)
    then (fail bad_request, d)
    else if is_some (get_by_username d body.username)
    then (fail bad_request, d)
    else (let u = user_row crypto d.next_id body in (ok u, add_user u d))
