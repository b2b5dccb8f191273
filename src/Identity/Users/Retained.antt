-- ===== src/Identity/Users/Retained.antt =====
-- What the deletion of a user leaves to the user's tokens.
use async_fastapi_template.Prelude.{ℕ, ◌≡◌, refl, ap, ◌==◌, ◌&&◌, false, some, find-holds}
use async_fastapi_template.Identity.Model.{User, Directory, in_tenant}
use async_fastapi_template.Identity.Blacklist
use async_fastapi_template.Identity.Sessions.{RedisSessions}
use async_fastapi_template.Identity.Security.{Settings, Crypto, ok}
use async_fastapi_template.Identity.Call.{World, write}
use async_fastapi_template.Identity.Access.{get_current_user, is_revoked}
use async_fastapi_template.Identity.Access.Admitted.{admitted, admits}
use async_fastapi_template.Crud.{get, put}
use async_fastapi_template.Crud.Deletion.{Columns, find_again, delete_soft}
use async_fastapi_template.Identity.Users.{user_model, delete_user}

abbrev pub user_columns : Columns user_model
user_columns = record { id_set = λ o a. refl; deleted_set = λ o a. refl; set_set = λ o a. refl }

deleted_row :
    (t : ℕ) (u : User) (d : Directory)
    → get user_model d.users u.id false ≡ some u
    → delete_user t u.id d
      ≡ (ok tt, record d { users = put user_model (record u { deleted_at = some t }) d.users })
unfolding delete_user
deleted_row t u d g =
    let s = delete_soft user_model user_columns refl t u.id d.users u g in
    rw (delete_user, ap (λ x. x.0) s, ap (λ x. x.1) s) refl

-- A token that admits a user still does after the user was deleted: the row is marked as deleted,
-- and the dependency does not look at the mark.
pub delete_user-get_current_user :
    (crypto : Crypto) (redis : RedisSessions) (c : Settings) (b : Blacklist.Settings) (now t : ℕ)
    (token : crypto.Token) (u : User) (w : World redis)
    → (get_current_user crypto redis c b now token w).0 ≡ ok u
    → get user_model w.directory.users u.id false ≡ some u
    → ((delete_user t u.id w.directory).0 ≡ ok tt)
      × ((get_current_user crypto redis c b now token
            (write redis (λ d. (delete_user t u.id d).1) w)).0
          ≡ ok (record u { deleted_at = some t }))
unfolding is_revoked
delete_user-get_current_user crypto redis c b now t token u w e g =
    let s = deleted_row t u w.directory g in
    let (claims, id, d, i, r, f, a) = admitted crypto redis c b now token w u e in
    let u' = record u { deleted_at = some t } in
    let k = λ (x : User). x.id == id && in_tenant w.directory.tenant x in
    let f' =
      find_again user_model k k u u' w.directory.users refl (find-holds k u w.directory.users f)
        (λ x z. z) f in
    rw (ap (λ x. x.0) s, ap (λ x. x.1) s)
      (
        refl,
        ap (λ x. x.0)
            (admits crypto redis c b now token
              (write redis (λ d. record d { users = put user_model u' d.users }) w) u'
              (claims, id, d, i, r, f', a)),
      )
