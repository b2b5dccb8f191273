-- ===== src/Identity/Keys.antt =====
-- The endpoints of app/identity/api/endpoints/api_keys.py, over `CRUDApiKey`, for the user that the
-- dependencies admit. The name of a key and the list of keys are left out.
pub mod Deleted
use async_fastapi_template.Prelude.{
  Text, ℕ, String, ◌+◌, ◌==◌, Bool, true, false, not, Option, none, some, List, [], ◌∷◌, ◌++◌, take,
  if◌then◌else◌,
}
use async_fastapi_template.Identity.Model.{User, ApiKey, Directory}
use async_fastapi_template.Identity.Security.{Reply, ok, fail, not_found, server_error}
use async_fastapi_template.Crud.{Model, get, delete, restore, put}

-- `ApiKey` has the soft-delete mixin.
abbrev pub api_key_model : Model ApiKey
api_key_model = record {
  id = λ k. k.id;
  deleted_at = λ k. k.deleted_at;
  set_deleted_at = λ t k. record k { deleted_at = t };
  has_soft_delete = true;
}

-- `ApiKeyUpdate`: a field that the body leaves out is `none`, `null` is `some none`.
pub record ApiKeyUpdate : Type 0 where
  pub new_scopes : Option (Option (List String))
  pub new_active : Option (Option Bool)

-- `obj_in.scopes or None`
abbrev pub or_none : Option (List String) → Option (List String)
or_none (some (s ∷ ss)) = some (s ∷ ss)
or_none (some []) = none
or_none none = none

-- The row of `create_with_raw_key`, of the drawn key
unfoldable pub api_key_row :
    (Text → String) → ℕ → ℕ → Text → Option (List String) → Option ℕ → ApiKey
api_key_row sha id user_id raw scopes expires_at = record {
  id = id;
  user_id = user_id;
  deleted_at = none;
  key_prefix = take 10 raw;
  hashed_key = sha raw;
  scopes = or_none scopes;
  is_active = true;
  expires_at = expires_at;
  last_used_at = none;
}

-- `create_api_key`: the row, and the raw key, which is shown only here
unfoldable pub create_api_key :
    (Text → String)
    → User
    → Text
    → Option (List String)
    → Option ℕ
    → Directory
    → (ApiKey × Text) × Directory
unfolding api_key_row
create_api_key sha u raw scopes expires_at d =
    let k = api_key_row sha d.next_id u.id raw scopes expires_at in
    ((k, raw), record d { api_keys = d.api_keys ++ k ∷ []; next_id = d.next_id + 1 })

-- `api_key_obj.user_id != current_user.id`
abbrev pub is_foreign : User → ApiKey → Bool
is_foreign u k = not (k.user_id == u.id)

-- The fields that are set; the column `is_active` may not be null.
abbrev pub set_fields : ApiKeyUpdate → ApiKey → Reply ApiKey
set_fields body k =
    let k' : ApiKey = elim body.new_scopes [ none ↦ k | some s ↦ record k { scopes = s } ] in
    elim body.new_active [
      | none ↦ ok k'
      | some none ↦ fail server_error
      | some (some a) ↦ ok (record k' { is_active = a })
    ]

-- `update_api_key`
unfoldable pub update_api_key : User → ℕ → ApiKeyUpdate → Directory → Reply ApiKey × Directory
unfolding get
update_api_key u id body d = elim (get api_key_model d.api_keys id false) [
  | none ↦ (fail not_found, d)
  | some k ↦ if is_foreign u k then (fail not_found, d) else elim (set_fields body k) [
    | fail e ↦ (fail e, d)
    | ok k' ↦ (ok k', record d { api_keys = put api_key_model k' d.api_keys })
  ]
]

-- `delete_api_key`
unfoldable pub delete_api_key : ℕ → User → ℕ → Directory → Reply (Unit {0}) × Directory
unfolding get delete
delete_api_key now u id d = elim (get api_key_model d.api_keys id false) [
  | none ↦ (fail not_found, d)
  | some k ↦
      if is_foreign u k
      then (fail not_found, d)
      else (ok tt, record d { api_keys = (delete api_key_model now d.api_keys id).1 })
]

-- `restore_api_key`: the owner is compared after the row was restored.
unfoldable pub restore_api_key : User → ℕ → Directory → Reply ApiKey × Directory
unfolding restore
restore_api_key u id d =
    let (found, rows) = restore api_key_model d.api_keys id in
    let d' = record d { api_keys = rows } in
    elim found [
      | none ↦ (fail not_found, d')
      | some k ↦ if is_foreign u k then (fail not_found, d') else (ok k, d')
    ]
