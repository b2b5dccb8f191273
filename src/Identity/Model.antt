-- ===== src/Identity/Model.antt =====
-- The rows of app/identity/models that sign-in reads or writes, and the state of a call: users,
-- API keys and the audit trail, as the last commit left them. Every write of these rows is
-- followed by a commit in the code.
pub mod Rows
use text.Mathlib.Text.{◌==◌ as str_eq}
use async_fastapi_template.Prelude.{
  Text, ℕ, String, opt_eq, ◌+◌, ◌==◌, Bool, true, false, not, is_some, ◌||◌, ◌&&◌, Option, none,
  some, List, [], ◌∷◌, ◌++◌, find, any, if◌then◌else◌,
}

-- `Role`, with the names of its permissions
pub record Role : Type 0 where
  pub name : String
  pub permissions : List String

pub record User : Type 0 where
  pub id : ℕ
  pub tenant_id : Option ℕ
  pub email : String
  pub username : String
  pub hashed_password : String
  pub deleted_at : Option ℕ
  pub is_active : Bool
  pub is_superuser : Bool
  pub is_verified : Bool
  pub failed_login_attempts : ℕ
  pub locked_until : Option ℕ
  pub last_login_at : Option ℕ
  pub email_verified_at : Option ℕ
  pub oauth_provider : Option String
  pub oauth_provider_id : Option String
  pub totp_secret : Option String
  pub totp_enabled : Bool
  pub totp_verified_at : Option ℕ
  pub backup_codes : Option Text
  pub roles : List Role

-- The types of `AUTH_EVENT_TYPES` that are written here
pub data AuthEvent : Type 0 where
  login_success login_failure account_locked token_refresh token_revoke magic_link_login mfa_enroll
        mfa_disable :
      AuthEvent

-- The columns of `AuthAuditLog` that name the user
pub record AuthAuditLog : Type 0 where
  pub event_type : AuthEvent
  pub user_id : Option ℕ

pub record ApiKey : Type 0 where
  pub id : ℕ
  pub user_id : ℕ
  pub deleted_at : Option ℕ
  pub key_prefix : Text
  pub hashed_key : String
  pub scopes : Option (List String)
  pub is_active : Bool
  pub expires_at : Option ℕ
  pub last_used_at : Option ℕ

pub record Directory : Type 0 where
  pub users : List User
  pub api_keys : List ApiKey
  pub audit : List AuthAuditLog
  pub next_id : ℕ
  pub tenant : Option ℕ

-- What the engine's filter (app/core/database.py) leaves of the users for a request under a tenant
abbrev pub in_tenant : Option ℕ → User → Bool
in_tenant tenant u = not (is_some tenant) || opt_eq u.tenant_id tenant

-- `CRUDBase.get` of a user: a row that is soft-deleted is not found.
abbrev pub get_user : Directory → ℕ → Option User
get_user d id =
    find (λ (u : User). u.id == id && (not (is_some u.deleted_at) && in_tenant d.tenant u)) d.users

-- `CRUDUser.get_with_roles`, which does not look at `deleted_at`
abbrev pub get_with_roles : Directory → ℕ → Option User
get_with_roles d id = find (λ (u : User). u.id == id && in_tenant d.tenant u) d.users

-- `CRUDUser.get_by_email`
abbrev pub get_by_email : Directory → String → Option User
get_by_email d email = find (λ (u : User). str_eq u.email email && in_tenant d.tenant u) d.users

-- `CRUDUser.get_by_username`
abbrev pub get_by_username : Directory → String → Option User
get_by_username d name = find (λ (u : User). str_eq u.username name && in_tenant d.tenant u) d.users

abbrev pub put_row : User → List User → List User
put_row u [] = []
put_row u (r ∷ rows) = (if r.id == u.id then u else r) ∷ put_row u rows

-- Attribute writes on a loaded row, and their commit; no unique column is among them.
abbrev pub put_user : User → Directory → Directory
put_user u d = record d { users = put_row u d.users }

-- `log_auth_event`
abbrev pub log_auth_event : AuthEvent → Option ℕ → Directory → Directory
log_auth_event e id d = record d { audit = d.audit ++ record { event_type = e; user_id = id } ∷ [] }

-- The row that `verify_magic_link` makes of the drawn name and password
abbrev pub magic_user : ℕ → String → String → String → User
magic_user id email username password = record {
  id = id;
  tenant_id = none;
  email = email;
  username = username;
  hashed_password = password;
  deleted_at = none;
  is_active = true;
  is_superuser = false;
  is_verified = true;
  failed_login_attempts = 0;
  locked_until = none;
  last_login_at = none;
  email_verified_at = none;
  oauth_provider = none;
  oauth_provider_id = none;
  totp_secret = none;
  totp_enabled = false;
  totp_verified_at = none;
  backup_codes = none;
  roles = [];
}

abbrev pub username_taken : String → Directory → Bool
username_taken name d = is_some (find (λ (u : User). str_eq u.username name) d.users)

abbrev pub add_user : User → Directory → Directory
add_user u d = record d { users = d.users ++ u ∷ []; next_id = d.next_id + 1 }
