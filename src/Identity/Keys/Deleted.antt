-- ===== src/Identity/Keys/Deleted.antt =====
-- What the deletion and the restoration of an API key change.
use text.Mathlib.Text.{◌==◌ as str_eq}
use async_fastapi_template.Prelude.{
  Text, same_text, ℕ, String, ◌==◌, ◌≡◌, ◌≢◌, refl, ap, Bool, true, false, ◌&&◌, none, some,
  find-holds, take, ltb, arith, Option-cases, inl, inr,
}
use async_fastapi_template.Identity.Model.{User, ApiKey, Directory}
use async_fastapi_template.Identity.Security.{ok, fail, not_found}
use async_fastapi_template.Identity.Access.{verify_key, get_by_prefix}
use async_fastapi_template.Identity.Keys.{
  api_key_model, is_foreign, delete_api_key, restore_api_key,
}
use async_fastapi_template.Crud.{get, is_visible}
use async_fastapi_template.Crud.Deletion.{Columns, find_again, delete_soft, restore_soft}

abbrev pub api_key_columns : Columns api_key_model
api_key_columns = record { id_set = λ o a. refl; deleted_set = λ o a. refl; set_set = λ o a. refl }

-- The checks of `verify_key` after the look-up
abbrev Passes : (Text → String) → ℕ → Text → ApiKey → Type 0
Passes sha now raw k =
    (str_eq (sha raw) k.hashed_key ≡ true)
    × ((k.is_active ≡ true)
        × (elim k.expires_at as (λ x. Bool) [ none ↦ false | some t ↦ ltb t now ] ≡ false))

verified :
    (sha : Text → String) (now : ℕ) (raw : Text) (k : ApiKey) (d : Directory)
    → (verify_key sha now raw d).0 ≡ some k
    → (get_by_prefix d (take 10 raw) ≡ some k) × Passes sha now raw k
unfolding verify_key
verified sha now raw k d v = elim (Option-cases (get_by_prefix d (take 10 raw))) [
  | inl f ↦ absurd (ground (arith, rw (verify_key, f) at v))
  | inr (x, f) ↦ ground (arith, f, rw (verify_key, f) at v)
]

verifies :
    (sha : Text → String) (now : ℕ) (raw : Text) (k : ApiKey) (d : Directory)
    → get_by_prefix d (take 10 raw) ≡ some k
    → Passes sha now raw k
    → (verify_key sha now raw d).0 ≡ some k
unfolding verify_key
verifies sha now raw k d f h = rw (verify_key, f, h.0, h.1.0, h.1.1) refl

-- A key that verifies still does after its owner deleted it: the answer is the deleted row.
pub delete_api_key_verifies :
    (sha : Text → String) (now later : ℕ) (raw : Text) (u : User) (k : ApiKey) (d : Directory)
    → (verify_key sha later raw d).0 ≡ some k
    → get api_key_model d.api_keys k.id false ≡ some k
    → k.user_id ≡ u.id
    → ((delete_api_key now u k.id d).0 ≡ ok tt)
      × ((verify_key sha later raw (delete_api_key now u k.id d).1).0
          ≡ some (record k { deleted_at = some now }))
unfolding delete_api_key verify_key
delete_api_key_verifies sha now later raw u k d v g o =
    let h = verified sha later raw k d v in
    let k' = record k { deleted_at = some now } in
    let s = delete_soft api_key_model api_key_columns refl now k.id d.api_keys k g in
    let n : is_foreign u k ≡ false = ground (arith, o) in
    let m = λ (x : ApiKey). same_text x.key_prefix (take 10 raw) && x.is_active in
    let w =
      find_again api_key_model m m k k' d.api_keys refl (find-holds m k d.api_keys h.0) (λ x z. z)
        h.0 in
    rw (delete_api_key, g, n, s) (refl, verifies sha later raw k' _ w h.1)

-- Whoever restores a deleted key of another user is told that there is none, and the key is
-- restored.
pub restore_api_key_foreign :
    (u : User) (id t : ℕ) (k : ApiKey) (d : Directory)
    → get api_key_model d.api_keys id true ≡ some k
    → k.deleted_at ≡ some t
    → k.user_id ≢ u.id
    → ((restore_api_key u id d).0 ≡ fail not_found)
      × (get api_key_model (restore_api_key u id d).1.api_keys id false
          ≡ some (record k { deleted_at = none }))
unfolding restore_api_key
restore_api_key_foreign u id t k d g e o =
    let k' = record k { deleted_at = none } in
    let s = restore_soft api_key_model api_key_columns refl id t d.api_keys k g e in
    let n : is_foreign u k' ≡ true = ground (arith, o) in
    let p = λ (x : ApiKey). x.id == id && is_visible api_key_model true x in
    let q = λ (x : ApiKey). x.id == id && is_visible api_key_model false x in
    let w =
      find_again api_key_model p q k k' d.api_keys refl
        (ground (arith, find-holds p k d.api_keys g)) (λ x z. ground (arith, z)) g in
    rw (restore_api_key, ap (λ x. x.0) s, ap (λ x. x.1) s, n) (refl, w)
